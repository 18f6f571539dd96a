-- ===== src/ServerConfig/Runs/Console.antt =====
-- The theorems on the admin console at concrete inputs.
use mysql8_audit_proxy.Base.{
  ◌≡◌, refl, Bool, Option, none, some, List, [], ◌∷◌, codes, ok, text_eq, to_lower,
}
use mysql8_audit_proxy.ServerConfig.Crypt.{generate_key, random_bytes, encrypt}
use mysql8_audit_proxy.ServerConfig.Query.{
  user_column, insert_stmt, where_columns_to_config, select_resultset, select_rows, select_row,
  with_columns, column_of,
}
use mysql8_audit_proxy.ServerConfig.Config.{get_config, new_config, default_config}
use mysql8_audit_proxy.ServerConfig.Manager.{no_update_data}
use mysql8_audit_proxy.ServerConfig.Service.{Call, insert, select}
use mysql8_audit_proxy.ServerConfig.Handler.{
  Reply, affected_rows, select_node, insert_node, table_name_node, column_name_node, value_expr,
  other_node, Visit, entered, left, new_config_handler, set_outcome, answered, panicked,
  handle_query,
}
use mysql8_audit_proxy.ServerConfig.Handler.Visits.{
  told, enters_other, leaves_other, ends, collected, handle_query-insert, handle_query-stale_error,
}
use mysql8_audit_proxy.ServerConfig.Runs.{plain, framed_json, nonces, draws}

abbrev call : Call
call = record { draws = draws; nonces = nonces; fault = none }

-- A text without a statement, such as a comment.
handle_query_nothing :
    (handle_query plain framed_json call {E = Bool} (ok []) (new_config_handler none)).0 ≡ panicked
unfolding handle_query
handle_query_nothing = refl

-- As the parser visits INSERT INTO user VALUES ('al', 'pw'): the table stands in a clause, a join and
-- a source.
abbrev insert_text : List Visit
insert_text =
    entered (insert_node [])
    ∷ entered other_node
    ∷ entered other_node
    ∷ entered other_node
    ∷ entered (table_name_node (codes "user"))
    ∷ left (table_name_node (codes "user"))
    ∷ left other_node
    ∷ left other_node
    ∷ left other_node
    ∷ entered (value_expr (codes "al"))
    ∷ left (value_expr (codes "al"))
    ∷ entered (value_expr (codes "pw"))
    ∷ left (value_expr (codes "pw"))
    ∷ left (insert_node [])
    ∷ []

-- And SELECT user FROM user, with the list of its fields.
abbrev select_text : List Visit
select_text =
    entered (select_node [])
    ∷ entered other_node
    ∷ entered other_node
    ∷ entered other_node
    ∷ entered (table_name_node (codes "user"))
    ∷ left (table_name_node (codes "user"))
    ∷ left other_node
    ∷ left other_node
    ∷ left other_node
    ∷ entered other_node
    ∷ entered other_node
    ∷ entered other_node
    ∷ entered (column_name_node (codes "user"))
    ∷ left (column_name_node (codes "user"))
    ∷ left other_node
    ∷ left other_node
    ∷ left other_node
    ∷ left (select_node [])
    ∷ []

handle_query-insert_example :
    handle_query plain framed_json call {E = Bool} (ok (insert_text ∷ [])) (new_config_handler none)
    ≡ (let o =
          insert plain framed_json call
            (collected insert_stmt [] (codes "user") [] (codes "al" ∷ codes "pw" ∷ []))
            (new_config_handler none).file in
        (answered (some (affected_rows o.rows)) o.error, set_outcome (new_config_handler none) o))
handle_query-insert_example =
    handle_query-insert plain framed_json call {E = Bool} [] (codes "user") []
      (codes "al" ∷ codes "pw" ∷ []) insert_text [] (new_config_handler none)
      (told _ (
        enters_other (
          enters_other (
            enters_other (
              told _ (
                told _ (
                  leaves_other (
                    leaves_other
                      (leaves_other (told _ (told _ (told _ (told _ (told _ ends))))))))))))))

handle_query-stale_error_example :
    (res : Option Reply) × ((handle_query plain framed_json call {E = Bool}
        (ok (select_text ∷ []))
        (record (new_config_handler none) { err = some no_update_data })).0
      ≡ answered res (some no_update_data))
unfolding select get_config new_config generate_key default_config random_bytes encrypt
    new_config_handler where_columns_to_config select_resultset select_rows select_row with_columns
    column_of to_lower text_eq
handle_query-stale_error_example =
    handle_query-stale_error plain framed_json call {E = Bool} [] (codes "user") (codes "user" ∷ [])
      select_text [] (record (new_config_handler none) { err = some no_update_data }) no_update_data
      (user_column ∷ []) ((codes "admin" ∷ []) ∷ [])
      (told _ (
        enters_other (
          enters_other (
            enters_other (
              told _ (
                told _ (
                  leaves_other (
                    leaves_other (
                      leaves_other (
                        enters_other (
                          enters_other (
                            enters_other (
                              told _ (
                                told _ (
                                  leaves_other
                                    (leaves_other (leaves_other (told _ ends))))))))))))))))))
      refl refl
