-- ===== src/ServerConfig/Handler/Visits.antt =====
-- What the console answers to a statement.
use mysql8_audit_proxy.Base.{
  ◌≡◌, refl, ap, ◌∙◌, Option, false, some, List, [], ◌∷◌, ◌++◌, Text, text_eq, append-nil,
  append_assoc, Result, ok, err,
}
use mysql8_audit_proxy.ServerConfig.Crypt.{Gcm}
use mysql8_audit_proxy.ServerConfig.Query.{
  Op, Query, new_parsed_query, insert_stmt, delete_stmt, select_stmt, in_where,
}
use mysql8_audit_proxy.ServerConfig.Config.{Json}
use mysql8_audit_proxy.ServerConfig.Manager.{ManagerError}
use mysql8_audit_proxy.ServerConfig.Service.{Call, insert, delete, select}
use mysql8_audit_proxy.ServerConfig.Handler.{
  Reply, affected_rows, select_node, insert_node, delete_node, table_name_node, column_name_node,
  binary_operation, value_expr, other_node, Visit, entered, left, add_column, add_value, enter,
  Handler, set_outcome, set_selected, answered, select_func, insert_func, delete_func, leave_func,
  leave, accept, handle_query,
}

-- The visits of the columns, one by one, and then others.
abbrev pub column_nodes : List Text → List Visit → List Visit
column_nodes [] rest = rest
column_nodes (c ∷ cs) rest =
    entered (column_name_node c) ∷ left (column_name_node c) ∷ column_nodes cs rest

abbrev pub value_nodes : List Text → List Visit → List Visit
value_nodes [] rest = rest
value_nodes (v ∷ vs) rest = entered (value_expr v) ∷ left (value_expr v) ∷ value_nodes vs rest

-- Visits, and the same with those of the nodes that the visitor passes over (`other_node`: the clauses,
-- joins, fields and lists that stand around what it reads) in between.
pub data Among : List Visit → List Visit → Type 0 where
  ends : Among [] []
  told : (v : Visit) {vs ws : List Visit} → Among vs ws → Among (v ∷ vs) (v ∷ ws)
  enters_other : {vs ws : List Visit} → Among vs ws → Among vs (entered other_node ∷ ws)
  leaves_other : {vs ws : List Visit} → Among vs ws → Among vs (left other_node ∷ ws)

-- What the visitor is told of INSERT INTO table (columns) VALUES (values), ...
abbrev pub insert_visits : Text → Text → List Text → List Text → List Visit
insert_visits text table columns values =
    entered (insert_node text)
    ∷ entered (table_name_node table)
    ∷ left (table_name_node table)
    ∷ column_nodes columns (value_nodes values (left (insert_node text) ∷ []))

-- And of DELETE FROM table WHERE column op value
abbrev pub delete_visits : Text → Text → Op → Text → Text → List Visit
delete_visits text table op column value =
    entered (delete_node text)
    ∷ entered (table_name_node table)
    ∷ left (table_name_node table)
    ∷ entered (binary_operation op)
    ∷ entered (column_name_node column)
    ∷ left (column_name_node column)
    ∷ entered (value_expr value)
    ∷ left (value_expr value)
    ∷ left (binary_operation op)
    ∷ left (delete_node text)
    ∷ []

-- And of SELECT columns FROM table
abbrev pub select_visits : Text → Text → List Text → List Visit
select_visits text table columns =
    entered (select_node text)
    ∷ entered (table_name_node table)
    ∷ left (table_name_node table)
    ∷ column_nodes columns (left (select_node text) ∷ [])

abbrev pub collected : Text → Text → Text → List Text → List Text → Query
collected statement text table columns values = record new_parsed_query {
  statement = statement;
  text = text;
  table_name = table;
  columns = columns;
  values = values;
}

add_column-outside :
    (c : Text) (p : Query)
    → text_eq p.current_type in_where ≡ false
    → add_column c p ≡ record p { columns = p.columns ++ (c ∷ []) }
unfolding add_column
add_column-outside c p e = rw e

add_value-outside :
    (v : Text) (p : Query)
    → text_eq p.current_type in_where ≡ false
    → add_value v p ≡ record p { values = p.values ++ (v ∷ []) }
unfolding add_value
add_value-outside v p e = rw e

module _ (gcm : Gcm) (json : Json) (call : Call) where
  accept-Among :
      {vs ws : List Visit} (among : Among vs ws) (p : Query) (h : Handler)
      → accept gcm json call ws p h ≡ accept gcm json call vs p h
  unfolding accept enter leave
  accept-Among ends p h = refl
  accept-Among (told (entered n) a) p h = accept-Among a (enter n p) h
  accept-Among (told (left n) a) p h = let x = leave gcm json call n p h in accept-Among a x.0 x.1
  accept-Among (enters_other a) p h = accept-Among a p h
  accept-Among (leaves_other a) p h = accept-Among a p h

  accept-column_nodes :
      (cs : List Text) (rest : List Visit) (p : Query) (h : Handler)
      → text_eq p.current_type in_where ≡ false
      → accept gcm json call (column_nodes cs rest) p h
        ≡ accept gcm json call rest (record p { columns = p.columns ++ cs }) h
  unfolding accept enter leave
  accept-column_nodes [] rest p h e = simp append-nil
  accept-column_nodes (c ∷ cs) rest p h e =
      ap (λ q. accept gcm json call (column_nodes cs rest) q h) (add_column-outside c p e)
      ∙ accept-column_nodes cs rest (record p { columns = p.columns ++ (c ∷ []) }) h e
      ∙ ap (λ all. accept gcm json call rest (record p { columns = all }) h)
          (append_assoc p.columns (c ∷ []) cs)

  accept-value_nodes :
      (vs : List Text) (rest : List Visit) (p : Query) (h : Handler)
      → text_eq p.current_type in_where ≡ false
      → accept gcm json call (value_nodes vs rest) p h
        ≡ accept gcm json call rest (record p { values = p.values ++ vs }) h
  unfolding accept enter leave
  accept-value_nodes [] rest p h e = simp append-nil
  accept-value_nodes (v ∷ vs) rest p h e =
      ap (λ q. accept gcm json call (value_nodes vs rest) q h) (add_value-outside v p e)
      ∙ accept-value_nodes vs rest (record p { values = p.values ++ (v ∷ []) }) h e
      ∙ ap (λ all. accept gcm json call rest (record p { values = all }) h)
          (append_assoc p.values (v ∷ []) vs)

  accept-insert_visits :
      (text table : Text) (columns values : List Text) (visits : List Visit) (h : Handler)
      → Among (insert_visits text table columns values) visits
      → accept gcm json call visits new_parsed_query h ≡ (
        collected insert_stmt text table columns values,
        insert_func gcm json call (collected insert_stmt text table columns values) h,
      )
  unfolding accept enter leave leave_func text_eq
  accept-insert_visits text table columns values visits h among =
      accept-Among among new_parsed_query h
      ∙ accept-column_nodes columns (value_nodes values (left (insert_node text) ∷ []))
          (collected insert_stmt text table [] []) h refl
      ∙ accept-value_nodes values (left (insert_node text) ∷ [])
          (collected insert_stmt text table columns []) h refl

  accept-select_visits :
      (text table : Text) (columns : List Text) (visits : List Visit) (h : Handler)
      → Among (select_visits text table columns) visits
      → accept gcm json call visits new_parsed_query h ≡ (
        collected select_stmt text table columns [],
        select_func gcm json call (collected select_stmt text table columns []) h,
      )
  unfolding accept enter leave leave_func text_eq
  accept-select_visits text table columns visits h among =
      accept-Among among new_parsed_query h
      ∙ accept-column_nodes columns (left (select_node text) ∷ [])
          (collected select_stmt text table [] []) h refl

  -- An INSERT is answered with the rows and the error of the manager's `Insert` on the statement's
  -- columns and values, whatever the connection was answered before, and the file is what `Insert`
  -- leaves. The visitor is told of the table, then of the columns and the values, and in between of
  -- any nodes that it passes over.
  pub handle_query-insert :
      {E : Type 0} (text table : Text) (columns values : List Text) (visits : List Visit)
      (rest : List (List Visit)) (h : Handler)
      → Among (insert_visits text table columns values) visits
      → handle_query gcm json call {E = E} (ok (visits ∷ rest)) h ≡ (
          let o = insert gcm json call (collected insert_stmt text table columns values) h.file in
          (answered (some (affected_rows o.rows)) o.error, set_outcome h o))
  unfolding handle_query insert_func
  handle_query-insert {E} text table columns values visits rest h among =
      ap (λ r. (answered r.1.res r.1.err, r.1))
        (accept-insert_visits text table columns values visits h among)

  -- A DELETE with one condition is answered with the rows and the error of the manager's `Delete` on
  -- that condition, and the file is what `Delete` leaves.
  pub handle_query-delete :
      {E : Type 0} (text table column value : Text) (op : Op) (visits : List Visit)
      (rest : List (List Visit)) (h : Handler)
      → Among (delete_visits text table op column value) visits
      → handle_query gcm json call {E = E} (ok (visits ∷ rest)) h ≡ (
          let o =
            delete gcm json call
              (record (collected delete_stmt text table [] []) {
                where_columns = column ∷ [];
                where_values = value ∷ [];
                where_op = op;
              })
              h.file in
          (answered (some (affected_rows o.rows)) o.error, set_outcome h o))
  unfolding handle_query accept enter add_column add_value leave leave_func delete_func text_eq
  handle_query-delete {E} text table column value op visits rest h among =
      ap (λ r. (answered r.1.res r.1.err, r.1)) (accept-Among among new_parsed_query h)

  set_selected-err :
      (h : Handler) (e : ManagerError) (r : Result ManagerError (List Text × List (List Text)))
      → h.err ≡ some e
      → (col : List Text) × (rows : List (List Text)) × (r ≡ ok (col, rows))
      → (set_selected h r).err ≡ some e
  unfolding set_selected
  set_selected-err h e (err x) he ok_at = cc
  set_selected-err h e (ok ([], rows)) he ok_at = he
  set_selected-err h e (ok (c ∷ col, rows)) he ok_at = he

  -- After a failed statement a SELECT without a condition that succeeds is answered with the error
  -- of the failed statement: the error stays with the connection. The visitor is told of the table
  -- and of the columns, and in between of any nodes that it passes over.
  pub handle_query-stale_error :
      {E : Type 0} (text table : Text) (columns : List Text) (visits : List Visit)
      (rest : List (List Visit)) (h : Handler) (e : ManagerError) (col : List Text)
      (rows : List (List Text))
      → Among (select_visits text table columns) visits
      → h.err ≡ some e
      → select gcm json call (collected select_stmt text table columns []) h.file ≡ ok (col, rows)
      → (res : Option Reply) × ((handle_query gcm json call {E = E} (ok (visits ∷ rest)) h).0
          ≡ answered res (some e))
  unfolding handle_query select_func
  handle_query-stale_error {E} text table columns visits rest h e col rows among he ok_at =
      let q = collected select_stmt text table columns [] in
      let r = select gcm json call q h.file in
      (
        (set_selected h r).res,
        ap (λ r. answered r.1.res r.1.err) (accept-select_visits text table columns visits h among)
            ∙ ap (answered (set_selected h r).res) (set_selected-err h e r he (col, rows, ok_at)),
      )
