-- ===== src/ServerConfig/Handler.antt =====
-- The admin console: pkg/serverconfig/confighandler.go, and the visitor of pkg/serverconfig/sqlparse.go
-- that it sends through the syntax tree of a statement.
pub mod Visits
use mysql8_audit_proxy.Base.{
  ℕ, Option, none, some, List, [], ◌∷◌, ◌++◌, Text, text_eq, if◌then◌else◌, Result, ok, err,
}
use mysql8_audit_proxy.ServerConfig.Crypt.{Gcm}
use mysql8_audit_proxy.ServerConfig.Query.{
  Op, Query, new_parsed_query, update_stmt, insert_stmt, delete_stmt, select_stmt, in_where,
}
use mysql8_audit_proxy.ServerConfig.Config.{Json}
use mysql8_audit_proxy.ServerConfig.Manager.{ManagerError}
use mysql8_audit_proxy.ServerConfig.Service.{Call, Outcome, insert, update, delete, select}

-- The types of a syntax node that the visitor tells apart, with what it reads of them.
pub data Node : Type 0 where
  select_node insert_node update_node delete_node : (text : Text) → Node
  table_name_node column_name_node : (name : Text) → Node
  binary_operation : Op → Node
  value_expr : Text → Node
  other_node : Node

-- One call of the visitor by the parser's `Accept`.
pub data Visit : Type 0 where
  entered left : Node → Visit

unfoldable pub add_column : Text → Query → Query
add_column name p =
    if text_eq p.current_type in_where
    then record p { where_columns = p.where_columns ++ (name ∷ []) }
    else record p { columns = p.columns ++ (name ∷ []) }

unfoldable pub add_value : Text → Query → Query
add_value v p =
    if text_eq p.current_type in_where
    then record p { where_values = p.where_values ++ (v ∷ []) }
    else record p { values = p.values ++ (v ∷ []) }

unfoldable pub enter : Node → Query → Query
unfolding add_column add_value
enter (select_node text) p = record p { statement = select_stmt; text = text }
enter (insert_node text) p = record p { statement = insert_stmt; text = text }
enter (update_node text) p = record p { statement = update_stmt; text = text }
enter (delete_node text) p = record p { statement = delete_stmt; text = text }
enter (table_name_node name) p = record p { table_name = name }
enter (binary_operation op) p = record p { current_type = in_where; where_op = op }
enter (column_name_node name) p = add_column name p
enter (value_expr v) p = add_value v p
enter other_node p = p

-- `mysql.Result`: a number of rows, or what `BuildSimpleResultset` is given.
pub data Reply : Type 0 where
  affected_rows : ℕ → Reply
  resultset : List Text → List (List Text) → Reply

-- `configHandler`, and the configuration file that its manager works on.
pub record Handler : Type 0 where
  pub db : Text
  pub res : Option Reply
  pub err : Option ManagerError
  pub file : Option Text

unfoldable pub new_config_handler : Option Text → Handler
new_config_handler file = record { db = []; res = none; err = none; file = file }

unfoldable pub use_db : Text → Handler → Handler
use_db db h = record h { db = db }

abbrev pub set_outcome : Handler → Outcome → Handler
set_outcome h o = record h { res = some (affected_rows o.rows); err = o.error; file = o.file }

unfoldable pub set_selected : Handler → Result ManagerError (List Text × List (List Text)) → Handler
set_selected h (err e) = record h { res = some (affected_rows 0); err = some e }
set_selected h (ok ([], rows)) = record h { res = some (affected_rows 0) }
set_selected h (ok (c ∷ col, rows)) = record h { res = some (resultset (c ∷ col) rows) }

-- What `Parse` returns: an error, or the first statement; `no_statement` is a panic.
pub data Parsed (E : Type 0) : Type 0 where
  not_parsed : E → Parsed E
  no_statement : Parsed E
  statement : List Visit → Parsed E

abbrev pub parse : {E : Type 0} → Result E (List (List Visit)) → Parsed E
parse (err e) = not_parsed e
parse (ok []) = no_statement
parse (ok (visits ∷ rest)) = statement visits

-- How `handleQuery` ends; `panicked` is an index out of range.
pub data Answer (E : Type 0) : Type 0 where
  parse_error : E → Answer E
  panicked : Answer E
  answered : Option Reply → Option ManagerError → Answer E

-- `call` is what the manager gets from outside during the query.
module _ (gcm : Gcm) (json : Json) (call : Call) where
  unfoldable pub select_func : Query → Handler → Handler
  unfolding set_selected
  select_func p h = set_selected h (select gcm json call p h.file)

  unfoldable pub insert_func : Query → Handler → Handler
  insert_func p h = set_outcome h (insert gcm json call p h.file)

  unfoldable pub update_func : Query → Handler → Handler
  update_func p h = set_outcome h (update gcm json call p h.file)

  unfoldable pub delete_func : Query → Handler → Handler
  delete_func p h = set_outcome h (delete gcm json call p h.file)

  -- `p.funcs[p.Statement]`, with the map of `handleQuery`. The default columns that a function sets in
  -- the query are not kept: the parser visits nothing of a statement behind its end, unless it is
  -- part of another one.
  unfoldable pub leave_func : Query → Handler → Handler
  unfolding select_func insert_func update_func delete_func
  leave_func p h =
      if text_eq p.statement select_stmt
      then select_func p h
      else (if text_eq p.statement insert_stmt
          then insert_func p h
          else (if text_eq p.statement update_stmt
              then update_func p h
              else (if text_eq p.statement delete_stmt then delete_func p h else h)))

  unfoldable pub leave : Node → Query → Handler → Query × Handler
  unfolding leave_func
  leave (select_node text) p h = (p, leave_func p h)
  leave (insert_node text) p h = (p, leave_func p h)
  leave (update_node text) p h = (p, leave_func p h)
  leave (delete_node text) p h = (p, leave_func p h)
  leave (binary_operation op) p h = (record p { current_type = [] }, h)
  leave _ p h = (p, h)

  unfoldable pub accept : List Visit → Query → Handler → Query × Handler
  unfolding enter leave
  accept [] p h = (p, h)
  accept (entered n ∷ visits) p h = accept visits (enter n p) h
  accept (left n ∷ visits) p h = let (p', h') = leave n p h in accept visits p' h'

  -- `parsed` is what the parser makes of the text: the visits of each statement, or an error.
  abbrev pub answer : {E : Type 0} → Parsed E → Handler → Answer E × Handler
  unfolding accept
  answer (not_parsed e) h = (parse_error e, h)
  answer no_statement h = (panicked, h)
  answer (statement visits) h =
      let h' = (accept visits new_parsed_query h).1 in (answered h'.res h'.err, h')

  unfoldable pub handle_query :
      {E : Type 0} → Result E (List (List Visit)) → Handler → Answer E × Handler
  unfolding answer
  handle_query parsed h = answer (parse parsed) h
