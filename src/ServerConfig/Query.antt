-- ===== src/ServerConfig/Query.antt =====
-- pkg/serverconfig/sqlparse.go: the query that the visitor collects, and what it selects and sets.
pub mod Rows
pub mod Where
use mysql8_audit_proxy.Base.{
  ℕ, suc, zero, Bool, true, false, List, [], ◌∷◌, ◌++◌, Text, codes, length, drop, text_eq,
  to_lower, ◌==◌, if◌then◌else◌, Result, ok, err,
}

pub record Server : Type 0 where
  pub user : Text
  pub password : Text

-- `opcode.Op` of the parser, of which the code only asks whether it is `opcode.EQ`.
pub data Op : Type 0 where
  op_eq : Op
  op_other : ℕ → Op

pub record Query : Type 0 where
  pub statement : Text
  pub table_name : Text
  pub columns : List Text
  pub values : List Text
  pub text : Text
  pub current_type : Text
  pub where_columns : List Text
  pub where_values : List Text
  pub where_op : Op

-- `NewParsedQuery`; the functions that it is given stand in ServerConfig/Handler.
abbrev pub new_parsed_query : Query
new_parsed_query = record {
  statement = [];
  table_name = [];
  columns = [];
  values = [];
  text = [];
  current_type = [];
  where_columns = [];
  where_values = [];
  where_op = op_other 0;
}

abbrev pub update_stmt : Text
update_stmt = codes "udpate"

abbrev pub insert_stmt : Text
insert_stmt = codes "insert"

abbrev pub delete_stmt : Text
delete_stmt = codes "delete"

abbrev pub select_stmt : Text
select_stmt = codes "select"

abbrev pub in_where : Text
in_where = codes "Where"

abbrev pub user_column : Text
user_column = codes "User"

abbrev pub password_column : Text
password_column = codes "Password"

-- `lUser` and `lPassword`: what a column's name stands for.
pub data Column : Type 0 where
  is_user is_password is_unknown : Column

unfoldable pub column_of : Text → Column
column_of column =
    if text_eq (to_lower column) (codes "user")
    then is_user
    else (if text_eq (to_lower column) (codes "password") then is_password else is_unknown)

pub data ConfigError : Type 0 where
  values_too_few : ConfigError
  column_not_found : Text → ConfigError
  where_not_equal : ConfigError

-- `if len(p.Columns) == 0 { p.Columns = []string{User, Password} }`
unfoldable pub with_columns : List Text → List Text
with_columns [] = user_column ∷ password_column ∷ []
with_columns (c ∷ cs) = c ∷ cs

abbrev pub set_column : Column → Text → Server → Server
set_column is_user v s = record s { user = v }
set_column is_password v s = record s { password = v }
set_column is_unknown v s = s

-- The `default` of the `switch` returns early.
abbrev pub if_known : Column → Text → Result ConfigError Server → Result ConfigError Server
if_known is_user column rest = rest
if_known is_password column rest = rest
if_known is_unknown column rest = err (column_not_found column)

-- The loop over the columns, with the values that it has not reached.
unfoldable pub set_columns : List Text → List Text → Server → Result ConfigError Server
set_columns [] values s = ok s
set_columns (column ∷ columns) [] s = err values_too_few
set_columns (column ∷ columns) (v ∷ values) s =
    if_known (column_of column) column
      (set_columns columns values (set_column (column_of column) v s))

-- `res = append(res, s)`, unless the row or a later one is an error.
abbrev pub and_rows :
    Result ConfigError Server → Result ConfigError (List Server) → Result ConfigError (List Server)
and_rows (ok s) (ok res) = ok (s ∷ res)
and_rows (ok s) (err e) = err e
and_rows (err e) rest = err e

-- The outer loop of `columnsToConfig`: `values` is `p.Values[col:]`, and each round goes on by the
-- number of columns, so that as many rounds as values are enough.
unfoldable pub rows_to_config : ℕ → List Text → List Text → Result ConfigError (List Server)
rows_to_config fuel columns [] = ok []
rows_to_config zero columns (v ∷ values) = ok []
rows_to_config (suc fuel) columns (v ∷ values) =
    and_rows (set_columns columns (v ∷ values) (record { user = []; password = [] }))
      (rows_to_config fuel columns (drop (length columns) (v ∷ values)))

unfoldable pub columns_to_config : Query → Result ConfigError (List Server)
columns_to_config p = rows_to_config (length p.values) (with_columns p.columns) p.values

-- The server of the error case is dropped by the caller.
unfoldable pub update_columns : Query → Server → Result ConfigError Server
update_columns p s = set_columns (with_columns p.columns) p.values s

-- `getString(s, i)` where `s` has been followed up to `i`.
abbrev pub get_string : List Text → Text
get_string [] = []
get_string (v ∷ values) = v

abbrev pub after_string : List Text → List Text
after_string [] = []
after_string (v ∷ values) = values

unfoldable pub selection : (Server → Bool) → List Server → List Server
selection f [] = []
selection f (s ∷ servers) = let rest = selection f servers in if f s then s ∷ rest else rest

-- One round of the loop over the `WHERE` columns; a column of another name keeps the result.
unfoldable pub where_column : Column → Text → List Server → List Server → List Server
where_column is_user v servers res = selection (λ sv. text_eq sv.user v) servers
where_column is_password v servers res = selection (λ sv. text_eq sv.password v) servers
where_column is_unknown v servers res = res

unfoldable pub where_loop : List Text → List Text → List Server → List Server → List Server
where_loop [] values servers res = res
where_loop (column ∷ columns) values servers res =
    where_loop columns (after_string values) servers
      (where_column (column_of column) (get_string values) servers res)

abbrev pub equal_only : Op → List Server → Result ConfigError (List Server)
equal_only op_eq res = ok res
equal_only (op_other n) res = err where_not_equal

abbrev pub where_rows : List Text → List Text → Op → List Server → Result ConfigError (List Server)
where_rows [] values op servers = ok servers
where_rows (c ∷ columns) values op servers =
    equal_only op (where_loop (c ∷ columns) values servers [])

unfoldable pub where_columns_to_config : Query → List Server → Result ConfigError (List Server)
where_columns_to_config p servers = where_rows p.where_columns p.where_values p.where_op servers

-- A row of a result set and its columns.
unfoldable pub select_row : List Text → Server → List Text × List Text
select_row [] s = ([], [])
select_row (column ∷ columns) s =
    let (col, row) = select_row columns s in
    elim (column_of column) [
      | is_user ↦ (user_column ∷ col, s.user ∷ row)
      | is_password ↦ (password_column ∷ col, s.password ∷ row)
      | is_unknown ↦ (col, row)
    ]

-- The columns are those of the last row, and none where there is no row.
unfoldable pub select_rows : List Text → List Text → List Server → List Text × List (List Text)
select_rows names columns [] = (columns, [])
select_rows names columns (s ∷ servers) =
    let (columns', rows) = select_rows names (select_row names s).0 servers in
    (columns', (select_row names s).1 ∷ rows)

unfoldable pub select_resultset : Query → List Server → List Text × List (List Text)
select_resultset p servers = select_rows (with_columns p.columns) [] servers
