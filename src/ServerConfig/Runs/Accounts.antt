-- ===== src/ServerConfig/Runs/Accounts.antt =====
-- The theorems on sequences of the console's statements at concrete inputs.
use mysql8_audit_proxy.Base.{
  ◌≡◌, refl, Bool, Option, none, some, inl, List, [], ◌∷◌, ◌++◌, map, Text, codes, replicate,
  text_eq, to_lower, All, arith, ok,
}
use mysql8_audit_proxy.ServerConfig.Query.{
  Server, Query, op_eq, new_parsed_query, user_column, password_column, columns_to_config,
  rows_to_config, set_columns, with_columns, column_of, selection,
}
use mysql8_audit_proxy.ServerConfig.Service.{Call, is_match, get_password}
use mysql8_audit_proxy.ServerConfig.Crypt.{encrypt, random_bytes}
use mysql8_audit_proxy.ServerConfig.Config.{make_index, index_from, index_of, put_config}
use mysql8_audit_proxy.ServerConfig.Manager
use mysql8_audit_proxy.ServerConfig.Manager.{encrypt_next, insert_server, insert_servers}
use mysql8_audit_proxy.ServerConfig.Manager.Insert.{Sealed}
use mysql8_audit_proxy.ServerConfig.Service.{start, finish}
use mysql8_audit_proxy.ServerConfig.Service.Overlapping.{
  Shared, insert_read, insert_read-Overwrites,
}
use mysql8_audit_proxy.ServerConfig.Accounts.{
  Statement, insert_rows, set_password, delete_user, SetsPassword, lookup, apply_all, manage_all,
  IsReadable, Works, default_table, Stored, Fits,
}
use mysql8_audit_proxy.ServerConfig.Accounts.Commands.{manage_all-Stored}
use mysql8_audit_proxy.ServerConfig.Accounts.Logins.{AreLiteral, get_password-manage_all, found}
use mysql8_audit_proxy.ServerConfig.Runs.{
  plain, framed_json, framed_json-round, nonce, nonce-IsNonce, nonces, draws, column_of-user,
  column_of-password, conf, key, insert_eve,
}

abbrev pub readable : IsReadable framed_json
readable = record {
  IsJson = λ t. Unit;
  base64-IsJson = λ b. tt;
  codes-IsJson = tt;
  round = λ conf fresh all. framed_json-round conf fresh;
}

abbrev pub call : Call
call = record { draws = draws; nonces = nonces; fault = none }

pub call-Works : Works call
call-Works = record {
  key = replicate 32 5;
  admin_nonce = nonce;
  new_key = refl;
  key_length = refl;
  new_nonce = refl;
  nonce_fits = nonce-IsNonce;
  nonce = λ n. nonce;
  nonces = λ n. (refl, nonce-IsNonce);
  writes = refl;
}

-- INSERT INTO t VALUES ('root@db', 'pw')
abbrev pub insert_root : Query
insert_root = record new_parsed_query { values = codes "root@db" ∷ codes "pw" ∷ [] }

-- DELETE FROM t WHERE User = 'admin'
abbrev pub delete_admin : Query
delete_admin = record new_parsed_query {
  where_columns = user_column ∷ [];
  where_values = codes "admin" ∷ [];
  where_op = op_eq;
}

-- UPDATE t SET Password = 'new' WHERE User = 'root@db'
abbrev update_root : Query
update_root = record new_parsed_query {
  columns = password_column ∷ [];
  values = codes "new" ∷ [];
  where_columns = user_column ∷ [];
  where_values = codes "root@db" ∷ [];
  where_op = op_eq;
}

update_root-SetsPassword : SetsPassword update_root
update_root-SetsPassword = record {
  column = user_column;
  where_eq = refl;
  equal = refl;
  by_user = column_of-user;
  set_column = password_column;
  columns_eq = refl;
  sets = column_of-password;
  password = codes "new";
  values_eq = refl;
  bytes = (omega arith, (omega arith, (omega arith, tt)));
}

-- The second INSERT of the same user is an error.
abbrev pub statements : List (Call × Statement)
statements =
    (call, insert_rows insert_root)
    ∷ (call, insert_rows insert_root)
    ∷ (call, delete_user delete_admin)
    ∷ (call, set_password update_root)
    ∷ []

pub statements-Fits : All (λ c. Works c.0 × Fits plain framed_json readable c.1) statements
unfolding columns_to_config rows_to_config set_columns with_columns column_of to_lower text_eq
statements-Fits = (
  (call-Works, ((tt, (omega arith, (omega arith, tt))), tt)),
  (
    (call-Works, ((tt, (omega arith, (omega arith, tt))), tt)),
    (
      (call-Works, (user_column, refl, refl, column_of-user)),
      ((call-Works, update_root-SetsPassword), tt),
    ),
  ),
)

abbrev pub table : List Server
table = default_table plain framed_json readable

pub without_file : Stored plain framed_json readable table none
without_file = inl (refl, refl)

manage_all-Stored_example :
    ((manage_all plain framed_json statements none).0
      ≡ (apply_all (map (λ c. c.1) statements) table).0)
    × Stored plain framed_json readable
        (apply_all (map (λ c. c.1) statements) table).1
        (manage_all plain framed_json statements none).1
manage_all-Stored_example =
    manage_all-Stored plain framed_json readable statements table none statements-Fits without_file

-- What a pattern without special characters matches.
abbrev pub compile : Text → Option (Text → Bool)
compile pattern = some (λ t. text_eq (codes "^" ++ (t ++ codes "$")) pattern)

pub statements-AreLiteral :
    AreLiteral compile (codes "root@db") (apply_all (map (λ c. c.1) statements) table).1
unfolding columns_to_config rows_to_config set_columns with_columns column_of to_lower text_eq
    is_match selection
statements-AreLiteral = (refl, tt)

pub statements-lookup :
    lookup (codes "root@db") (apply_all (map (λ c. c.1) statements) table).1 ≡ some (codes "new")
unfolding columns_to_config rows_to_config set_columns with_columns column_of to_lower text_eq
    selection
statements-lookup = refl

get_password-manage_all_example :
    get_password compile plain framed_json draws
      (manage_all plain framed_json statements none).1
      (codes "root@db")
    ≡ found (lookup (codes "root@db") (apply_all (map (λ c. c.1) statements) table).1)
get_password-manage_all_example =
    get_password-manage_all compile plain framed_json readable statements call table none
      (codes "root@db") statements-Fits call-Works without_file statements-AreLiteral

-- Two sessions have read one file.
abbrev both_read : Shared
both_read = record { file = some (framed_json.encode conf); index = make_index conf }

-- One of them has ended its INSERT.
eve_written : Shared
eve_written = (insert_read plain framed_json call insert_eve conf both_read).1

root_succeeds : (insert_read plain framed_json call insert_root conf eve_written).0.error ≡ none
unfolding eve_written insert_read start finish put_config Manager.insert insert_servers
    insert_server encrypt_next encrypt random_bytes columns_to_config rows_to_config set_columns
    with_columns column_of to_lower text_eq make_index index_from index_of
root_succeeds = refl

insert_read-Overwrites_example :
    (servers : List Server) × (columns_to_config insert_root ≡ ok servers)
    × ((rows : List Server) × Sealed plain nonces key servers rows
        × ((insert_read plain framed_json call insert_root conf eve_written).1.file
            ≡ some (framed_json.encode (record conf { servers = conf.servers ++ rows }))))
insert_read-Overwrites_example =
    insert_read-Overwrites plain framed_json call insert_root conf eve_written root_succeeds
