-- ===== src/ServerConfig/Accounts.antt =====
-- An abstract view of the console's INSERT, UPDATE and DELETE of pkg/serverconfig/serverconfig.go: a table of
-- users with plain passwords, and what it means that the configuration file holds this table.
pub mod Inserting
pub mod Updating
pub mod Deleting
pub mod Commands
pub mod Logins
use mysql8_audit_proxy.Base.{
  ◌≡◌, ◌⊎◌, Bool, true, false, not, ◌||◌, Option, none, some, List, [], ◌∷◌, ◌++◌, map, Text, codes,
  text_eq, length, All, if◌then◌else◌, Result, ok, err, ℕ,
}
use mysql8_audit_proxy.Base.Bytes.{IsByte}
use mysql8_audit_proxy.Base.Base64
use mysql8_audit_proxy.ServerConfig.Crypt.{Gcm, key_ok, decrypt, IsNonce}
use mysql8_audit_proxy.ServerConfig.Query.{
  Server, Query, op_eq, is_user, is_password, column_of, ConfigError, columns_to_config, selection,
}
use mysql8_audit_proxy.ServerConfig.Query.Where.{value_at}
use mysql8_audit_proxy.ServerConfig.Config.{Config, Json}
use mysql8_audit_proxy.ServerConfig.Config.Indexed.{IsUnique}
use mysql8_audit_proxy.ServerConfig.Manager.{
  ManagerError, Work, config, already_exists, not_found_data, no_update_data,
}
use mysql8_audit_proxy.ServerConfig.Service.{Call, Outcome}
use mysql8_audit_proxy.ServerConfig.Service

-- The table: servers with their plain passwords.
abbrev pub has_user : Text → List Server → Bool
has_user u [] = false
has_user u (s ∷ table) = text_eq s.user u || has_user u table

abbrev pub lookup : Text → List Server → Option Text
lookup u [] = none
lookup u (s ∷ table) = if text_eq s.user u then some s.password else lookup u table

abbrev pub add_rows : List Server → List Server → Result ManagerError (List Server)
add_rows [] table = ok table
add_rows (s ∷ rows) table =
    let rest = add_rows rows (table ++ (s ∷ [])) in
    if has_user s.user table then err (already_exists s.user) else rest

abbrev pub insert_into :
    Result ConfigError (List Server) → List Server → Result ManagerError (List Server)
insert_into (ok rows) table = add_rows rows table
insert_into (err e) table = err (config e)

abbrev pub delete_from : Text → List Server → Result ManagerError (List Server)
delete_from u table =
    if has_user u table
    then ok (selection (λ s. not (text_eq s.user u)) table)
    else err not_found_data

abbrev pub exchange_password : Text → Text → List Server → List Server
exchange_password u password =
    map (λ a. if text_eq a.user u then record a { password = password } else a)

abbrev pub change_password : Text → Text → List Server → Result ManagerError (List Server)
change_password u password table =
    if has_user u table then ok (exchange_password u password table) else err no_update_data

-- An INSERT, an UPDATE of the password with the one condition that the user be a given one, or a DELETE with the one condition that the user be a given one.
pub data Statement : Type 0 where
  insert_rows set_password delete_user : Query → Statement

abbrev pub apply : Statement → List Server → Result ManagerError (List Server)
apply (insert_rows p) table = insert_into (columns_to_config p) table
apply (set_password p) table =
    change_password (value_at 0 p.where_values) (value_at 0 p.values) table
apply (delete_user p) table = delete_from (value_at 0 p.where_values) table

-- The table that is left, and the error.
abbrev pub left : List Server → Result ManagerError (List Server) → List Server
left table (ok table') = table'
left table (err e) = table

abbrev pub error_of : Result ManagerError (List Server) → Option ManagerError
error_of (ok table) = none
error_of (err e) = some e

abbrev pub apply_all : List Statement → List Server → List (Option ManagerError) × List Server
apply_all [] table = ([], table)
apply_all (c ∷ cs) table =
    let (errors, table') = apply_all cs (left table (apply c table)) in
    (error_of (apply c table) ∷ errors, table')

-- The same commands on the file, each in a call of its own.
module _ (gcm : Gcm) (json : Json) where
  abbrev pub manage : Call → Statement → Option Text → Outcome
  manage call (insert_rows p) file = Service.insert gcm json call p file
  manage call (set_password p) file = Service.update gcm json call p file
  manage call (delete_user p) file = Service.delete gcm json call p file

  abbrev pub manage_all :
      List (Call × Statement) → Option Text → List (Option ManagerError) × Option Text
  manage_all [] file = ([], file)
  manage_all ((call, c) ∷ cs) file =
      let (errors, file') = manage_all cs (manage call c file).file in
      ((manage call c file).error ∷ errors, file')

-- UPDATE t SET Password = 'password' WHERE User = '...'
pub record SetsPassword (p : Query) : Type 0 where
  pub column : Text
  pub where_eq : p.where_columns ≡ column ∷ []
  pub equal : p.where_op ≡ op_eq
  pub by_user : column_of column ≡ is_user
  pub set_column : Text
  pub columns_eq : p.columns ≡ set_column ∷ []
  pub sets : column_of set_column ≡ is_password
  pub password : Text
  pub values_eq : p.values ≡ password ∷ []
  pub bytes : All IsByte password

-- The texts that encoding/json writes so that it reads them again (of Go's strings, those in UTF-8),
-- with those of base64 among them.
pub record IsReadable (json : Json) : Type 1 where
  pub IsJson : Text → Type 0
  pub base64-IsJson : (b : Text) → IsJson (Base64.encode b)
  pub codes-IsJson : IsJson (codes "admin")
  pub round :
      (conf fresh : Config)
      → All (λ s. IsJson s.user × IsJson s.password) conf.servers
      → json.decode (json.encode conf) fresh ≡ conf

-- A call in which nothing fails: the random source delivers, and the file can be written.
pub record Works (call : Call) : Type 0 where
  pub key : Text
  pub admin_nonce : Text
  pub new_key : call.draws.new_key ≡ some key
  pub key_length : length key ≡ 32
  pub new_nonce : call.draws.admin_nonce ≡ some admin_nonce
  pub nonce_fits : IsNonce (some admin_nonce)
  pub nonce : ℕ → Text
  pub nonces : (n : ℕ) → (call.nonces n ≡ some (nonce n)) × IsNonce (some (nonce n))
  pub writes : call.fault ≡ none

module _ (gcm : Gcm) (json : Json) (readable : IsReadable json) where
  open readable use {IsJson}

  -- The servers have the users of the table, and its passwords encrypted.
  abbrev pub Holds : Text → List Server → List Server → Type 0
  Holds key [] [] = Unit
  Holds key (s ∷ servers) (a ∷ table) =
      ((s.user ≡ a.user)
        × (decrypt gcm key s.password ≡ ok a.password)
        × (IsJson s.user × IsJson s.password))
      × Holds key servers table
  Holds key [] (a ∷ table) = ⊥
  Holds key (s ∷ servers) [] = ⊥

  -- An action on the servers follows what happens to the table.
  abbrev pub Follows :
      Text → Result ManagerError (List Server) → Result ManagerError (Unit {0}) × Work → Type 0
  Follows key (ok table) (ok u, w) = Holds key w.servers table × IsUnique w.servers
  Follows key (err e) (err f, w) = f ≡ e
  Follows key (ok table) (err f, w) = ⊥
  Follows key (err e) (ok u, w) = ⊥

  pub record Sound (table : List Server) (conf : Config) : Type 0 where
    pub key_fits : key_ok conf.key ≡ true
    pub holds : Holds conf.key conf.servers table
    pub unique : IsUnique conf.servers

  -- The table of a new installation, which has no file.
  abbrev pub default_table : List Server
  default_table = record { user = codes "admin"; password = codes "pass" } ∷ []

  pub record Recorded (table : List Server) (file : Option Text) : Type 0 where
    pub conf : Config
    pub file_eq : file ≡ some (json.encode conf)
    pub sound : Sound table conf

  -- There is no file yet, or it holds the table.
  abbrev pub Stored : List Server → Option Text → Type 0
  Stored table file = ((file ≡ none) × (table ≡ default_table)) ⊎ Recorded table file

  abbrev pub RowsFit : Result ConfigError (List Server) → Type 0
  RowsFit (ok rows) = All (λ s. IsJson s.user × All IsByte s.password) rows
  RowsFit (err e) = Unit

  -- The rows of an INSERT are texts of JSON, with passwords of bytes. The condition of an UPDATE and
  -- of a DELETE is on the user, and an UPDATE sets the password.
  abbrev pub Fits : Statement → Type 0
  Fits (insert_rows p) = RowsFit (columns_to_config p)
  Fits (set_password p) = SetsPassword p
  Fits (delete_user p) =
      (column : Text) × (p.where_columns ≡ column ∷ [])
      × (p.where_op ≡ op_eq)
      × (column_of column ≡ is_user)
