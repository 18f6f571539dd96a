-- ===== src/ServerConfig/Service.antt =====
-- The exported methods of `Manager`, of pkg/serverconfig/serverconfig.go: each reads the file,
-- works on the configuration, and writes the file unless there was an error.
pub mod Storage
pub mod Overlapping
use mysql8_audit_proxy.Base.{
  ℕ, Bool, Option, none, some, List, [], ◌∷◌, ◌++◌, Text, codes, text_eq, if◌then◌else◌, Result, ok,
  err,
}
use mysql8_audit_proxy.Base.Action.{Action}
use mysql8_audit_proxy.ServerConfig.Crypt.{Gcm, CryptError, decrypt}
use mysql8_audit_proxy.ServerConfig.Query.{
  Server, Query, ConfigError, where_columns_to_config, select_resultset,
}
use mysql8_audit_proxy.ServerConfig.Config.{
  Config, make_index, Draws, Json, get_config, WriteFault, put_config,
}
use mysql8_audit_proxy.ServerConfig.Manager
use mysql8_audit_proxy.ServerConfig.Manager.{
  ManagerError, fatal, crypt, config, password_not_found, write_failed, Work,
}

-- What one call gets from outside: random bytes, and whether the file can be written.
pub record Call : Type 0 where
  pub draws : Draws
  pub nonces : ℕ → Option Text
  pub fault : Option WriteFault

-- What a call comes to: the rows affected, the error, and the file afterwards.
pub record Outcome : Type 0 where
  pub rows : ℕ
  pub error : Option ManagerError
  pub file : Option Text

unfoldable pub start : Config → Work
start conf = record { servers = conf.servers; index = make_index conf; count = 0; drawn = 0 }

abbrev pub write_error : Option WriteFault → Option ManagerError
write_error none = none
write_error (some fault) = some (write_failed fault)

-- `return n, err`, or `return n, m.PutConfig(conf)`.
unfoldable pub finish :
    Json
    → Option WriteFault
    → Option Text
    → Config
    → Result ManagerError (Unit {0}) × Work
    → Outcome
finish json fault file conf (err e, w) = record { rows = w.count; error = some e; file = file }
finish json fault file conf (ok u, w) =
    let (file', fault') = put_config json fault (record conf { servers = w.servers }) file in
    record { rows = w.count; error = write_error fault'; file = file' }

unfoldable pub change :
    Json
    → Call
    → Option Text
    → (Config → Action ManagerError Work (Unit {0}))
    → Result CryptError Config
    → Outcome
change json call file operation (err e) = record { rows = 0; error = some (fatal e); file = file }
change json call file operation (ok conf) =
    finish json call.fault file conf (operation conf (start conf))

module _ (gcm : Gcm) (json : Json) where
  unfoldable pub insert : Call → Query → Option Text → Outcome
  insert call p file =
      change json call file (λ conf. Manager.insert gcm call.nonces conf.key p)
        (get_config gcm json call.draws file)

  unfoldable pub update : Call → Query → Option Text → Outcome
  update call p file =
      change json call file (λ conf. Manager.update gcm call.nonces conf.key p)
        (get_config gcm json call.draws file)

  unfoldable pub delete : Call → Query → Option Text → Outcome
  delete call p file =
      change json call file (λ conf. Manager.delete p) (get_config gcm json call.draws file)

  selected :
      Query → Result ConfigError (List Server) → Result ManagerError (List Text × List (List Text))
  selected p (ok rows) = ok (select_resultset p rows)
  selected p (err e) = err (config e)

  unfoldable pub select :
      Call → Query → Option Text → Result ManagerError (List Text × List (List Text))
  unfolding selected
  select call p file = elim (get_config gcm json call.draws file) [
    | ok conf ↦ selected p (where_columns_to_config p conf.servers)
    | err e ↦ err (fatal e)
  ]

-- Go's package regexp: `compile pattern` is none if the pattern is no regular expression.
module _ (compile : Text → Option (Text → Bool)) where
  unfoldable pub is_match : Text → Server → Bool
  is_match username s = elim (compile (codes "^" ++ (s.user ++ codes "$"))) [
    | none ↦ text_eq s.user username
    | some matches ↦ matches username
  ]

  unfoldable pub get_server : List Server → Text → Option Server
  get_server [] username = none
  get_server (s ∷ servers) username =
      let rest = get_server servers username in if is_match username s then some s else rest

  abbrev pub password_of : Gcm → Text → Option Server → Result ManagerError Text
  password_of gcm key none = err password_not_found
  password_of gcm key (some s) = elim (decrypt gcm key s.password) [
    | ok p ↦ ok p
    | err e ↦ err (crypt e)
  ]

  -- A password that is not as long as a nonce makes `decrypt` panic, which ends the goroutine that asks:
  -- that is the error `crypt slice_panic` here.
  unfoldable pub get_password : Gcm → Json → Draws → Option Text → Text → Result ManagerError Text
  get_password gcm json draws file username = elim (get_config gcm json draws file) [
    | ok conf ↦ password_of gcm conf.key (get_server conf.servers username)
    | err e ↦ err (fatal e)
  ]
