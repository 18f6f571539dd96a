-- ===== src/ServerConfig/Manager.antt =====
-- The methods of `Manager`, of pkg/serverconfig/serverconfig.go.
pub mod Insert
pub mod Delete
pub mod Exchange
pub mod Update
pub mod Passwords
use mysql8_audit_proxy.Base.{
  ℕ, zero, suc, ◌+◌, ◌-◌, Bool, true, false, ◌||◌, Option, none, some, List, [], ◌∷◌, ◌++◌, Text,
  codes, length, set, text_eq, ◌==◌, if◌then◌else◌, Result, ok, err,
}
use mysql8_audit_proxy.Base.Action.{Action, ◌>>=◌, ◌>>◌, pure, modify}
use mysql8_audit_proxy.ServerConfig.Crypt.{Gcm, CryptError, encrypt, decrypt}
use mysql8_audit_proxy.ServerConfig.Query.{
  Server, Query, ConfigError, columns_to_config, update_columns, where_columns_to_config,
  select_resultset,
}
use mysql8_audit_proxy.ServerConfig.Config.{
  Config, Index, index_of, make_index, Draws, Json, get_config, WriteFault, put_config,
}

pub data ManagerError : Type 0 where
  fatal : CryptError → ManagerError
  crypt : CryptError → ManagerError
  config : ConfigError → ManagerError
  already_exists : Text → ManagerError
  user_not_found : Text → ManagerError
  no_update_data not_found_data password_not_found : ManagerError
  write_failed : WriteFault → ManagerError

-- What an operation changes: the servers in memory, the index, the rows counted, and how many
-- nonces were drawn.
pub record Work : Type 0 where
  pub servers : List Server
  pub index : Index
  pub count : ℕ
  pub drawn : ℕ

-- An error under another name.
abbrev pub lift : {E F S A : Type 0} → (E → F) → Result E A → Action F S A
lift f (ok a) s = (ok a, s)
lift f (err e) s = (err (f e), s)

-- The tests that return early with an error.
abbrev pub reject_known : Text → Option ℕ → Action ManagerError Work (Unit {0})
reject_known user none w = (ok tt, w)
reject_known user (some i) w = (err (already_exists user), w)

abbrev pub require : Text → Option ℕ → Action ManagerError Work ℕ
require user (some i) w = (ok i, w)
require user none w = (err (user_not_found user), w)

abbrev pub reject_empty : ManagerError → List Server → Action ManagerError Work (Unit {0})
reject_empty e [] w = (err e, w)
reject_empty e (s ∷ rows) w = (ok tt, w)

-- `conf.Servers = append(conf.Servers, server)`, its index entry, and `n++`.
abbrev pub append_server : Server → Work → Work
append_server s w = record w {
  servers = w.servers ++ (s ∷ []);
  index = (s.user, length (w.servers ++ (s ∷ [])) - 1) ∷ w.index;
  count = w.count + 1;
}

-- `conf.Servers[i] = s` and `n++`.
abbrev pub write_server : ℕ → Server → Work → Work
write_server i s w = record w { servers = set w.servers i s; count = w.count + 1 }

-- `nonces` are what the random source delivers, one by one.
module _ (gcm : Gcm) (nonces : ℕ → Option Text) (key : Text) where
  unfoldable pub encrypt_next : Text → Action ManagerError Work Text
  encrypt_next plaintext w =
      lift crypt (encrypt gcm key plaintext (nonces w.drawn)) (record w { drawn = w.drawn + 1 })

  unfoldable pub insert_server : Server → Action ManagerError Work (Unit {0})
  insert_server s = do
    (λ w. reject_known s.user (index_of s.user w.index) w)
    password ← encrypt_next s.password
    modify (append_server (record s { password = password }))

  unfoldable pub insert_servers : List Server → Action ManagerError Work (Unit {0})
  insert_servers [] = pure tt
  insert_servers (s ∷ servers) = do insert_server s; insert_servers servers

  unfoldable pub insert : Query → Action ManagerError Work (Unit {0})
  insert p = do servers ← lift config (columns_to_config p); insert_servers servers

  unfoldable pub update_row : Query → Server → Action ManagerError Work (Unit {0})
  update_row p u = do
    i ← (λ w. require u.user (index_of u.user w.index) w)
    s ← lift config (update_columns p u)
    password ← encrypt_next s.password
    modify (write_server i (record s { password = password }))

  unfoldable pub update_rows : Query → List Server → Action ManagerError Work (Unit {0})
  update_rows p [] = pure tt
  update_rows p (u ∷ rows) = do update_row p u; update_rows p rows

  -- The rows are those before the first write. Without a WHERE they are the servers themselves, and a row
  -- is read where the loop comes to it: the same, unless two servers have one user.
  unfoldable pub update : Query → Action ManagerError Work (Unit {0})
  update p w =
      (do
        rows ← lift config (where_columns_to_config p w.servers)
        reject_empty no_update_data rows
        update_rows p rows)
        w

unfoldable pub is_listed : Server → List Server → Bool
is_listed s [] = false
is_listed s (u ∷ rows) = text_eq s.user u.user || is_listed s rows

-- The servers that are kept, and how many are not.
unfoldable pub delete_rows : List Server → List Server → List Server × ℕ
delete_rows rows [] = ([], 0)
delete_rows rows (s ∷ servers) =
    let (res, n) = delete_rows rows servers in
    if is_listed s rows then (res, n + 1) else (s ∷ res, n)

unfoldable pub delete : Query → Action ManagerError Work (Unit {0})
delete p w =
    (do
      rows ← lift config (where_columns_to_config p w.servers)
      reject_empty not_found_data rows
      modify (λ w. record w {
        servers = (delete_rows rows w.servers).0;
        count = (delete_rows rows w.servers).1;
      }))
      w
