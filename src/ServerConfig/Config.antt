-- ===== src/ServerConfig/Config.antt =====
-- The configuration file and the index by user, of pkg/serverconfig/serverconfig.go.
pub mod Indexed
use mysql8_audit_proxy.Base.{
  ℕ, zero, suc, ◌+◌, Bool, Option, none, some, List, [], ◌∷◌, ◌++◌, Text, codes, length, text_eq,
  ◌==◌, if◌then◌else◌, Result, ok, err,
}
use mysql8_audit_proxy.ServerConfig.Crypt.{Gcm, CryptError, generate_key, encrypt}
use mysql8_audit_proxy.ServerConfig.Query.{Server, ConfigError}

pub record Config : Type 0 where
  pub servers : List Server
  pub key : Text

-- `serverIndex`: a Go map. The newest entry of a user stands in front and hides the others.
abbrev pub Index : Type 0
Index = List (Text × ℕ)

unfoldable pub index_of : Text → Index → Option ℕ
index_of user [] = none
index_of user ((u, i) ∷ index) = if text_eq u user then some i else index_of user index

-- The loop of `makeIndex` from place `i` on.
unfoldable pub index_from : ℕ → List Server → Index → Index
index_from i [] index = index
index_from i (s ∷ servers) index = index_from (i + 1) servers ((s.user, i) ∷ index)

unfoldable pub make_index : Config → Index
make_index conf = index_from 0 conf.servers []

-- What the random source delivers during one call of `GetConfig`; `none` is an error of the source.
pub record Draws : Type 0 where
  pub new_key : Option Text
  pub admin_nonce : Option Text
  pub missing_key : Option Text

-- Go's encoding/json. `decode text conf` is `conf` after the decoder has stored into it what it
-- read, up to an error if there is one, which is only logged.
pub record Json : Type 0 where
  pub encode : Config → Text
  pub decode : Text → Config → Config

infixl 5 ◌>>=◌
abbrev pub ◌>>=◌ : {E A B : Type 0} → Result E A → (A → Result E B) → Result E B
ok a >>= f = f a
err e >>= f = err e

module _ (gcm : Gcm) where
  -- `defaultConfig(key)`; an error ends the program.
  unfoldable pub default_config : Text → Option Text → Result CryptError Config
  default_config key nonce = do
    password ← encrypt gcm key (codes "pass") nonce
    ok (record { servers = record { user = codes "admin"; password = password } ∷ []; key = key })

  -- An error ends the program.
  unfoldable pub new_config : Draws → Result CryptError Config
  unfolding default_config
  new_config draws = do key ← generate_key draws.new_key; default_config key draws.admin_nonce

  unfoldable pub with_key : Option Text → Config → Result CryptError Config
  with_key random conf =
      if length conf.key == 0
      then (generate_key random >>= λ key. ok (record conf { key = key }))
      else ok conf

  -- `GetConfig`, where `file` is the text of the configuration file, if it can be opened.
  -- The index that it leaves is `make_index` of the result.
  unfoldable pub get_config : Json → Draws → Option Text → Result CryptError Config
  unfolding new_config with_key
  get_config json draws file = do
    conf ← new_config draws
    elim file [ none ↦ ok conf | some text ↦ with_key draws.missing_key (json.decode text conf) ]

-- How `PutConfig` may fail: no directory, no file, or an error after some of the text was written.
pub data WriteFault : Type 0 where
  mkdir_failed create_failed : WriteFault
  encode_failed : Text → WriteFault

-- The file afterwards, and the error.
unfoldable pub put_config :
    Json → Option WriteFault → Config → Option Text → Option Text × Option WriteFault
put_config json none conf file = (some (json.encode conf), none)
put_config json (some (encode_failed part)) conf file = (some part, some (encode_failed part))
put_config json (some mkdir_failed) conf file = (file, some mkdir_failed)
put_config json (some create_failed) conf file = (file, some create_failed)
