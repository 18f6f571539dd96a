-- ===== src/ServerConfig/Runs.antt =====
-- A cipher, a file format and a table of two users, on which the theorems of ServerConfig are run.
mod Tables
mod Statements
mod Console
pub mod Accounts
use mysql8_audit_proxy.Base.{
  ℕ, zero, suc, ◌+◌, ◌%◌, ◌^◌, ◌≤◌, ◌<◌, ◌≡◌, refl, ap, ◌∙◌, Option, none, some, List, [], ◌∷◌,
  ◌++◌, Text, codes, map, length, take, drop, replicate, All, arith, take-length-append,
  drop-length-append, length-append, true, ok, text_eq, to_lower,
}
use mysql8_audit_proxy.Base.Bytes.{IsByte}
use mysql8_audit_proxy.ServerConfig.Crypt.{Gcm, key_ok, IsNonce, encrypt, decrypt, decrypt-encrypt}
use mysql8_audit_proxy.ServerConfig.Query.{
  Server, Query, op_eq, is_user, is_password, column_of, new_parsed_query, user_column,
  password_column,
}
use mysql8_audit_proxy.ServerConfig.Query.Rows.{values_of}
use mysql8_audit_proxy.ServerConfig.Config.{Config, Draws, Json}
use mysql8_audit_proxy.ServerConfig.Manager.{Work}

abbrev low_byte : ℕ → ℕ
low_byte b = b % 256

pub map-low_byte : (bs : Text) → All IsByte bs → map low_byte bs ≡ bs
map-low_byte [] h = refl
map-low_byte (b ∷ bs) h =
    let small : b % 256 ≡ b = omega (arith, h.0) in rw (small, map-low_byte bs h.1)

pub low_byte-IsByte : (bs : Text) → All IsByte (map low_byte bs)
low_byte-IsByte [] = tt
low_byte-IsByte (b ∷ bs) = (omega arith, low_byte-IsByte bs)

-- A cipher that hides nothing.
abbrev pub plain : Gcm
plain = record {
  seal = λ key nonce plaintext. map low_byte plaintext;
  unseal = λ key nonce ciphertext. some ciphertext;
  seal-IsByte = λ key nonce plaintext. low_byte-IsByte plaintext;
  unseal-seal = λ key nonce plaintext h. ap some (map-low_byte plaintext h);
}

-- A file format: texts behind their lengths, the key and then the servers.
abbrev frames : List Text → Text
frames [] = []
frames (b ∷ bs) = length b ∷ (b ++ frames bs)

abbrev unframes : ℕ → Text → List Text
unframes zero t = []
unframes (suc fuel) [] = []
unframes (suc fuel) (n ∷ t) = take n t ∷ unframes fuel (drop n t)

unframes-frames :
    (bs : List Text) (fuel : ℕ) → length (frames bs) ≤ fuel → unframes fuel (frames bs) ≡ bs
unframes-frames [] zero h = refl
unframes-frames [] (suc fuel) h = refl
unframes-frames (b ∷ bs) zero h = absurd (omega arith)
unframes-frames (b ∷ bs) (suc fuel) h = rw (
  take-length-append b (frames bs),
  drop-length-append b (frames bs),
  unframes-frames bs fuel (omega (arith, length-append b (frames bs))),
)

abbrev servers_of : List Text → List Server
servers_of [] = []
servers_of (u ∷ []) = []
servers_of (u ∷ p ∷ bs) = record { user = u; password = p } ∷ servers_of bs

servers_of-values_of : (servers : List Server) → servers_of (values_of servers) ≡ servers
servers_of-values_of [] = refl
servers_of-values_of (s ∷ servers) = ap (◌∷◌ s) (servers_of-values_of servers)

abbrev config_of : Config → List Text → Config
config_of conf [] = conf
config_of conf (k ∷ bs) = record { servers = servers_of bs; key = k }

abbrev pub framed_json : Json
framed_json = record {
  encode = λ conf. frames (conf.key ∷ values_of conf.servers);
  decode = λ text conf. config_of conf (unframes (length text) text);
}

pub framed_json-round :
    (conf fresh : Config) → framed_json.decode (framed_json.encode conf) fresh ≡ conf
framed_json-round conf fresh =
    ap (config_of fresh) (
      unframes-frames (conf.key ∷ values_of conf.servers) (length (framed_json.encode conf))
        (omega arith))
    ∙ ap (λ ss. record { servers = ss; key = conf.key }) (servers_of-values_of conf.servers)

abbrev pub key : Text
key = replicate 16 7

abbrev pub nonce : Text
nonce = replicate 12 9

pub nonce-IsNonce : IsNonce (some nonce)
nonce-IsNonce = (refl, nine 12)
  where
    nine : (n : ℕ) → All IsByte (replicate n 9)
    nine zero = tt
    nine (suc n) = (omega arith, nine n)

abbrev pub nonces : ℕ → Option Text
nonces n = some nonce

abbrev pub conf : Config
conf = record {
  servers =
      record { user = codes "root"; password = codes "AAAA" }
      ∷ record { user = codes "al"; password = codes "BBBB" }
      ∷ [];
  key = key;
}

abbrev pub draws : Draws
draws = record { new_key = some (replicate 32 5); admin_nonce = some nonce; missing_key = none }

pub column_of-user : column_of user_column ≡ is_user
unfolding column_of to_lower text_eq
column_of-user = refl

pub column_of-password : column_of password_column ≡ is_password
unfolding column_of to_lower text_eq
column_of-password = refl

-- INSERT INTO t (User, Password) VALUES ('eve', 'pw')
abbrev pub insert_eve : Query
insert_eve = record new_parsed_query {
  columns = user_column ∷ password_column ∷ [];
  values = codes "eve" ∷ codes "pw" ∷ [];
}

-- A statement with WHERE User = 'al'
abbrev pub where_al : Query
where_al = record new_parsed_query {
  where_columns = user_column ∷ [];
  where_values = codes "al" ∷ [];
  where_op = op_eq;
}
