-- ===== src/ServerConfig/Service/Storage.antt =====
-- What the exported methods leave in the file, and what is read from it afterwards.
use mysql8_audit_proxy.Base.{
  ◌≡◌, ◌⊎◌, inl, inr, refl, ap, ◌∙◌, Bool, true, false, Option, none, some, List, [], ◌∷◌, ◌++◌,
  Text, length, All, Result, ok, err, arith, ◌==◌,
}
use mysql8_audit_proxy.Base.Action.{Action}
use mysql8_audit_proxy.Base.Bytes.{IsByte}
use mysql8_audit_proxy.ServerConfig.Crypt.{
  Gcm, CryptError, key_ok, encrypt, decrypt, IsNonce, decrypt-encrypt,
}
use mysql8_audit_proxy.ServerConfig.Query.{Server, Query, columns_to_config}
use mysql8_audit_proxy.ServerConfig.Config.{
  Config, make_index, Draws, Json, new_config, with_key, get_config, WriteFault, encode_failed,
  mkdir_failed, create_failed, put_config,
}
use mysql8_audit_proxy.ServerConfig.Config.Indexed.{IsFresh, make_index-IsIndexed, index_of-IsFresh}
use mysql8_audit_proxy.ServerConfig.Manager
use mysql8_audit_proxy.ServerConfig.Manager.{
  ManagerError, fatal, crypt, write_failed, Work, append_server,
}
use mysql8_audit_proxy.ServerConfig.Manager.Insert.{insert-one}
use mysql8_audit_proxy.ServerConfig.Service.{
  Call, Outcome, start, finish, change, insert, update, delete, is_match, get_server, password_of,
  get_password,
}

-- There is no error, or the file is as it was, or the writing of it broke off.
abbrev pub KeepsFile : Option Text → Outcome → Type 0
KeepsFile file o =
    (o.error ≡ none)
    ⊎ ((o.file ≡ file)
        ⊎ ((part : Text) × (o.error ≡ some (write_failed (encode_failed part)))
            × (o.file ≡ some part)))

finish-KeepsFile :
    (json : Json) (fault : Option WriteFault) (file : Option Text) (conf : Config)
    (r : Result ManagerError (Unit {0}) × Work)
    → KeepsFile file (finish json fault file conf r)
unfolding finish put_config
finish-KeepsFile json fault file conf (err x, w) = inr (inl refl)
finish-KeepsFile json none file conf (ok u, w) = inl refl
finish-KeepsFile json (some (encode_failed part)) file conf (ok u, w) = inr (inr (part, refl, refl))
finish-KeepsFile json (some mkdir_failed) file conf (ok u, w) = inr (inl refl)
finish-KeepsFile json (some create_failed) file conf (ok u, w) = inr (inl refl)

change-KeepsFile :
    (json : Json) (call : Call) (file : Option Text)
    (op : Config → Action ManagerError Work (Unit {0})) (r : Result CryptError Config)
    → KeepsFile file (change json call file op r)
unfolding change
change-KeepsFile json call file op (err x) = inr (inl refl)
change-KeepsFile json call file op (ok conf) =
    finish-KeepsFile json call.fault file conf (op conf (start conf))

module _ (gcm : Gcm) (json : Json) where
  -- An INSERT, UPDATE or DELETE that ends in an error leaves the file as it was, unless the
  -- writing itself broke off, which leaves what was written.
  pub change_error-KeepsFile :
      (call : Call) (p : Query) (file : Option Text)
      → KeepsFile file (insert gcm json call p file)
        × KeepsFile file (update gcm json call p file)
        × KeepsFile file (delete gcm json call p file)
  unfolding insert update delete
  change_error-KeepsFile call p file = (
    change-KeepsFile json call file _ _,
    change-KeepsFile json call file _ _,
    change-KeepsFile json call file _ _,
  )

  key_ok-ne-nil : (key : Text) → key_ok key ≡ true → (length key == 0) ≡ false
  key_ok-ne-nil key h = ground arith

  with_key-key_ok :
      (random : Option Text) (conf : Config)
      → key_ok conf.key ≡ true
      → with_key gcm random conf ≡ ok conf
  unfolding with_key
  with_key-key_ok random conf h = rw (key_ok-ne-nil conf.key h)

  -- What was written is read again, whatever the random source delivers.
  pub get_config-written :
      (draws : Draws) (conf fresh : Config)
      → json.decode (json.encode conf) fresh ≡ conf
      → key_ok conf.key ≡ true
      → new_config gcm draws ≡ ok fresh
      → get_config gcm json draws (some (json.encode conf)) ≡ ok conf
  unfolding get_config
  get_config-written draws conf fresh hj hk hn =
      rw (hn, hj) (with_key-key_ok draws.missing_key conf hk)

-- The configuration with one more server behind the others.
abbrev pub with_server : Config → Text → Text → Config
with_server conf u c = record conf {
  servers = conf.servers ++ (record { user = u; password = c } ∷ []);
}

module _ (compile : Text → Option (Text → Bool)) where
  get_server-append :
      (username : Text) (servers : List Server) (t : Server)
      → All (λ s. is_match compile username s ≡ false) servers
      → is_match compile username t ≡ true
      → get_server compile (servers ++ (t ∷ [])) username ≡ some t
  unfolding get_server
  get_server-append username [] t h m = rw m
  get_server-append username (s ∷ servers) t h m =
      rw h.0 (get_server-append username servers t h.1 m)

  module _ (gcm : Gcm) (json : Json) (call : Call) (p : Query) (file : Option Text) (conf : Config)
      (u password nonce : Text) where
    insert_outcome :
        (c : Text)
        → get_config gcm json call.draws file ≡ ok conf
        → columns_to_config p ≡ ok (record { user = u; password = password } ∷ [])
        → IsFresh u conf.servers
        → encrypt gcm conf.key password (call.nonces 0) ≡ ok c
        → call.fault ≡ none
        → insert gcm json call p file
          ≡ record { rows = 1; error = none; file = some (json.encode (with_server conf u c)) }
    unfolding insert change finish put_config start
    insert_outcome c hc hp hf sealed hw =
        let new : Server = record { user = u; password = password } in
        let absent =
          index_of-IsFresh conf.servers (make_index conf) u (make_index-IsIndexed conf) hf in
        ap (change json call file (λ conf. Manager.insert gcm call.nonces conf.key p)) hc
        ∙ ap (finish json call.fault file conf)
            (insert-one gcm call.nonces conf.key p new c (start conf) hp absent sealed)
        ∙ ap
            (λ f. finish json f file conf (
              ok tt,
              append_server (record new { password = c }) (record (start conf) { drawn = 1 }),
            ))
            hw

    get_password-written :
        (draws : Draws) (fresh : Config) (c : Text)
        → key_ok conf.key ≡ true
        → json.decode (json.encode (with_server conf u c)) fresh ≡ with_server conf u c
        → new_config gcm draws ≡ ok fresh
        → All (λ s. is_match compile u s ≡ false) conf.servers
        → is_match compile u (record { user = u; password = [] }) ≡ true
        → decrypt gcm conf.key c ≡ ok password
        → get_password compile gcm json draws (some (json.encode (with_server conf u c))) u
          ≡ ok password
    unfolding get_password is_match
    get_password-written draws fresh c hk hj hd hm hu opened =
        rw (get_config-written gcm json draws (with_server conf u c) fresh hj hk hd, get_password)
          (rw (get_server-append u conf.servers (record { user = u; password = c }) hm hu)
            (rw (opened, password_of)))

    -- A user who is inserted can log in: the password that is looked up afterwards is the one of the
    -- INSERT, if the user is new, the encryption and the file work, and among the patterns
    -- of the table the new row's is the first that matches the user's name.
    pub insert-get_password :
        (draws : Draws) (fresh : Config)
        → get_config gcm json call.draws file ≡ ok conf
        → columns_to_config p ≡ ok (record { user = u; password = password } ∷ [])
        → IsFresh u conf.servers
        → key_ok conf.key ≡ true
        → call.nonces 0 ≡ some nonce
        → IsNonce (some nonce)
        → All IsByte password
        → call.fault ≡ none
        → ((c : Text)
            → encrypt gcm conf.key password (call.nonces 0) ≡ ok c
            → json.decode (json.encode (with_server conf u c)) fresh ≡ with_server conf u c)
        → new_config gcm draws ≡ ok fresh
        → All (λ s. is_match compile u s ≡ false) conf.servers
        → is_match compile u (record { user = u; password = [] }) ≡ true
        → ((insert gcm json call p file).error ≡ none)
          × ((insert gcm json call p file).rows ≡ 1)
          × (get_password compile gcm json draws (insert gcm json call p file).file u ≡ ok password)
    insert-get_password draws fresh hc hp hf hk hn ho hb hw hj hd hm hu =
        let (c, sealed, opened) = decrypt-encrypt gcm conf.key password nonce hk ho.0 ho.1 hb in
        let e = insert_outcome c hc hp hf (rw hn sealed) hw in
        (
          ap (λ o. o.error) e,
          ap (λ o. o.rows) e,
          ap (λ o. get_password compile gcm json draws o.file u) e
              ∙ get_password-written draws fresh c hk (hj c (rw hn sealed)) hd hm hu opened,
        )
