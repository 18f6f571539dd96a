-- ===== src/ServerConfig/Accounts/Inserting.antt =====
-- An INSERT on the servers in memory does what it does on the table.
use mysql8_audit_proxy.Base.{
  ℕ, zero, suc, ◌+◌, ◌≡◌, refl, sym, ap, ◌∙◌, Bool, true, false, Option, none, some, Option-cases,
  Bool-cases, inl, inr, List, [], ◌∷◌, ◌++◌, Text, text_eq, text_eq_refl, text_ne, get_elem?, All,
  arith, ◌||◌, Result, ok, err,
}
use mathlib.Core.Option.{some-injective}
use mysql8_audit_proxy.Base.Bytes.{IsByte}
use mysql8_audit_proxy.Base.Base64
use mysql8_audit_proxy.Base.Action.{proceed}
use mysql8_audit_proxy.ServerConfig.Crypt.{
  Gcm, key_ok, IsNonce, random_bytes, encrypt, decrypt, decrypt-encrypt,
}
use mysql8_audit_proxy.ServerConfig.Query.{Server, Query, ConfigError, columns_to_config}
use mysql8_audit_proxy.ServerConfig.Config.{Json, index_of}
use mysql8_audit_proxy.ServerConfig.Config.Indexed.{IsFresh}
use mysql8_audit_proxy.ServerConfig.Manager.{
  config, lift, Work, append_server, insert_server, encrypt_next, insert_servers, insert,
}
use mysql8_audit_proxy.ServerConfig.Manager.Insert.{IsValid, append_server-IsValid}
use mysql8_audit_proxy.ServerConfig.Accounts.{
  has_user, add_rows, insert_into, IsReadable, Holds, RowsFit, Follows,
}

module _ (gcm : Gcm) (json : Json) (readable : IsReadable json) (key : Text) where
  open readable use {IsJson}

  pub fresh-has_user :
      (u : Text) (servers table : List Server)
      → IsFresh u servers
      → Holds gcm json readable key servers table
      → has_user u table ≡ false
  fresh-has_user u [] [] h k = refl
  fresh-has_user u [] (a ∷ table) h k = absurd k
  fresh-has_user u (s ∷ servers) [] h k = absurd k
  fresh-has_user u (s ∷ servers) (a ∷ table) h k =
      rw (← k.0.0, text_ne s.user u h.0) (fresh-has_user u servers table h.1 k.1)

  pub present-has_user :
      (u : Text) (i : ℕ) (s : Server) (servers table : List Server)
      → get_elem? servers i ≡ some s
      → s.user ≡ u
      → Holds gcm json readable key servers table
      → has_user u table ≡ true
  present-has_user u i s [] table at is k = cc
  present-has_user u i s (x ∷ servers) [] at is k = absurd k
  present-has_user u zero s (x ∷ servers) (a ∷ table) at is k =
      let same : a.user ≡ u = sym k.0.0 ∙ ap (λ t. t.user) (some-injective _ _ at) ∙ is in
      rw (same, text_eq_refl u) refl
  present-has_user u (suc i) s (x ∷ servers) (a ∷ table) at is k =
      rw (present-has_user u i s servers table at is k.1) (or_true (text_eq a.user u))
    where
      or_true : (b : Bool) → (b || true) ≡ true
      or_true true = refl
      or_true false = refl

  pub append-Holds :
      (servers table : List Server) (s a : Server)
      → Holds gcm json readable key servers table
      → s.user ≡ a.user
      → decrypt gcm key s.password ≡ ok a.password
      → IsJson s.user
      → IsJson s.password
      → Holds gcm json readable key (servers ++ (s ∷ [])) (table ++ (a ∷ []))
  append-Holds [] [] s a h hu hp ju jp = ((hu, hp, (ju, jp)), tt)
  append-Holds [] (b ∷ table) s a h hu hp ju jp = absurd h
  append-Holds (x ∷ servers) [] s a h hu hp ju jp = absurd h
  append-Holds (x ∷ servers) (b ∷ table) s a h hu hp ju jp =
      (h.0, append-Holds servers table s a h.1 hu hp ju jp)

  -- What is encrypted is base64.
  pub encrypt-IsJson :
      (plaintext c : Text) (random : Option Text)
      → encrypt gcm key plaintext random ≡ ok c
      → IsJson c
  unfolding encrypt random_bytes
  encrypt-IsJson plaintext c none e = ground arith
  encrypt-IsJson plaintext c (some nonce) e = elim (Bool-cases (key_ok key)) [
    | inl h ↦
        let sealed : Base64.encode (nonce ++ gcm.seal key nonce plaintext) ≡ c = cc (rw h at e) in
        rw (← sealed) (readable.base64-IsJson (nonce ++ gcm.seal key nonce plaintext))
    | inr h ↦ cc (rw h at e)
  ]

  module _ (nonces : ℕ → Option Text) (nonce : ℕ → Text)
      (delivers : (n : ℕ) → (nonces n ≡ some (nonce n)) × IsNonce (some (nonce n)))
      (key_fits : key_ok key ≡ true) where
    insert_servers-Follows :
        (rows table : List Server) (w : Work)
        → All (λ s. IsJson s.user × All IsByte s.password) rows
        → Holds gcm json readable key w.servers table
        → IsValid w
        → Follows gcm json readable key (add_rows rows table) (insert_servers gcm nonces key rows w)
    unfolding insert_servers insert_server encrypt_next
    insert_servers-Follows [] table w fit h v = (h, v.unique)
    insert_servers-Follows (s ∷ rows) table w fit h v =
        elim (Option-cases (index_of s.user w.index)) [
          | inr (i, q) ↦
              let (t, at, is) = v.indexed.present s.user i q in
              rw (present-has_user s.user i t w.servers table at is h, q) refl
          | inl q ↦
              let (hn, ho) = delivers w.drawn in
              let (c, sealed, opened) =
                decrypt-encrypt gcm key s.password (nonce w.drawn) key_fits ho.0 ho.1 fit.0.1 in
              let t : Server = record s { password = c } in
              let w' : Work = record w { drawn = w.drawn + 1 } in
              rw
                (fresh-has_user s.user w.servers table (v.indexed.absent s.user q) h, q, hn, sealed)
                (insert_servers-Follows rows (table ++ (s ∷ [])) (append_server t w') fit.1
                  (append-Holds w.servers table t s h refl opened fit.0.0
                    (encrypt-IsJson s.password c (some (nonce w.drawn)) sealed))
                  (append_server-IsValid t w' (record { indexed = v.indexed; unique = v.unique })
                    q))
        ]

    -- An INSERT.
    pub insert-Follows :
        (p : Query) (table : List Server) (w : Work)
        → RowsFit gcm json readable (columns_to_config p)
        → Holds gcm json readable key w.servers table
        → IsValid w
        → Follows gcm json readable key
            (insert_into (columns_to_config p) table)
            (insert gcm nonces key p w)
    unfolding insert
    insert-Follows p table w fit h v = given (columns_to_config p) fit
      where
        given :
            (r : Result ConfigError (List Server))
            → RowsFit gcm json readable r
            → Follows gcm json readable key
                (insert_into r table)
                (proceed (lift config r w) (insert_servers gcm nonces key))
        given (ok rows) fit = insert_servers-Follows rows table w fit h v
        given (err e) fit = refl
