-- ===== src/ServerConfig/Accounts/Updating.antt =====
-- An UPDATE of a user's password on the servers in memory does what it does on the table.
use mathlib.Core.Path.{subst}
use mysql8_audit_proxy.Base.{
  ℕ, ◌≡◌, refl, sym, ap, ◌∙◌, true, Bool-cases, Option, some, Option-cases, inl, inr, List, [], ◌∷◌,
  Text, text_eq, text_eq→eq, ok,
}
use mysql8_audit_proxy.ServerConfig.Crypt.{Gcm, key_ok, IsNonce, decrypt, decrypt-encrypt}
use mysql8_audit_proxy.ServerConfig.Query.{Server, Query, set_columns, with_columns, update_columns}
use mysql8_audit_proxy.ServerConfig.Query.Where.{where_columns_to_config-user, value_at}
use mysql8_audit_proxy.ServerConfig.Config.{Json, index_of}
use mysql8_audit_proxy.ServerConfig.Manager.{Work, encrypt_next, update_row, update_rows, update}
use mysql8_audit_proxy.ServerConfig.Manager.Insert.{IsValid}
use mysql8_audit_proxy.ServerConfig.Manager.Exchange.{
  exchange, set-exchange, selection-IsFresh, selection-place, exchange-IsUnique,
}
use mysql8_audit_proxy.ServerConfig.Accounts.{
  exchange_password, change_password, SetsPassword, IsReadable, Holds, Follows,
}
use mysql8_audit_proxy.ServerConfig.Accounts.Inserting.{
  encrypt-IsJson, fresh-has_user, present-has_user,
}

update_columns-password :
    (p : Query) (s : Server) (h : SetsPassword p)
    → update_columns p s ≡ ok (record s { password = h.password })
unfolding update_columns set_columns with_columns
update_columns-password p s h = rw (h.columns_eq, h.values_eq, h.sets) refl

module _ (gcm : Gcm) (json : Json) (readable : IsReadable json) (key : Text) where
  open readable use {IsJson}

  exchange-Holds :
      (u password c : Text) (servers table : List Server)
      → decrypt gcm key c ≡ ok password
      → IsJson c
      → Holds gcm json readable key servers table
      → Holds gcm json readable key
          (exchange u (record { user = u; password = c }) servers)
          (exchange_password u password table)
  exchange-Holds u password c [] [] opened j h = tt
  exchange-Holds u password c [] (a ∷ table) opened j h = absurd h
  exchange-Holds u password c (s ∷ servers) [] opened j h = absurd h
  exchange-Holds u password c (s ∷ servers) (a ∷ table) opened j h =
      let rest = exchange-Holds u password c servers table opened j h.1 in
      elim (Bool-cases (text_eq a.user u)) [
        | inl q ↦
            let is = text_eq→eq a.user u q in
            let same = ap (λ v. text_eq v u) h.0.0 ∙ q in
            rw (same, q) ((sym is, opened, (subst IsJson (h.0.0 ∙ is) h.0.2.0, j)), rest)
        | inr q ↦ let other = ap (λ v. text_eq v u) h.0.0 ∙ q in rw (other, q) (h.0, rest)
      ]

  -- An UPDATE of one user's password.
  pub update-Follows :
      (nonces : ℕ → Option Text) (nonce : ℕ → Text)
      → ((n : ℕ) → (nonces n ≡ some (nonce n)) × IsNonce (some (nonce n)))
      → key_ok key ≡ true
      → (p : Query) (table : List Server) (w : Work) → SetsPassword p
      → Holds gcm json readable key w.servers table
      → IsValid w
      → Follows gcm json readable key
          (change_password (value_at 0 p.where_values) (value_at 0 p.values) table)
          (update gcm nonces key p w)
  unfolding update update_rows update_row encrypt_next
  update-Follows nonces nonce delivers key_fits p table w s h v =
      let u = value_at 0 p.where_values in
      let selected =
        where_columns_to_config-user p s.column w.servers s.where_eq s.equal s.by_user in
      elim (Option-cases (index_of u w.index)) [
        | inl q ↦
            let absent = v.indexed.absent u q in
            let nothing = selected ∙ ap ok (selection-IsFresh u w.servers absent) in
            rw (fresh-has_user gcm json readable key u w.servers table absent h, nothing) refl
        | inr (i, q) ↦
            let (t, at, is) = v.indexed.present u i q in
            let one = selected ∙ ap ok (selection-place u t w.servers i v.unique at is) in
            let place = ap (λ v. index_of v w.index) is ∙ q in
            let (hn, ho) = delivers w.drawn in
            let (c, sealed, opened) =
              decrypt-encrypt gcm key s.password (nonce w.drawn) key_fits ho.0 ho.1 s.bytes in
            let t' : Server = record { user = t.user; password = c } in
            let set_to : value_at 0 p.values ≡ s.password = ap (value_at 0) s.values_eq in
            let j =
              encrypt-IsJson gcm json readable key s.password c (some (nonce w.drawn)) sealed in
            rw
              (
                present-has_user gcm json readable key u i t w.servers table at is h,
                one,
                place,
                update_columns-password p t s,
                hn,
                sealed,
                set_to,
                set-exchange u t t' w.servers i v.unique at is,
                is,
              )
              (
                exchange-Holds u s.password c w.servers table opened j h,
                exchange-IsUnique u (record { user = u; password = c }) w.servers refl v.unique,
              )
      ]
