-- ===== src/ServerConfig/Manager/Passwords.antt =====
-- What an UPDATE of one column of one user does to the stored password.
use mathlib.Core.Path.{ap₂}
use mysql8_audit_proxy.Base.{ℕ, ◌≡◌, sym, ap, ◌∙◌, Option, [], ◌∷◌, Text, All, Result, ok, err}
use mysql8_audit_proxy.Base.Bytes.{IsByte}
use mysql8_audit_proxy.ServerConfig.Crypt.{Gcm, encrypt, decrypt, IsNonce, decrypt-of_encrypt}
use mysql8_audit_proxy.ServerConfig.Query.{
  Server, Query, op_eq, is_user, is_password, column_of, ConfigError, with_columns, set_columns,
  update_columns,
}
use mysql8_audit_proxy.ServerConfig.Query.Where.{value_at}
use mysql8_audit_proxy.ServerConfig.Manager.{Work, update}
use mysql8_audit_proxy.ServerConfig.Manager.Insert.{IsValid}
use mysql8_audit_proxy.ServerConfig.Manager.Exchange.{All-get}
use mysql8_audit_proxy.ServerConfig.Manager.Update.{UpdatedUser, update-user}

abbrev user_of : Result ConfigError Server → Text
user_of (ok s) = s.user
user_of (err e) = []

abbrev password_of : Result ConfigError Server → Text
password_of (ok s) = s.password
password_of (err e) = []

module _ (gcm : Gcm) (nonces : ℕ → Option Text) (key : Text) (p : Query) (c column v : Text)
    (w w' : Work) (valid : IsValid w) (on_user : p.where_columns ≡ c ∷ [])
    (equal : p.where_op ≡ op_eq) (user_column : column_of c ≡ is_user)
    (one_column : p.columns ≡ column ∷ []) (one_value : p.values ≡ v ∷ [])
    (nonce_ok : IsNonce (nonces w.drawn)) (done : update gcm nonces key p w ≡ (ok tt, w')) where
  update_columns-column : (s : Server) → update_columns p s ≡ set_columns (column ∷ []) (v ∷ []) s
  unfolding update_columns with_columns
  update_columns-column s = ap₂ (λ cs vs. set_columns (with_columns cs) vs s) one_column one_value

  the_update : UpdatedUser gcm nonces key p (value_at 0 p.where_values) w w'
  the_update = update-user gcm nonces key p c w w' valid on_user equal user_column done

  set_to_of :
      (d : UpdatedUser gcm nonces key p (value_at 0 p.where_values) w w')
      → set_columns (column ∷ []) (v ∷ []) d.old ≡ ok d.set_to
  set_to_of d = sym (update_columns-column d.old) ∙ d.columns_set

  -- An UPDATE of one user that succeeds and sets the password to bytes, and nothing else, stores it so
  -- that it is decrypted to what was set, and the user stays; the index has to agree, users to be
  -- unique and the nonce to have its length.
  pub update-password :
      column_of column ≡ is_password
      → All IsByte v
      → (d : UpdatedUser gcm nonces key p (value_at 0 p.where_values) w w') × (d.set_to.user
          ≡ d.old.user)
        × (decrypt gcm key d.password ≡ ok v)
  unfolding set_columns
  update-password hc hv =
      let d = the_update in
      let e : ok (record d.old { password = v }) ≡ ok d.set_to = rw hc at (set_to_of d) in
      (
        d,
        ap user_of (sym e),
        decrypt-of_encrypt gcm key v d.password (nonces w.drawn) nonce_ok hv
            (ap (λ r. encrypt gcm key (password_of r) (nonces w.drawn)) e ∙ d.password_encrypted),
      )

  -- An UPDATE of one user that succeeds and sets the user's name, and nothing else, encrypts the
  -- stored password once more, if that is bytes: what is decrypted afterwards is the text that was
  -- stored before, and not the password. The index has to agree, users to be unique and the nonce
  -- to have its length.
  pub update-rename :
      column_of column ≡ is_user
      → All (λ s. All IsByte s.password) w.servers
      → (d : UpdatedUser gcm nonces key p (value_at 0 p.where_values) w w') × (d.set_to.user ≡ v)
        × (decrypt gcm key d.password ≡ ok d.old.password)
  unfolding set_columns
  update-rename hc hs =
      let d = the_update in
      let (i, at) = d.is_there in
      let e : ok (record d.old { user = v }) ≡ ok d.set_to = rw hc at (set_to_of d) in
      (
        d,
        ap user_of (sym e),
        decrypt-of_encrypt gcm key d.old.password d.password (nonces w.drawn) nonce_ok
            (All-get (λ s. All IsByte s.password) w.servers i d.old hs at)
            (ap (λ r. encrypt gcm key (password_of r) (nonces w.drawn)) e ∙ d.password_encrypted),
      )
