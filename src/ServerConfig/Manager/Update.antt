-- ===== src/ServerConfig/Manager/Update.antt =====
-- What an UPDATE does to the servers in memory.
use mathlib.Core.Option.{some-injective}
use mysql8_audit_proxy.Base.{
  ℕ, ◌+◌, ◌≡◌, refl, sym, ap, ◌∙◌, Option, none, some, Option-cases, List, [], ◌∷◌, Text, get_elem?,
  set, Result, ok, err, inl, inr, text_eq,
}
use mysql8_audit_proxy.Base.Action.{◌>>=◌, ◌>>◌, proceed, pure, modify}
use mysql8_audit_proxy.ServerConfig.Crypt.{Gcm, CryptError, encrypt}
use mysql8_audit_proxy.ServerConfig.Query.{
  Server, Query, op_eq, is_user, column_of, ConfigError, selection, where_columns_to_config,
  update_columns,
}
use mysql8_audit_proxy.ServerConfig.Query.Where.{where_columns_to_config-user, value_at}
use mysql8_audit_proxy.ServerConfig.Config.{index_of}
use mysql8_audit_proxy.ServerConfig.Manager.{
  ManagerError, config, crypt, no_update_data, Work, lift, reject_empty, require, encrypt_next,
  update_row, update_rows, update, write_server,
}
use mysql8_audit_proxy.ServerConfig.Manager.Insert.{IsValid}
use mysql8_audit_proxy.ServerConfig.Manager.Exchange.{
  exchange, set-exchange, selection-IsFresh, selection-place,
}

module _ (gcm : Gcm) (nonces : ℕ → Option Text) (key : Text) where
  -- One row that was written: its place, the row with its new columns, and the password encrypted.
  record Updated (p : Query) (u : Server) (w w' : Work) : Type 0 where
    place : ℕ
    found : index_of u.user w.index ≡ some place
    new : Server
    columns : update_columns p u ≡ ok new
    password : Text
    encrypted : encrypt gcm key new.password (nonces w.drawn) ≡ ok password
    written : w'.servers ≡ set w.servers place (record new { password = password })
    counted : w'.count ≡ w.count + 1

  update_row-ok :
      (p : Query) (u : Server) (w w' : Work) (x : Unit {0})
      → update_row gcm nonces key p u w ≡ (ok x, w')
      → Updated p u w w'
  unfolding update_row encrypt_next
  update_row-ok p u w w' x e = found (index_of u.user w.index) refl e
    where
      encrypted :
          (i : ℕ) (new : Server) (c : Result CryptError Text)
          → index_of u.user w.index ≡ some i
          → update_columns p u ≡ ok new
          → encrypt gcm key new.password (nonces w.drawn) ≡ c
          → proceed
              (lift crypt c (record w { drawn = w.drawn + 1 }))
              (λ password. modify (write_server i (record new { password = password })))
            ≡ (ok x, w')
          → Updated p u w w'
      encrypted i new (ok c) a b q e = record {
        place = i;
        found = a;
        new = new;
        columns = b;
        password = c;
        encrypted = q;
        written = ap (λ r. r.1.servers) (sym e);
        counted = ap (λ r. r.1.count) (sym e);
      }
      encrypted i new (err y) a b q e = cc

      columns :
          (i : ℕ) (r : Result ConfigError Server)
          → index_of u.user w.index ≡ some i
          → update_columns p u ≡ r
          → proceed (lift config r w) (λ s. encrypt_next gcm nonces key s.password >>= λ password.
              modify (write_server i (record s { password = password })))
            ≡ (ok x, w')
          → Updated p u w w'
      columns i (ok new) a q e =
          encrypted i new (encrypt gcm key new.password (nonces w.drawn)) a q refl e
      columns i (err y) a q e = cc

      found :
          (o : Option ℕ)
          → index_of u.user w.index ≡ o
          → proceed (require u.user o w) (λ i. lift config (update_columns p u) >>= λ s.
              encrypt_next gcm nonces key s.password >>= λ password.
              modify (write_server i (record s { password = password })))
            ≡ (ok x, w')
          → Updated p u w w'
      found none q e = cc
      found (some i) q e = columns i (update_columns p u) q refl e

  update_rows-one :
      (p : Query) (s : Server) (w w' : Work)
      → update_rows gcm nonces key p (s ∷ []) w ≡ (ok tt, w')
      → Updated p s w w'
  unfolding update_rows
  update_rows-one p s w w' e = update_row-ok p s w w' tt (one (update_row gcm nonces key p s w) e)
    where
      one :
          (r : Result ManagerError (Unit {0}) × Work)
          → proceed r (λ _. pure tt) ≡ (ok tt, w')
          → r ≡ (ok tt, w')
      one (ok u, v) e = e
      one (err x, v) e = cc

  -- What an UPDATE of one user comes to: the server `old` of the user is exchanged for `new`.
  pub record UpdatedUser (p : Query) (user : Text) (w w' : Work) : Type 0 where
    pub old : Server
    pub old_user : old.user ≡ user
    pub is_there : (i : ℕ) × (get_elem? w.servers i ≡ some old)
    pub set_to : Server
    pub columns_set : update_columns p old ≡ ok set_to
    pub password : Text
    pub password_encrypted : encrypt gcm key set_to.password (nonces w.drawn) ≡ ok password
    pub exchanged : w'.servers ≡ exchange user (record set_to { password = password }) w.servers
    pub one_row : w'.count ≡ w.count + 1

  -- If the index agrees with the servers and no user has two rows, an UPDATE that succeeds, with
  -- the one condition that the user be a given one, has exchanged the server of that user, and
  -- none other, for the one with the columns set and the password encrypted, and has counted one
  -- row.
  pub update-user :
      (p : Query) (c : Text) (w w' : Work)
      → IsValid w
      → p.where_columns ≡ c ∷ []
      → p.where_op ≡ op_eq
      → column_of c ≡ is_user
      → update gcm nonces key p w ≡ (ok tt, w')
      → UpdatedUser p (value_at 0 p.where_values) w w'
  unfolding update
  update-user p c w w' h hc ho hu e =
      given (where_columns_to_config p w.servers)
        (where_columns_to_config-user p c w.servers hc ho hu) e
    where
      u : Text
      u = value_at 0 p.where_values

      nothing :
          (rows : List Server)
          → rows ≡ []
          → proceed (reject_empty no_update_data rows w) (λ _. update_rows gcm nonces key p rows)
            ≡ (ok tt, w')
          → UpdatedUser p u w w'
      nothing [] q e = cc
      nothing (s ∷ rows) q e = cc

      exchanged_one :
          (t : Server) (i : ℕ)
          → index_of u w.index ≡ some i
          → get_elem? w.servers i ≡ some t
          → t.user ≡ u
          → Updated p t w w'
          → UpdatedUser p u w w'
      exchanged_one t i found at is d = record {
        old = t;
        old_user = is;
        is_there = (i, at);
        set_to = d.new;
        columns_set = d.columns;
        password = d.password;
        password_encrypted = d.encrypted;
        exchanged =
            d.written
            ∙ set-exchange u t (record d.new { password = d.password }) w.servers d.place h.unique
                (rw (some-injective _ _ (sym d.found ∙ ap (λ v. index_of v w.index) is ∙ found)) at)
                is;
        one_row = d.counted;
      }

      one :
          (t : Server) (i : ℕ)
          → index_of u w.index ≡ some i
          → get_elem? w.servers i ≡ some t
          → t.user ≡ u
          → (rows : List Server) → rows ≡ t ∷ []
          → proceed (reject_empty no_update_data rows w) (λ _. update_rows gcm nonces key p rows)
            ≡ (ok tt, w')
          → UpdatedUser p u w w'
      one t i found at is [] q e = cc
      one t i found at is (s ∷ rows) q e =
          exchanged_one t i found at is
            (update_rows-one p t w w' (ap (λ l. update_rows gcm nonces key p l w) (sym q) ∙ e))

      rows_given :
          (rows : List Server)
          → rows ≡ selection (λ s. text_eq s.user u) w.servers
          → proceed (reject_empty no_update_data rows w) (λ _. update_rows gcm nonces key p rows)
            ≡ (ok tt, w')
          → UpdatedUser p u w w'
      rows_given rows q e = elim (Option-cases (index_of u w.index)) [
        | inl absent ↦
            nothing rows (q ∙ selection-IsFresh u w.servers (h.indexed.absent u absent)) e
        | inr (i, found) ↦
            let (t, at, is) = h.indexed.present u i found in
            one t i found at is rows (q ∙ selection-place u t w.servers i h.unique at is) e
      ]

      given :
          (r : Result ConfigError (List Server))
          → r ≡ ok (selection (λ s. text_eq s.user u) w.servers)
          → proceed
              (lift config r w)
              (λ rows. reject_empty no_update_data rows >> update_rows gcm nonces key p rows)
            ≡ (ok tt, w')
          → UpdatedUser p u w w'
      given (ok rows) q e = rows_given rows (cc) e
      given (err x) q e = cc
