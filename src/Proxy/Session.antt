-- ===== src/Proxy/Session.antt =====
-- pkg/mysqlproxy/userprovider.go, and what `sessionWorker` of proxysrv.go makes of a login: the
-- admin console, or a session with a target.
use mysql8_audit_proxy.Base.{
  ℕ, ◌≡◌, ◌≢◌, ◌↔◌, ◌⊎◌, inl, inr, refl, Bool, true, false, Option, none, some, [], ◌∷◌, ◌++◌, Text,
  length, text_eq, ◌==◌, if◌then◌else◌, Result, ok, err, arith, IsFree, text_ne, text_eq_iff,
}
use mysql8_audit_proxy.Proxy.Target.{get_target_info, add_port}
use mysql8_audit_proxy.Proxy.Target.Laws.{get_target_info-join, get_target_info-no_pass}

-- What a login leads to behind the handshake. The fields are those of `ClientSess`.
pub data Session : Type 0 where
  admin : Session
  target : (target_addr target_user target_password target_db : Text) → Session

-- `get_password` is the method of the user manager.
module _ {E : Type 0} (get_password : Text → Result E Text) where
  unfoldable pub check_username : Text → Bool × Option E
  check_username username = elim (get_password username) [
    | ok p ↦ (true, none)
    | err e ↦ (false, some e)
  ]

  -- The password, whether it was found, and the error.
  unfoldable pub get_credential : Text → Text × Bool × Option E
  get_credential username = elim (get_password username) [
    | ok p ↦ (p, true, none)
    | err e ↦ ([], false, none)
  ]

  target_password : Text → Text → Text
  unfolding get_credential
  target_password user pass = if length pass == 0 then (get_credential user).0 else pass

  -- `user` is the name of the login, `db` the data base that it asks for.
  pub session : Text → Text → Text → Session
  unfolding target_password
  session admin_user user db =
      if text_eq user admin_user
      then admin
      else (let t = get_target_info user in
          target (add_port t.server) t.user (target_password user t.pass) db)

  -- Either the manager has a password for the name: then the name is known, and that password is
  -- given out. Or it has an error: then the name is unknown, the error is reported by the check alone,
  -- and the password given out is empty.
  pub check_username-get_credential :
      (username : Text)
      → ((p : Text) × (get_password username ≡ ok p)
          × (check_username username ≡ (true, none))
          × (get_credential username ≡ (p, true, none)))
        ⊎ ((e : E) × (get_password username ≡ err e)
            × (check_username username ≡ (false, some e))
            × (get_credential username ≡ ([], false, none)))
  unfolding check_username get_credential
  check_username-get_credential username = by_answer (get_password username) refl
    where
      by_answer :
          (r : Result E Text)
          → get_password username ≡ r
          → ((p : Text) × (get_password username ≡ ok p)
              × (check_username username ≡ (true, none))
              × (get_credential username ≡ (p, true, none)))
            ⊎ ((e : E) × (get_password username ≡ err e)
                × (check_username username ≡ (false, some e))
                × (get_credential username ≡ ([], false, none)))
      by_answer (ok p) q = inl (p, q, rw (q, check_username), rw (q, get_credential))
      by_answer (err e) q = inr (e, q, rw (q, check_username), rw (q, get_credential))

  get_credential_ok :
      (username p : Text) → get_password username ≡ ok p → get_credential username ≡ (p, true, none)
  unfolding get_credential
  get_credential_ok username p e = rw (e, get_credential)

  module _ (admin_user user server db : Text) where
    -- The login `user@server`, if it is not the admin's name, leads to that server as `user` with
    -- the password of the table, if it has one. The parts are free of `@`, and the user of `:`.
    pub session-stored :
        (p : Text)
        → user ++ (b'@' ∷ server) ≢ admin_user
        → IsFree b'@' user
        → IsFree b'@' server
        → IsFree b':' user
        → get_password (user ++ (b'@' ∷ server)) ≡ ok p
        → session admin_user (user ++ (b'@' ∷ server)) db ≡ target (add_port server) user p db
    unfolding session
    session-stored p ne hu hs hc e = rw (
      text_ne (user ++ (b'@' ∷ server)) admin_user ne,
      get_target_info-no_pass user server hu hs hc,
      get_credential_ok (user ++ (b'@' ∷ server)) p e,
    )

    -- The login `user:pass@server`, if it is not the admin's name, leads to that server as `user`
    -- with the password `pass`, whatever the table says, if that is not empty. The parts are free
    -- of `@`, and the user and the password of `:`.
    pub session-own :
        (c : ℕ) (pass : Text)
        → (user ++ (b':' ∷ c ∷ pass)) ++ (b'@' ∷ server) ≢ admin_user
        → IsFree b'@' user
        → IsFree b'@' (c ∷ pass)
        → IsFree b'@' server
        → IsFree b':' user
        → IsFree b':' (c ∷ pass)
        → session admin_user ((user ++ (b':' ∷ c ∷ pass)) ++ (b'@' ∷ server)) db
          ≡ target (add_port server) user (c ∷ pass) db
    unfolding session
    session-own c pass ne hu hp hs hcu hcp =
        rw
          (
            text_ne ((user ++ (b':' ∷ c ∷ pass)) ++ (b'@' ∷ server)) admin_user ne,
            get_target_info-join user (c ∷ pass) server hu hp hs hcu hcp,
          )
          (ground arith)

    -- A login leads to the admin console exactly if its name is the admin's.
    pub session-admin_iff :
        (name : Text) → (session admin_user name db ≡ admin) ↔ (name ≡ admin_user)
    unfolding session
    session-admin_iff name = ground (arith, text_eq_iff name admin_user)
