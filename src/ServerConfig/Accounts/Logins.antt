-- ===== src/ServerConfig/Accounts/Logins.antt =====
-- The password that `getPassword` finds is the one that the table has.
use mysql8_audit_proxy.Base.{
  ◌≡◌, refl, ◌∙◌, Bool, Bool-cases, inl, inr, Option, none, some, List, [], ◌∷◌, map, Text, text_eq,
  All, Result, ok, err,
}
use mysql8_audit_proxy.ServerConfig.Crypt.{Gcm}
use mysql8_audit_proxy.ServerConfig.Query.{Server}
use mysql8_audit_proxy.ServerConfig.Config.{Json}
use mysql8_audit_proxy.ServerConfig.Manager.{ManagerError, password_not_found}
use mysql8_audit_proxy.ServerConfig.Service.{Call, is_match, get_server, password_of, get_password}
use mysql8_audit_proxy.ServerConfig.Accounts.{
  Statement, lookup, apply_all, manage_all, IsReadable, Works, Holds, Stored, Fits,
}
use mysql8_audit_proxy.ServerConfig.Accounts.Commands.{get_config-Sound, manage_all-Stored}

abbrev pub found : Option Text → Result ManagerError Text
found none = err password_not_found
found (some password) = ok password

-- As patterns, each user of the table matches the name exactly if it is the name.
abbrev pub AreLiteral : (Text → Option (Text → Bool)) → Text → List Server → Type 0
AreLiteral compile name = All (λ s. is_match compile name s ≡ text_eq s.user name)

module _ (compile : Text → Option (Text → Bool)) (gcm : Gcm) (json : Json)
    (readable : IsReadable json) where
  is_match_user :
      (name : Text) (s t : Server)
      → s.user ≡ t.user
      → is_match compile name s ≡ is_match compile name t
  unfolding is_match
  is_match_user name s t e = rw e refl

  get_server-lookup :
      (key name : Text) (servers table : List Server)
      → Holds gcm json readable key servers table
      → AreLiteral compile name table
      → password_of compile gcm key (get_server compile servers name) ≡ found (lookup name table)
  unfolding get_server
  get_server-lookup key name [] [] h k = refl
  get_server-lookup key name [] (a ∷ table) h k = absurd h
  get_server-lookup key name (s ∷ servers) [] h k = absurd h
  get_server-lookup key name (s ∷ servers) (a ∷ table) h k =
      let m = is_match_user name s a h.0.0 ∙ k.0 in
      elim (Bool-cases (text_eq a.user name)) [
        | inl q ↦ rw (m, q) (rw (h.0.1, password_of) refl)
        | inr q ↦ rw (m, q) (get_server-lookup key name servers table h.1 k.1)
      ]

  pub get_password-lookup :
      (call : Call) (table : List Server) (file : Option Text) (name : Text)
      → Works call
      → Stored gcm json readable table file
      → AreLiteral compile name table
      → get_password compile gcm json call.draws file name ≡ found (lookup name table)
  unfolding get_password
  get_password-lookup call table file name w h k =
      let (conf, read, s) = get_config-Sound gcm json readable call table file w h in
      rw (read, get_password) (get_server-lookup conf.key name conf.servers table s.holds k)

  -- After any sequence of INSERTs, of UPDATEs of a user's password and of DELETEs by user, in which
  -- neither the random source nor the file fails, the password of a name is the one that the
  -- sequence gives it on a plain table, or is not found if it gives none: if each user of that table, as a pattern, matches the name exactly
  -- if it is the name.
  pub get_password-manage_all :
      (cs : List (Call × Statement)) (call : Call) (table : List Server) (file : Option Text)
      (name : Text)
      → All (λ c. Works c.0 × Fits gcm json readable c.1) cs
      → Works call
      → Stored gcm json readable table file
      → AreLiteral compile name (apply_all (map (λ c. c.1) cs) table).1
      → get_password compile gcm json call.draws (manage_all gcm json cs file).1 name
        ≡ found (lookup name (apply_all (map (λ c. c.1) cs) table).1)
  get_password-manage_all cs call table file name all w h k =
      get_password-lookup call (apply_all (map (λ c. c.1) cs) table).1
        (manage_all gcm json cs file).1 name w
        (manage_all-Stored gcm json readable cs table file all h).1 k
