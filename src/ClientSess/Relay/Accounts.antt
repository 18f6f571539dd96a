-- ===== src/ClientSess/Relay/Accounts.antt =====
-- A login with a name that the admin console has given a password.
use mysql8_audit_proxy.Base.{
  ℕ, ◌≡◌, ◌≢◌, ap, ◌∙◌, Bool, Option, none, some, List, ◌∷◌, ◌++◌, map, Text, length, All, IsFree,
  ok,
}
use mysql8_audit_proxy.SendTask.Worker.Forwarding.{wires}
use mysql8_audit_proxy.Timeoutnet.{Written}
use mysql8_audit_proxy.ServerConfig.Crypt.{Gcm}
use mysql8_audit_proxy.ServerConfig.Query.{Server}
use mysql8_audit_proxy.ServerConfig.Config.{Json}
use mysql8_audit_proxy.ServerConfig.Service.{Call, get_password}
use mysql8_audit_proxy.ServerConfig.Accounts.{
  Statement, lookup, apply_all, manage_all, IsReadable, Works, Stored, Fits,
}
use mysql8_audit_proxy.ServerConfig.Accounts.Logins.{found, AreLiteral, get_password-manage_all}
use mysql8_audit_proxy.ClientSess.Relay.{ClientSess, Peers, session_worker}
use mysql8_audit_proxy.ClientSess.Relay.Login.{
  log_of_session, Relayed, ClientSends, TargetSends, asked, logged_as, session_worker-Relayed,
}

-- What the console has done before a login, and the users that are left then.
pub record Administered (compile : Text → Option (Text → Bool)) (gcm : Gcm) (json : Json)
    (name password : Text) (file : Option Text) : Type 1 where
  pub readable : IsReadable json
  pub commands : List (Call × Statement)
  pub table : List Server
  pub before : Option Text
  pub all : All (λ c. Works c.0 × Fits gcm json readable c.1) commands
  pub stored : Stored gcm json readable table before
  pub file_eq : file ≡ (manage_all gcm json commands before).1
  pub literal : AreLiteral compile name (apply_all (map (λ c. c.1) commands) table).1
  pub given : lookup name (apply_all (map (λ c. c.1) commands) table).1 ≡ some password

module _ {E W C : Type 0} (target_view : W → Text) (client_view : C → Text)
    (write_target : Text → W → (ℕ × Option E) × W)
    (target_takes : (b : Text) (w : W)
      → ((write_target b w).0 ≡ (length b, none))
        × (target_view (write_target b w).1 ≡ target_view w ++ b))
    (write_client : Text → C → Written E C)
    (client_takes : (b : Text) (w : C)
      → ((write_client b w).0 ≡ (length b, none))
        × (client_view (write_client b w).1 ≡ client_view w ++ b))
    (spare : ℕ) (compile : Text → Option (Text → Bool)) (gcm : Gcm) (json : Json)
    (connect : ClientSess → Option E) (admin_user user server db : Text) where
  -- A client logs in as `user@server` after the console has run INSERTs, UPDATEs of a user's
  -- password and DELETEs by user that leave a row of this name. If the target accepts the user with
  -- the row's plain password, then the target gets what the client sends, the client what the target sends, and the log the connect,
  -- the packets and the disconnect: if in the console and at the login neither the random source
  -- nor the file fails, each user as a pattern matches the name exactly if it is the name, the
  -- client sends whole packets whose lengths fit, both connections take all bytes, the queue
  -- takes each packet, and the name is not the admin's and is free of further separators.
  pub session_worker-manage_all :
      (password : Text) (file : Option Text) (call : Call) (p : Peers W C) (ps : List (ℕ × Text))
      (back : Text)
      → Administered compile gcm json (user ++ (b'@' ∷ server)) password file
      → Works call
      → user ++ (b'@' ∷ server) ≢ admin_user
      → IsFree b'@' user
      → IsFree b'@' server
      → IsFree b':' user
      → connect (asked user server db password) ≡ none
      → ClientSends ps p
      → TargetSends E back p
      → Relayed target_view client_view p
          (log_of_session (logged_as user db p) p.first p.rounds p.last ps)
          (wires ps)
          back
          (session_worker write_target write_client spare
            (get_password compile gcm json call.draws file)
            connect
            admin_user
            (user ++ (b'@' ∷ server))
            db
            p)
  session_worker-manage_all password file call p ps back a w ne hu hs hc accepts h k =
      let name = user ++ (b'@' ∷ server) in
      let known : get_password compile gcm json call.draws file name ≡ ok password =
        ap (λ f. get_password compile gcm json call.draws f name) a.file_eq
        ∙ get_password-manage_all compile gcm json a.readable a.commands call a.table a.before name
            a.all w a.stored a.literal
        ∙ ap found a.given in
      session_worker-Relayed target_view client_view write_target target_takes write_client
        client_takes spare (get_password compile gcm json call.draws file) connect admin_user user
        server db password p ps back ne hu hs hc known accepts h k
