-- ===== src/ProxySrv.antt =====
-- The proxy server of pkg/mysqlproxy/proxysrv.go: `Start` with its listener and the loop that accepts
-- connections, `sessionWorker` from the handshake on, and the loop of the admin console.
pub mod Panic
pub mod Accepting
mod Runs
use mysql8_audit_proxy.Base.{
  ℕ, zero, suc, Bool, true, false, Option, none, some, List, [], ◌∷◌, map, Text, Result, ok, err,
  if◌then◌else◌,
}
use mysql8_audit_proxy.Timeoutnet.{Written}
use mysql8_audit_proxy.GeneratePem
use mysql8_audit_proxy.GeneratePem.{Pems, GenerateError, Crypto, generate}
use mysql8_audit_proxy.SendTask.Worker.{panicked}
use mysql8_audit_proxy.ClientSess.Relay.{ClientSess, Peers, SessionEnd, relayed, session_worker}

-- What one call of `Accept` meets: whether the context is done behind it, and what it returns.
pub record AcceptCall (E N : Type 0) : Type 0 where
  pub done : Bool
  pub result : Result E N

-- The loop has returned, or it waits for the next connection.
pub data AcceptEnd : Type 0 where
  stopped accepting : AcceptEnd

module _ {E N : Type 0} where
  -- An error is logged, and the loop goes on.
  abbrev pub with_worker : Result E N → List N × AcceptEnd → List N × AcceptEnd
  with_worker (ok conn) (conns, end) = (conn ∷ conns, end)
  with_worker (err e) rest = rest

  -- The connections for which a session is started, in their order.
  unfoldable pub accept_clnt_conn : List (AcceptCall E N) → List N × AcceptEnd
  accept_clnt_conn [] = ([], accepting)
  accept_clnt_conn (a ∷ calls) =
      let rest = accept_clnt_conn calls in
      if a.done then ([], stopped) else with_worker a.result rest

-- `cannot_listen` is returned; the others end the program.
pub data StartError (E : Type 0) : Type 0 where
  cannot_listen bad_environment : E → StartError E
  no_certificates : GenerateError E → StartError E

-- What the TLS configuration and the handshake get.
pub record Listener : Type 0 where
  pub ca_cert : Text
  pub server_pems : Pems

abbrev pub with_pems :
    {E : Type 0} → Pems × Pems × Option (GenerateError E) → Result (StartError E) Listener
with_pems (ca, server, some e) = err (no_certificates e)
with_pems (ca, server, none) = ok (record { ca_cert = ca.cert; server_pems = server })

-- `listened` is the error of `net.Listen`, and `environment` what the environment says of the
-- certificates, with HOST set to localhost.
unfoldable pub create_listener :
    {E Key Ip : Type 0}
    → Crypto E Key Ip
    → Option E
    → Result E GeneratePem.Config
    → ℕ
    → Result (StartError E) Listener
create_listener crypto (some e) environment now = err (cannot_listen e)
create_listener crypto none (err e) now = err (bad_environment e)
create_listener crypto none (ok c) now = with_pems (generate crypto c now)

-- What a client has given in the handshake: the name, and the data base for `UseDB`.
pub record Login : Type 0 where
  pub user : Text
  pub db : Text

-- How a session ends: in the handshake, with an error or a panic, or behind it.
pub data ConnEnd (E W C : Type 0) : Type 0 where
  refused : E → ConnEnd E W C
  handshake_panicked : ConnEnd E W C
  served : SessionEnd E W C → ConnEnd E W C

-- What the server comes to: its sessions and its loop, or the end of the program by a panic in a
-- goroutine, wherever the other sessions are then.
pub data ServerEnd (E W C : Type 0) : Type 0 where
  serving : List (ConnEnd E W C) → AcceptEnd → ServerEnd E W C
  crashed : ServerEnd E W C

-- The packet task may panic.
abbrev pub panics : {E W C : Type 0} → ConnEnd E W C → Bool
panics handshake_panicked = true
panics (served (relayed (panicked, s) copied)) = true
panics _ = false

-- Nothing recovers from a panic.
abbrev pub ends_with : {E W C : Type 0} → List (ConnEnd E W C) → ServerEnd E W C → ServerEnd E W C
ends_with [] otherwise = otherwise
ends_with (e ∷ ends) otherwise =
    let rest = ends_with ends otherwise in if panics e then crashed else rest

-- The results of the calls of `HandleCommand` up to the first error, and that error.
unfoldable pub admin : {E : Type 0} → List (Option E) → ℕ × Option E
admin [] = (0, none)
admin (none ∷ results) = let (n, e) = admin results in (suc n, e)
admin (some e ∷ results) = (0, some e)

-- `handshake` is `NewCustomizedConn` of the MySQL library, which asks the provider of the passwords, and
-- is `none` if it panics; behind it the provider is asked for the same name again, and answers.
-- `peers` is what the session of a connection meets.
module _ {E G W C N : Type 0} (write_target : Text → W → (ℕ × Option E) × W)
    (write_client : Text → C → Written E C) (spare : ℕ) (get_password : Text → Result G Text)
    (connect : ClientSess → Option E) (admin_user : Text)
    (handshake : Listener → N → Option (Result E Login)) (peers : N → Peers W C) where
  abbrev pub after_handshake : N → Option (Result E Login) → ConnEnd E W C
  after_handshake conn none = handshake_panicked
  after_handshake conn (some (err e)) = refused e
  after_handshake conn (some (ok l)) = served (
      session_worker write_target write_client spare get_password connect admin_user l.user l.db
        (peers conn))

  -- `sessionWorker`.
  unfoldable pub serve : Listener → N → ConnEnd E W C
  serve listener conn = after_handshake conn (handshake listener conn)

  abbrev pub run_listener :
      Result (StartError E) Listener
      → List (AcceptCall E N)
      → Result (StartError E) (ServerEnd E W C)
  run_listener (err e) calls = err e
  run_listener (ok listener) calls =
      let (conns, end) = accept_clnt_conn calls in
      let ends = map (serve listener) conns in ok (ends_with ends (serving ends end))

  -- `Start`: how its sessions end, each in a goroutine of its own.
  unfoldable pub start_server :
      {Key Ip : Type 0}
      → Crypto E Key Ip
      → Option E
      → Result E GeneratePem.Config
      → ℕ
      → List (AcceptCall E N)
      → Result (StartError E) (ServerEnd E W C)
  unfolding create_listener
  start_server crypto listened environment now calls =
      run_listener (create_listener crypto listened environment now) calls
