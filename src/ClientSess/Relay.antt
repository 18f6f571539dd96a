-- ===== src/ClientSess/Relay.antt =====
-- `Proxy` of pkg/mysqlproxy/clntsess.go, which relays a session in both directions, and `sessionWorker`
-- of proxysrv.go behind the handshake.
pub mod Login
pub mod Accounts
pub mod Audit
pub mod Runs
use mysql8_audit_proxy.Base.{ℕ, Option, none, some, List, Text, Result}
use mysql8_audit_proxy.SendTask
use mysql8_audit_proxy.SendTask.Worker.{SendTask, Supply, Round, Session, WorkerEnd, worker}
use mysql8_audit_proxy.Timeoutnet
use mysql8_audit_proxy.Timeoutnet.{Written, Copied, write_to}
use mysql8_audit_proxy.Proxy
use mysql8_audit_proxy.Proxy.Session.{admin, target, session}

-- The fields of `ClientSess` that are texts; the network is always "tcp".
pub record ClientSess : Type 0 where
  pub target_addr : Text
  pub target_user : Text
  pub target_password : Text
  pub target_db : Text

-- What a session meets: the number and the address of the client's connection, what the task of its
-- packets meets, and the two connections with what arrives from them.
pub record Peers (W C : Type 0) : Type 0 where
  pub conn_id : ℕ
  pub remote_addr : Text
  pub first : Supply
  pub rounds : List Round
  pub last : Supply
  pub target_writer : W
  pub client_input : List SendTask.Arrival
  pub client_writer : C
  pub target_input : List Timeoutnet.Arrival

-- The admin console, an error of the connection to the target, or what the two directions came to.
pub data SessionEnd (E W C : Type 0) : Type 0 where
  console : SessionEnd E W C
  not_connected : E → SessionEnd E W C
  relayed : WorkerEnd E × Session W → Copied E C → SessionEnd E W C

-- The log gets the user and the data base of the target.
abbrev pub send_task : {W C : Type 0} → ClientSess → Peers W C → SendTask
send_task c p = record {
  user = c.target_user;
  db = c.target_db;
  remote_addr = p.remote_addr;
  conn_id = p.conn_id;
}

-- `write_target` and `write_client` are the `Write`s of the two connections. How the end of one direction
-- cancels the reads of the other is in what arrives.
module _ {E W C : Type 0} (write_target : Text → W → (ℕ × Option E) × W)
    (write_client : Text → C → Written E C) (spare : ℕ) where
  unfoldable pub relay : ClientSess → Peers W C → SessionEnd E W C
  unfolding worker write_to
  relay c p =
      relayed
        (worker write_target spare (send_task c p) p.first p.rounds p.last p.target_writer
          p.client_input)
        (write_to write_client p.client_writer p.target_input)

  -- `ConnectToMySQL` has returned an error, or none.
  unfoldable pub connected : Option E → ClientSess → Peers W C → SessionEnd E W C
  unfolding relay
  connected (some e) c p = not_connected e
  connected none c p = relay c p

  -- `connect` is the connection to the target, by the MySQL library, with the error it returns.
  unfoldable pub after_login :
      (ClientSess → Option E) → Peers W C → Proxy.Session.Session → SessionEnd E W C
  unfolding connected
  after_login connect p admin = console
  after_login connect p (target addr user password db) =
      let c : ClientSess = record {
        target_addr = addr;
        target_user = user;
        target_password = password;
        target_db = db;
      } in
      connected (connect c) c p

  unfoldable pub session_worker :
      {G : Type 0}
      → (Text → Result G Text)
      → (ClientSess → Option E)
      → Text
      → Text
      → Text
      → Peers W C
      → SessionEnd E W C
  unfolding after_login
  session_worker get_password connect admin_user user db p =
      after_login connect p (session get_password admin_user user db)
