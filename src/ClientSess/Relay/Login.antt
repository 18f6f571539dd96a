-- ===== src/ClientSess/Relay/Login.antt =====
-- From the name of a login to the bytes of both directions and the records of the log.
use mysql8_audit_proxy.Base.{
  ℕ, ◌+◌, ◌%◌, ◌^◌, ◌<◌, ◌≡◌, ◌≢◌, true, ap, ◌∙◌, Option, none, List, [], ◌∷◌, ◌++◌, Text, codes,
  length, All, IsFree, Result, ok, arith,
}
use mysql8_audit_proxy.SendPacket.{SendPacket}
use mysql8_audit_proxy.SendTask
use mysql8_audit_proxy.SendTask.Reading
use mysql8_audit_proxy.SendTask.Reading.{IsClosing}
use mysql8_audit_proxy.SendTask.Worker.{SendTask, Supply, Round, Session, ended, worker}
use mysql8_audit_proxy.SendTask.Worker.Forwarding.{
  wires, IsShort, IsReady, records_of, state_of, worker-Done,
}
use mysql8_audit_proxy.Timeoutnet
use mysql8_audit_proxy.Timeoutnet.{Written, CopyError, Copied, returned, write_to}
use mysql8_audit_proxy.Timeoutnet.Forwarding
use mysql8_audit_proxy.Timeoutnet.Forwarding.{EndsWith, write_to-Forwarded}
use mysql8_audit_proxy.Proxy.Target.{add_port}
use mysql8_audit_proxy.Proxy.Session.{session-stored}
use mysql8_audit_proxy.ClientSess.Relay.{
  ClientSess, Peers, SessionEnd, relayed, send_task, relay, connected, after_login, session_worker,
}

-- What the log gets of a session with the packets.
abbrev pub log_of_session :
    SendTask → Supply → List Round → Supply → List (ℕ × Text) → List SendPacket
log_of_session st first rounds last ps =
    state_of st first (codes "connect")
    ∷ (records_of st rounds ps ++ (state_of st last (codes "disconnect") ∷ []))

-- Both directions have ended: the target has got the bytes `out`, the client the bytes `back`, and
-- the log the records.
pub record Relayed {E W C : Type 0} (target_view : W → Text) (client_view : C → Text)
    (p : Peers W C) (records : List SendPacket) (out back : Text) (r : SessionEnd E W C)
    : Type 0 where
  pub task : Session W
  pub client : C
  pub error : Option (CopyError E)
  pub ends : r ≡ relayed (ended, task) (returned (length back % 2 ^ 64) error client)
  pub logged : task.logged ≡ records
  pub sent_on : target_view task.writer ≡ target_view p.target_writer ++ out
  pub sent_back : client_view client ≡ client_view p.client_writer ++ back

-- The packets `ps` arrive, in whatever parts, and then the end of the connection; the task is supplied.
pub record ClientSends {W C : Type 0} (ps : List (ℕ × Text)) (p : Peers W C) : Type 0 where
  pub arrivals : List SendTask.Arrival
  pub closing : SendTask.Arrival
  pub rest : List SendTask.Arrival
  pub input : p.client_input ≡ arrivals ++ (closing ∷ rest)
  pub data_only : All Reading.IsData arrivals
  pub packets : Reading.content arrivals ≡ wires ps
  pub closes : IsClosing closing
  pub short : All IsShort ps
  pub ready : All IsReady p.rounds
  pub enough : length ps < length p.rounds
  pub first_taken : p.first.taken ≡ true
  pub last_taken : p.last.taken ≡ true

-- The bytes `back` arrive, and then the end of the connection, or of the context.
pub record TargetSends {W C : Type 0} (E : Type 0) (back : Text) (p : Peers W C) : Type 0 where
  pub arrivals : List Timeoutnet.Arrival
  pub closing : Timeoutnet.Arrival
  pub rest : List Timeoutnet.Arrival
  pub error : Option (CopyError E)
  pub input : p.target_input ≡ arrivals ++ (closing ∷ rest)
  pub data_only : All Forwarding.IsData arrivals
  pub content : Forwarding.content arrivals ≡ back
  pub closes : EndsWith closing error

-- What the login `user@server` asks of the target.
abbrev pub asked : Text → Text → Text → Text → ClientSess
asked user server db password = record {
  target_addr = add_port server;
  target_user = user;
  target_password = password;
  target_db = db;
}

-- The fields of the session's records in the log, but for the time.
abbrev pub logged_as : {W C : Type 0} → Text → Text → Peers W C → SendTask
logged_as user db p = record {
  user = user;
  db = db;
  remote_addr = p.remote_addr;
  conn_id = p.conn_id;
}

module _ {E W C : Type 0} (target_view : W → Text) (client_view : C → Text)
    (write_target : Text → W → (ℕ × Option E) × W)
    (target_takes : (b : Text) (w : W)
      → ((write_target b w).0 ≡ (length b, none))
        × (target_view (write_target b w).1 ≡ target_view w ++ b))
    (write_client : Text → C → Written E C)
    (client_takes : (b : Text) (w : C)
      → ((write_client b w).0 ≡ (length b, none))
        × (client_view (write_client b w).1 ≡ client_view w ++ b))
    (spare : ℕ) where
  relay-Relayed :
      (c : ClientSess) (p : Peers W C) (ps : List (ℕ × Text)) (back : Text)
      → ClientSends ps p
      → TargetSends E back p
      → Relayed target_view client_view p
          (log_of_session (send_task c p) p.first p.rounds p.last ps)
          (wires ps)
          back
          (relay write_target write_client spare c p)
  unfolding relay
  relay-Relayed c p ps back h k =
      let st = send_task c p in
      let d =
        worker-Done target_view write_target target_takes spare st ps p.first p.rounds p.last
          p.target_writer h.arrivals h.closing h.rest h.short h.ready h.enough h.first_taken
          h.last_taken h.data_only h.packets h.closes in
      let f =
        write_to-Forwarded client_view write_client client_takes k.arrivals p.client_writer
          k.closing k.rest k.error k.data_only k.closes in
      let counted : 0 + length (Forwarding.content k.arrivals) ≡ length back =
        omega (arith, ap length k.content) in
      let copied = write_to write_client p.client_writer p.target_input in
      record {
        task = d.last;
        client = f.last;
        error = k.error;
        ends =
            ap
              (λ input.
                relayed (worker write_target spare st p.first p.rounds p.last p.target_writer input)
                  copied)
              h.input
            ∙ ap (λ r. relayed r copied) d.ends
            ∙ ap (λ input. relayed (ended, d.last) (write_to write_client p.client_writer input))
                k.input
            ∙ ap (relayed (ended, d.last)) f.ends
            ∙ ap (λ n. relayed (ended, d.last) (returned (n % 2 ^ 64) k.error f.last)) counted;
        logged = d.logged;
        sent_on = d.written;
        sent_back = f.forwarded ∙ ap (λ b. client_view p.client_writer ++ b) k.content;
      }

  module _ {G : Type 0} (get_password : Text → Result G Text) (connect : ClientSess → Option E)
      (admin_user user server db : Text) where
    -- A client logs in as `user@server`, a name for which the table has a password, and the target
    -- accepts this user and password. Then the target gets what the client sends, the client what
    -- the target sends, and the log the connect, the packets and the disconnect, with the name
    -- `user`, the data base, and the number and the address of the client's connection: if the client sends whole packets whose lengths fit, both connections take all bytes,
    -- the queue takes each packet, and the name is not the admin's and is free of further
    -- separators.
    pub session_worker-Relayed :
        (password : Text) (p : Peers W C) (ps : List (ℕ × Text)) (back : Text)
        → user ++ (b'@' ∷ server) ≢ admin_user
        → IsFree b'@' user
        → IsFree b'@' server
        → IsFree b':' user
        → get_password (user ++ (b'@' ∷ server)) ≡ ok password
        → connect (asked user server db password) ≡ none
        → ClientSends ps p
        → TargetSends E back p
        → Relayed target_view client_view p
            (log_of_session (logged_as user db p) p.first p.rounds p.last ps)
            (wires ps)
            back
            (session_worker write_target write_client spare get_password connect admin_user
              (user ++ (b'@' ∷ server))
              db
              p)
    unfolding session_worker after_login connected
    session_worker-Relayed password p ps back ne hu hs hc stored accepts h k =
        let c = asked user server db password in
        let r = relay-Relayed c p ps back h k in
        record {
          task = r.task;
          client = r.client;
          error = r.error;
          ends =
              ap (after_login write_target write_client spare connect p)
                (session-stored get_password admin_user user server db password ne hu hs hc stored)
              ∙ ap (λ e. connected write_target write_client spare e c p) accepts
              ∙ r.ends;
          logged = r.logged;
          sent_on = r.sent_on;
          sent_back = r.sent_back;
        }
