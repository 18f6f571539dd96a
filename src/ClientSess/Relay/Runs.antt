-- ===== src/ClientSess/Relay/Runs.antt =====
-- A login whose client sends one packet and gets one back.
mod Console
use mysql8_audit_proxy.Base.{
  ℕ, ◌^◌, ◌<◌, ◌≡◌, refl, inl, false, Option, none, some, List, [], ◌∷◌, ◌++◌, Text, codes, length,
  take, drop, take-length-append, drop-length-append, All, arith, Result, ok,
}
use mysql8_audit_proxy.Base.Bytes.{le_bytes}
use mysql8_audit_proxy.SendTask.Worker.Runs.{
  task, supply, rounds, packets, arrivals, closing, target, ready,
}
use mysql8_audit_proxy.SendTask.Worker.Forwarding.{wires}
use mysql8_audit_proxy.SendPacket.{SendPacket}
use mysql8_audit_proxy.SendPacket.RoundTrip.{IsEncodable}
use mysql8_audit_proxy.SendTask.Packets.Header.{wire}
use mysql8_audit_proxy.SendTask.Worker.{new_send_packet, worker}
use mysql8_audit_proxy.LogDecoder.Records.{records}
use mysql8_audit_proxy.LogDecoder.{finished}
use mysql8_audit_proxy.LogDecoder.Commands.{protocol, protocol-IsInjective}
use mysql8_audit_proxy.AuditLog.{fmt_version, new_audit_log_writer, log_write_worker}
use mysql8_audit_proxy.AuditLog.Names.{Time, time2path}
use mysql8_audit_proxy.AuditLog.Journal.{events_of}
use mysql8_audit_proxy.AuditLog.Reader.{printed, print_file}
use mysql8_audit_proxy.ClientSess.Relay.Audit.{
  query_packets, printed_session, entries_of, print_file-worker,
}
use mysql8_audit_proxy.Timeoutnet.{eof}
use mysql8_audit_proxy.ClientSess.Relay.{Peers, send_task, session_worker}
use mysql8_audit_proxy.ClientSess.Relay.Login.{
  log_of_session, Relayed, ClientSends, TargetSends, asked, logged_as, session_worker-Relayed,
}
use mysql8_audit_proxy.ServerConfig.Service.{get_password}
use mysql8_audit_proxy.ServerConfig.Accounts.{manage_all}
use mysql8_audit_proxy.ServerConfig.Runs.{plain, framed_json}
use mysql8_audit_proxy.ServerConfig.Runs.Accounts.{
  compile, readable, statements, table, without_file, call, call-Works, statements-Fits,
  statements-AreLiteral, statements-lookup,
}

abbrev pub peers : Peers Text Text
peers = record {
  conn_id = 7;
  remote_addr = codes "::1";
  first = supply;
  rounds = rounds;
  last = supply;
  target_writer = [];
  client_input = arrivals ++ (closing ∷ []);
  client_writer = [];
  target_input =
      record { cancelled = false; bytes = codes "ok"; error = none }
      ∷ record { cancelled = false; bytes = []; error = some eof }
      ∷ [];
}

pub client_sends : ClientSends packets peers
unfolding le_bytes
client_sends = record {
  arrivals = arrivals;
  closing = closing;
  rest = [];
  input = refl;
  data_only = (inl refl, (inl refl, (inl refl, tt)));
  packets = refl;
  closes = (refl, refl);
  short = (omega arith, tt);
  ready = (ready, (ready, tt));
  enough = omega arith;
  first_taken = refl;
  last_taken = refl;
}

pub target_sends : TargetSends (Unit {0}) (codes "ok") peers
target_sends = record {
  arrivals = record { cancelled = false; bytes = codes "ok"; error = none } ∷ [];
  closing = record { cancelled = false; bytes = []; error = some eof };
  rest = [];
  error = none;
  input = refl;
  data_only = ((refl, inl refl), tt);
  content = refl;
  closes = inl (refl, refl, refl);
}

abbrev pub stored : Text → Result (Unit {0}) Text
stored name = ok (codes "secret")

session_worker-Relayed_example :
    Relayed {E = Unit {0}}
      (λ (w : Text). w)
      (λ (w : Text). w)
      peers
      (log_of_session (logged_as (codes "root") (codes "test") peers) supply rounds supply packets)
      (wires packets)
      (codes "ok")
      (session_worker target target 0 stored
        (λ c. none)
        (codes "admin")
        (codes "root@db")
        (codes "test")
        peers)
session_worker-Relayed_example =
    session_worker-Relayed (λ w. w) (λ w. w) target (λ b w. (refl, refl)) target
      (λ b w. (refl, refl)) 0 stored (λ c. none) (codes "admin") (codes "root") (codes "db")
      (codes "test") (codes "secret") peers packets (codes "ok") (λ e. cc)
      (omega arith, (omega arith, (omega arith, (omega arith, tt))))
      (omega arith, (omega arith, tt))
      (omega arith, (omega arith, (omega arith, (omega arith, tt)))) refl refl client_sends
      target_sends

session_fits :
    (state packets : Text)
    → length state < 2 ^ 32
    → length packets < 2 ^ 32
    → IsEncodable (record (new_send_packet task supply).packet { state = state; packets = packets })
unfolding new_send_packet
session_fits state packets h k = record {
  datetime_fits = omega arith;
  connection_id_fits = omega arith;
  user_fits = omega arith;
  db_fits = omega arith;
  addr_fits = omega arith;
  state_fits = h;
  error_fits = omega arith;
  packets_fits = k;
  cmd_fits = omega arith;
}

-- `Read` that fills the slice, if there is enough.
abbrev read : ℕ → Text → (Text × Option (Unit {0})) × Text
read n stream = ((take n stream, none), drop n stream)

read_whole : (b rest : Text) → read (length b) (b ++ rest) ≡ ((b, none), rest)
read_whole b rest = rw (take-length-append b rest, drop-length-append b rest) refl

abbrev log : List SendPacket
log = log_of_session task supply rounds supply (query_packets 3 ((0, codes "select 1") ∷ []))

log_fits : All IsEncodable log
unfolding le_bytes new_send_packet
log_fits = (
  session_fits (codes "connect") [] (omega arith) (omega arith),
  (
    session_fits (codes "est") (wire 0 (3 ∷ codes "select 1")) (omega arith) (omega arith),
    (session_fits (codes "disconnect") [] (omega arith) (omega arith), tt),
  ),
)

abbrev midnight : Time
midnight = record { year = 2024; month = 5; day = 6; hour = 0; minute = 0; second = 0 }

print_file-worker_example :
    print_file read protocol (
      (log_write_worker
          (codes "a.%H")
          (events_of (
            entries_of
              (worker target 0 task supply rounds supply [] (arrivals ++ (closing ∷ []))).1.logged))
          (new_audit_log_writer (codes "a.%H") midnight (λ p. none) []).1).1.disk
        (time2path (codes "a.%H") midnight))
    ≡ printed (printed_session task supply rounds supply ((0, codes "select 1") ∷ []), finished)
print_file-worker_example =
    print_file-worker protocol read (λ w. w) target (λ b w. (refl, refl)) 0 task peers
      ((0, codes "select 1") ∷ []) (codes "a.%H") midnight (λ p. none)
      (record { files = λ p. none; current = [] }) protocol-IsInjective client_sends
      (read_whole fmt_version (records log)) log_fits (λ p. refl) refl
