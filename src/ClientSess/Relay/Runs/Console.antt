-- ===== src/ClientSess/Relay/Runs/Console.antt =====
-- A login with a name that the console has given a password.
use mysql8_audit_proxy.Base.{refl, none, Text, codes, arith}
use mysql8_audit_proxy.SendTask.Worker.Runs.{supply, rounds, packets, target}
use mysql8_audit_proxy.SendTask.Worker.Forwarding.{wires}
use mysql8_audit_proxy.ClientSess.Relay.{session_worker}
use mysql8_audit_proxy.ClientSess.Relay.Login.{log_of_session, Relayed, logged_as}
use mysql8_audit_proxy.ClientSess.Relay.Accounts.{Administered, session_worker-manage_all}
use mysql8_audit_proxy.ServerConfig.Service.{get_password}
use mysql8_audit_proxy.ServerConfig.Accounts.{manage_all}
use mysql8_audit_proxy.ServerConfig.Runs.{plain, framed_json}
use mysql8_audit_proxy.ServerConfig.Runs.Accounts.{
  compile, readable, statements, table, without_file, call, call-Works, statements-Fits,
  statements-AreLiteral, statements-lookup,
}
use mysql8_audit_proxy.ClientSess.Relay.Runs.{peers, client_sends, target_sends}

administered :
    Administered compile plain framed_json
      (codes "root@db")
      (codes "new")
      (manage_all plain framed_json statements none).1
administered = record {
  readable = readable;
  commands = statements;
  table = table;
  before = none;
  all = statements-Fits;
  stored = without_file;
  file_eq = refl;
  literal = statements-AreLiteral;
  given = statements-lookup;
}

session_worker-manage_all_example :
    Relayed {E = Unit {0}}
      (λ (w : Text). w)
      (λ (w : Text). w)
      peers
      (log_of_session (logged_as (codes "root") (codes "test") peers) supply rounds supply packets)
      (wires packets)
      (codes "ok")
      (session_worker target target 0
        (get_password compile plain framed_json call.draws
          (manage_all plain framed_json statements none).1)
        (λ c. none)
        (codes "admin")
        (codes "root@db")
        (codes "test")
        peers)
session_worker-manage_all_example =
    session_worker-manage_all (λ w. w) (λ w. w) target (λ b w. (refl, refl)) target
      (λ b w. (refl, refl)) 0 compile plain framed_json (λ c. none) (codes "admin") (codes "root")
      (codes "db") (codes "test") (codes "new") (manage_all plain framed_json statements none).1
      call peers packets (codes "ok") administered call-Works (λ e. cc)
      (omega arith, (omega arith, (omega arith, (omega arith, tt))))
      (omega arith, (omega arith, tt))
      (omega arith, (omega arith, (omega arith, (omega arith, tt)))) refl client_sends target_sends
