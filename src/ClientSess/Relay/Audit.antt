-- ===== src/ClientSess/Relay/Audit.antt =====
-- From what a client sends to what the tool prints.
use mysql8_audit_proxy.Base.{
  ℕ, suc, ◌<◌, ◌≡◌, refl, sym, ap, ◌∙◌, Option, none, some, List, [], ◌∷◌, ◌++◌, Text, codes,
  length, All, arith, text_eq_refl, if◌then◌else◌, append_assoc, append-nil,
}
use mysql8_audit_proxy.SendPacket.{SendPacket}
use mysql8_audit_proxy.SendPacket.RoundTrip.{IsEncodable}
use mysql8_audit_proxy.SendTask.Packets.Header.{header, wire, length-header}
use mysql8_audit_proxy.SendTask.Worker.{
  SendTask, Supply, Round, Session, WorkerEnd, new_send_packet, worker,
}
use mysql8_audit_proxy.SendTask.Worker.Forwarding.{record_of, state_of, records_of, worker-Done}
use mysql8_audit_proxy.LogDecoder.{Packet, finished, trim, copied, as_raw, format_packet}
use mysql8_audit_proxy.LogDecoder.Commands.{Command, com_query, IsInjective}
use mysql8_audit_proxy.LogDecoder.Format.{format_packet-query}
use mysql8_audit_proxy.LogDecoder.Records.{records, Formatted}
use mysql8_audit_proxy.AuditLog.{Disk, new_audit_log_writer, log_write_worker}
use mysql8_audit_proxy.AuditLog.Names.{Time, time2path}
use mysql8_audit_proxy.AuditLog.Journal.{
  Journal, packets_of, put, Entry, packet, events_of, journal, Keeps,
}
use mysql8_audit_proxy.AuditLog.Reader.{printed, print_file}
use mysql8_audit_proxy.AuditLog.Archive.{ReadsVersion, print_file-log_write_worker}
use mysql8_audit_proxy.ClientSess.Relay.Login.{log_of_session, ClientSends}
use mysql8_audit_proxy.ClientSess.Relay.{Peers}

-- What is printed of a session's record with a state and a command.
abbrev pub printed_of : SendTask → Supply → Text → Text → Packet
printed_of st u state cmd = record {
  datetime = u.now;
  connection_id = st.conn_id;
  user = st.user;
  db = st.db;
  addr = st.remote_addr;
  state = state;
  error = u.pooled.packet.error;
  packets = [];
  cmd = cmd;
}

-- Numbered statements as packets, and as they are printed.
abbrev pub query_packets : ℕ → List (ℕ × Text) → List (ℕ × Text)
query_packets byte [] = []
query_packets byte ((n, sql) ∷ qs) = (n, byte ∷ sql) ∷ query_packets byte qs

abbrev pub statements : SendTask → List Round → List (ℕ × Text) → List Packet
statements st rounds [] = []
statements st [] (q ∷ qs) = []
statements st (r ∷ rounds) ((n, sql) ∷ qs) =
    printed_of st r.supply (codes "est") sql ∷ statements st rounds qs

abbrev pub printed_session : SendTask → Supply → List Round → Supply → List (ℕ × Text) → List Packet
printed_session st first rounds last qs =
    printed_of st first (codes "connect") []
    ∷ (statements st rounds qs ++ (printed_of st last (codes "disconnect") [] ∷ []))

abbrev pub entries_of : List SendPacket → List Entry
entries_of [] = []
entries_of (p ∷ ps) = packet p ∷ entries_of ps

put_current :
    (path : Text) (ps qs : List SendPacket) (j : Journal)
    → j.files path ≡ some qs
    → (put path ps j).files path ≡ some (qs ++ ps)
put_current path ps qs j h =
    ap (λ b. if b then some (packets_of (j.files path) ++ ps) else j.files path) (text_eq_refl path)
    ∙ ap (λ o. some (packets_of o ++ ps)) h

put_new : (path : Text) (j : Journal) → j.files path ≡ none → (put path [] j).files path ≡ some []
put_new path j h =
    ap (λ b. if b then some (packets_of (j.files path) ++ []) else j.files path) (text_eq_refl path)
    ∙ ap (λ o. some (packets_of o ++ [])) h

-- Without a tick the packets go to one file.
journal-entries_of :
    (file_path : Text) (ps qs : List SendPacket) (j : Journal)
    → j.files j.current ≡ some qs
    → (journal file_path (entries_of ps) j).files j.current ≡ some (qs ++ ps)
journal-entries_of file_path [] qs j h = h ∙ ap some (sym (append-nil qs))
journal-entries_of file_path (p ∷ ps) qs j h =
    journal-entries_of file_path ps (qs ++ (p ∷ [])) (put j.current (p ∷ []) j)
      (put_current j.current (p ∷ []) qs j h)
    ∙ ap some (append_assoc qs (p ∷ []) ps)

module _ (byte_of : Command → ℕ) where
  format_packet-state_of :
      (st : SendTask) (u : Supply) (state : Text)
      → format_packet byte_of (state_of st u state) ≡ some (printed_of st u state [])
  unfolding format_packet trim as_raw copied new_send_packet
  format_packet-state_of st u state = refl

  format_packet-record_of :
      (st : SendTask) (u : Supply) (n : ℕ) (sql : Text)
      → IsInjective byte_of
      → format_packet byte_of (record_of st u (wire n (byte_of com_query ∷ sql)))
        ≡ some (printed_of st u (codes "est") sql)
  unfolding copied new_send_packet
  format_packet-record_of st u n sql inj =
      format_packet-query byte_of (record_of st u (wire n (byte_of com_query ∷ sql))) sql inj
        (record {
          header = header n (byte_of com_query ∷ sql);
          header_length = length-header n (byte_of com_query ∷ sql);
          packets_are = refl;
        })

  records_of-Formatted :
      (st : SendTask) (rounds : List Round) (qs : List (ℕ × Text)) (ps : List SendPacket)
      (fs : List Packet)
      → IsInjective byte_of
      → length qs < length rounds
      → Formatted byte_of ps fs
      → Formatted byte_of
          (records_of st rounds (query_packets (byte_of com_query) qs) ++ ps)
          (statements st rounds qs ++ fs)
  records_of-Formatted st rounds [] ps fs inj h k = k
  records_of-Formatted st [] (q ∷ qs) ps fs inj h k = absurd (omega arith)
  records_of-Formatted st (r ∷ rounds) ((n, sql) ∷ qs) ps fs inj h k = (
    format_packet-record_of st r.supply n sql inj,
    records_of-Formatted st rounds qs ps fs inj (omega arith) k,
  )

  module _ {E : Type 0} (read : ℕ → Text → (Text × Option E) × Text) where
    print_file-log_of_session :
        (st : SendTask) (first : Supply) (rounds : List Round) (last : Supply)
        (qs : List (ℕ × Text)) (file_path : Text) (t : Time) (disk : Disk) (j : Journal)
        → IsInjective byte_of
        → length qs < length rounds
        → ReadsVersion read
            (records (log_of_session st first rounds last (query_packets (byte_of com_query) qs)))
        → All IsEncodable
            (log_of_session st first rounds last (query_packets (byte_of com_query) qs))
        → Keeps disk j.files
        → j.files (time2path file_path t) ≡ none
        → print_file read byte_of (
            (log_write_worker file_path
                (events_of (
                  entries_of
                    (log_of_session st first rounds last (query_packets (byte_of com_query) qs))))
                (new_audit_log_writer file_path t disk []).1).1.disk
              (time2path file_path t))
          ≡ printed (printed_session st first rounds last qs, finished)
    print_file-log_of_session st first rounds last qs file_path t disk j inj enough reads fits keeps
          new =
        let log = log_of_session st first rounds last (query_packets (byte_of com_query) qs) in
        let path = time2path file_path t in
        print_file-log_write_worker read byte_of file_path t (entries_of log) disk j path log
          (printed_session st first rounds last qs) keeps
          (journal-entries_of file_path log [] (put path [] j) (put_new path j new)) reads fits
          (
            format_packet-state_of st first (codes "connect"),
            records_of-Formatted st rounds qs _ _ inj enough
                (format_packet-state_of st last (codes "disconnect"), tt),
          )

    query_packets-length :
        (byte : ℕ) (qs : List (ℕ × Text)) → length (query_packets byte qs) ≡ length qs
    query_packets-length byte [] = refl
    query_packets-length byte (q ∷ qs) = ap suc (query_packets-length byte qs)

    module _ {F W C : Type 0} (view : W → Text) (write : Text → W → (ℕ × Option F) × W)
        (takes : (b : Text) (w : W)
          → ((write b w).0 ≡ (length b, none)) × (view (write b w).1 ≡ view w ++ b))
        (spare : ℕ) where
      -- The audit: a session runs whose client sends SQL statements, in whatever parts they arrive, and
      -- what it pushes goes to the log. Then the tool prints the connect, each statement with the
      -- user, the data base, the address and the number of the session, and the disconnect, in
      -- their order. The target and the queue take what they are given, and the context does not
      -- end; the log is a new file, its writer gets what the session pushes and then the end of
      -- the queue, no system call fails, the values fit their fields, the bytes of the commands
      -- differ, and the first read of the file returns the version, without an error.
      pub print_file-worker :
          (st : SendTask) (p : Peers W C) (qs : List (ℕ × Text)) (file_path : Text) (t : Time)
          (disk : Disk) (j : Journal)
          → IsInjective byte_of
          → ClientSends (query_packets (byte_of com_query) qs) p
          → ReadsVersion read (
              records
                (log_of_session st p.first p.rounds p.last (query_packets (byte_of com_query) qs)))
          → All IsEncodable
              (log_of_session st p.first p.rounds p.last (query_packets (byte_of com_query) qs))
          → Keeps disk j.files
          → j.files (time2path file_path t) ≡ none
          → print_file read byte_of (
              (log_write_worker file_path
                  (events_of (
                    entries_of
                      (worker write spare st p.first p.rounds p.last p.target_writer
                        p.client_input).1.logged))
                  (new_audit_log_writer file_path t disk []).1).1.disk
                (time2path file_path t))
            ≡ printed (printed_session st p.first p.rounds p.last qs, finished)
      print_file-worker st p qs file_path t disk j inj h reads fits keeps new =
          let ps = query_packets (byte_of com_query) qs in
          let enough : length qs < length p.rounds =
            omega (arith, h.enough, query_packets-length (byte_of com_query) qs) in
          let d =
            worker-Done view write takes spare st ps p.first p.rounds p.last p.target_writer
              h.arrivals h.closing h.rest h.short h.ready h.enough h.first_taken h.last_taken
              h.data_only h.packets h.closes in
          ap
            (λ input. print_file read byte_of (
              (log_write_worker file_path
                  (events_of (
                    entries_of
                      (worker write spare st p.first p.rounds p.last p.target_writer
                        input).1.logged))
                  (new_audit_log_writer file_path t disk []).1).1.disk
                (time2path file_path t)))
            h.input
          ∙ ap
              (λ (log : List SendPacket). print_file read byte_of (
                (log_write_worker file_path (events_of (entries_of log))
                    (new_audit_log_writer file_path t disk []).1).1.disk
                  (time2path file_path t)))
              (ap (λ (r : WorkerEnd F × Session W). r.1.logged) d.ends ∙ d.logged)
          ∙ print_file-log_of_session st p.first p.rounds p.last qs file_path t disk j inj enough
              reads fits keeps new
