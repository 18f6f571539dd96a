-- ===== src/AuditLog/Runs.antt =====
-- A log of two files, and the theorems of AuditLog at it.
use mysql8_audit_proxy.Base.{
  ℕ, ◌≡◌, refl, ap, true, false, Option, none, some, List, [], ◌∷◌, ◌++◌, Text, codes, length, take,
  drop, text_eq, take-length-append, drop-length-append, take-append-drop, append-nil, arith,
}
use mysql8_audit_proxy.SendPacket.{SendPacket, empty}
use mysql8_audit_proxy.SendPacket.RoundTrip.{IsEncodable}
use mysql8_audit_proxy.LogDecoder.{finished, file_print, trim, copied, as_raw, format_packet}
use mysql8_audit_proxy.LogDecoder.Records.{records}
use mysql8_audit_proxy.LogDecoder.Commands.{protocol}
use mysql8_audit_proxy.AuditLog.{
  fmt_version, LogWriter, new_audit_log_writer, log_write_worker, received, tick, panicked,
}
use mysql8_audit_proxy.AuditLog.Names.{Time, time2path, decimal, padded, replace}
use mysql8_audit_proxy.AuditLog.Journal.{
  Journal, Entry, packet, rotation, events_of, journal, text_in,
}
use mysql8_audit_proxy.AuditLog.Journal.Refinement.{Ended, log_write_worker-Journal}
use mysql8_audit_proxy.AuditLog.Faults.{turning, log_write_worker-open_failed}
use mysql8_audit_proxy.AuditLog.Reader.{printed, print_file}
use mysql8_audit_proxy.AuditLog.Archive.{print_file-log_of, print_file-printed}
use mysql8_audit_proxy.Base.{◌+◌}
use mysql8_audit_proxy.Proxy.Shutdown.Queue.{weight}
use mysql8_audit_proxy.AuditLog.Journal.{Keeps}
use mysql8_audit_proxy.AuditLog.Journal.Total.{
  AreNamed, weight_of, packets_in, log_write_worker-weight_of,
}
use mysql8_audit_proxy.LogDecoder.{Packet}

abbrev at : ℕ → Time
at hour = record { year = 2024; month = 5; day = 6; hour = hour; minute = 0; second = 0 }

abbrev name : Text
name = codes "mysql-audit.%Y%m%d%H.log.gz"

time2path-name : time2path name (at 9) ≡ codes "mysql-audit.2024050609.log.gz"
unfolding time2path padded decimal replace
time2path-name = refl

abbrev connect : SendPacket
connect = record empty { connection_id = 7; state = codes "connect" }

connect-IsEncodable : IsEncodable connect
connect-IsEncodable = record {
  datetime_fits = omega arith;
  connection_id_fits = omega arith;
  user_fits = omega arith;
  db_fits = omega arith;
  addr_fits = omega arith;
  state_fits = omega arith;
  error_fits = omega arith;
  packets_fits = omega arith;
  cmd_fits = omega arith;
}

connect_printed : format_packet protocol connect ≡ some (as_raw connect [])
unfolding format_packet trim as_raw copied
connect_printed = refl

abbrev entries : List Entry
entries = packet connect ∷ rotation (at 10) ∷ packet connect ∷ []

abbrev nothing : Journal
nothing = record { files = λ p. none; current = [] }

log_write_worker-Journal_example :
    Ended
      (log_write_worker name
        (events_of entries)
        (new_audit_log_writer name (at 9) (λ p. none) []).1)
      (journal name (rotation (at 9) ∷ entries) nothing).files
log_write_worker-Journal_example =
    log_write_worker-Journal name (at 9) entries (λ p. none) nothing (λ p. refl)

-- `Read` that fills the slice, if there is enough.
abbrev read : ℕ → Text → (Text × Option (Unit {0})) × Text
read n stream = ((take n stream, none), drop n stream)

read_whole : (b rest : Text) → read (length b) (b ++ rest) ≡ ((b, none), rest)
read_whole b rest = rw (take-length-append b rest, drop-length-append b rest) refl

log_write_worker-open_failed_example :
    (log_write_worker name
      ((false, tick (at 10)) ∷ (false, received connect) ∷ [])
      (turning (codes "a") [] (λ p. none) [])).0
    ≡ panicked
log_write_worker-open_failed_example =
    log_write_worker-open_failed name (codes "a") [] (λ p. none) [] (at 10) connect []

-- A file is open, and the next system call fails.
abbrev failing : LogWriter
failing = record (turning (codes "a") (codes "b") (λ p. none) []) { faults = true ∷ [] }

-- A file of one member.
abbrev file : Option (List Text)
file = some ((fmt_version ++ records (connect ∷ [])) ∷ [])

file_printed : print_file read protocol file ≡ printed (as_raw connect [] ∷ [], finished)
file_printed =
    print_file-log_of read protocol file (connect ∷ []) (as_raw connect [] ∷ [])
      (read_whole fmt_version (records (connect ∷ []))) (ap some (append-nil _))
      (connect-IsEncodable, tt) (connect_printed, tt)

print_file-printed_example :
    (rest : Text) × (text_in file ≡ some (fmt_version ++ rest))
    × ((as_raw connect [] ∷ [], finished) ≡ file_print protocol rest)
print_file-printed_example =
    print_file-printed read protocol file (as_raw connect [] ∷ [], finished) take-append-drop
      file_printed

abbrev names : List Text
names = codes "mysql-audit.2024050609.log.gz" ∷ codes "mysql-audit.2024050610.log.gz" ∷ []

names-AreNamed : AreNamed name names (rotation (at 9) ∷ entries)
unfolding time2path padded decimal replace text_eq
names-AreNamed = (refl, (refl, tt))

log_write_worker-weight_of_example :
    (files : Text → Option (List SendPacket)) × Keeps
      (log_write_worker name
        (events_of entries)
        (new_audit_log_writer name (at 9) (λ p. none) []).1).1.disk
      files
    × (weight_of (λ p. 1) names files
        ≡ weight_of (λ p. 1) names nothing.files + weight (λ p. 1) (packets_in entries))
log_write_worker-weight_of_example =
    log_write_worker-weight_of (λ p. 1) name names (at 9) entries (λ p. none) nothing (λ p. refl)
      names-AreNamed

abbrev marshal : Packet → Option Text
marshal p = some (codes "{}")

abbrev both_files : List (Text × List SendPacket × List Packet)
both_files =
    (codes "mysql-audit.2024050609.log.gz", connect ∷ [], as_raw connect [] ∷ [])
    ∷ (codes "mysql-audit.2024050610.log.gz", connect ∷ [], as_raw connect [] ∷ [])
    ∷ []
