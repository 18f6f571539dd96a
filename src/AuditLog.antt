-- ===== src/AuditLog.antt =====
-- pkg/mysqlproxy/log/auditlogwriter.go: the writer of the audit log. It takes packets from a queue,
-- writes them to a compressed file, and changes the file with the time.
pub mod Names
pub mod Journal
pub mod Faults
pub mod Reader
pub mod ErrorReader
pub mod Archive
pub mod Printing
mod Runs
use mysql8_audit_proxy.Base.{
  ℕ, Bool, true, false, Option, none, some, List, [], ◌∷◌, ◌++◌, Text, codes, text_eq,
  if◌then◌else◌, Result, ok, err,
}
use mysql8_audit_proxy.Base.Action.{Action, ◌>>=◌, ◌>>◌, pure, modify}
use mysql8_audit_proxy.SendPacket.{SendPacket, encode_packet}
use mysql8_audit_proxy.AuditLog.Names.{Time, time2path}

-- A raw string of Go: it ends in a backslash and an `n`.
abbrev pub fmt_version : Text
fmt_version = codes "{\"format\":\"mysqlproxy-v1.00\"}\\n"

-- The files by their paths, each with what its complete gzip members decompress to. What an open
-- member has taken is the `body` of its writer; how much of that the compressor has passed on to the
-- file already, which it does block by block, is left out.
abbrev pub Disk : Type 0
Disk = Text → Option (List Text)

abbrev pub set_file : Text → List Text → Disk → Disk
set_file path members disk = λ p. if text_eq path p then some members else disk p

-- `gzip.Writer` over the file at a path, with the bytes that were written to it. After an error it
-- returns that error for ever.
pub record GzipWriter : Type 0 where
  pub target : Text
  pub body : Text
  pub broken : Bool

-- `auditLogWriter`, the files, and which of the next system calls fail. `file` is the path of the open
-- file. The queue and the ticker are events, the pool is left out.
pub record LogWriter : Type 0 where
  pub latest_file : Text
  pub file : Option Text
  pub gzip_writer : Option GzipWriter
  pub disk : Disk
  pub faults : List Bool

-- The errors of the system, the end of the queue, and the panic of a nil `gzipWriter`.
pub data WriterError : Type 0 where
  open_failed write_failed close_failed eof nil_writer : WriterError

-- A system call, which may fail.
unfoldable pub system : WriterError → Action WriterError LogWriter (Unit {0})
system e d = elim d.faults [
  | [] ↦ (ok tt, d)
  | fails ∷ faults ↦ (if fails then err e else ok tt, record d { faults = faults })
]

-- An error is noted, and passed on.
abbrev pub on_error :
    {A : Type 0}
    → (LogWriter → LogWriter)
    → Result WriterError A × LogWriter
    → Result WriterError A × LogWriter
on_error f (ok a, d) = (ok a, d)
on_error f (err e, d) = (err e, f d)

abbrev pub set_broken : GzipWriter → LogWriter → LogWriter
set_broken g d = record d { gzip_writer = some (record g { broken = true }) }

abbrev pub to_writer :
    Option GzipWriter
    → (GzipWriter → Action WriterError LogWriter (Unit {0}))
    → Action WriterError LogWriter (Unit {0})
    → Action WriterError LogWriter (Unit {0})
to_writer none some_writer no_writer = no_writer
to_writer (some g) some_writer no_writer = some_writer g

-- `fails` where the writer has failed before.
abbrev pub unless_broken :
    GzipWriter
    → WriterError
    → Action WriterError LogWriter (Unit {0})
    → Action WriterError LogWriter (Unit {0})
unless_broken g e m d = if g.broken then (err e, d) else m d

-- `d.gzipWriter.Write(b)`.
unfoldable pub gzip_write : Text → Action WriterError LogWriter (Unit {0})
unfolding system
gzip_write b d =
    to_writer d.gzip_writer
      (λ g. unless_broken g write_failed (λ d. on_error (set_broken g) (
        (do
          system write_failed
          modify (λ d. record d { gzip_writer = some (record g { body = g.body ++ b }) }))
          d)))
      (λ d. (err nil_writer, d)) d

-- The members of a file.
abbrev pub members_of : Option (List Text) → List Text
members_of none = []
members_of (some members) = members

-- A member is complete, and there is no writer any more.
abbrev pub complete_member : GzipWriter → LogWriter → LogWriter
complete_member g d = record d {
  disk = set_file g.target (members_of (d.disk g.target) ++ (g.body ∷ [])) d.disk;
  gzip_writer = none;
}

unfoldable pub close_gzip : Action WriterError LogWriter (Unit {0})
unfolding system
close_gzip d =
    to_writer d.gzip_writer
      (λ g.
        unless_broken g close_failed
          (λ d. on_error (set_broken g) ((do system close_failed; modify (complete_member g)) d)))
      (pure tt) d

abbrev pub close_open :
    Option Text → Action WriterError LogWriter (Unit {0}) → Action WriterError LogWriter (Unit {0})
close_open none m d = (ok tt, d)
close_open (some path) m d = m (record d { file = none })

unfoldable pub close_file : Action WriterError LogWriter (Unit {0})
unfolding close_gzip system
close_file = do close_gzip; (λ d. close_open d.file (system close_failed) d)

abbrev pub no_file : LogWriter → LogWriter
no_file d = record d { file = none }

-- An error of the write of the version is ignored.
abbrev pub ignore_error :
    Action WriterError LogWriter (Unit {0}) → Action WriterError LogWriter (Unit {0})
ignore_error m d = (ok tt, (m d).1)

abbrev pub new_gzip_writer : Text → Option GzipWriter
new_gzip_writer path = some (record { target = path; body = []; broken = false })

-- `O_EXCL|O_CREATE` found no file: it is created, and begins with the version. Otherwise the file is
-- opened once more, to be appended to.
unfoldable pub create_or_append :
    Text → Option (List Text) → Action WriterError LogWriter (Unit {0})
unfolding gzip_write
create_or_append path none = do
  modify (λ d. record d {
    disk = set_file path [] d.disk;
    file = some path;
    gzip_writer = new_gzip_writer path;
  })
  ignore_error (gzip_write fmt_version)
create_or_append path (some members) = do
  system open_failed
  modify (λ d. record d { file = some path; gzip_writer = new_gzip_writer path })

-- After an error there is no open file.
unfoldable pub create_file : Text → Time → Action WriterError LogWriter (Unit {0})
unfolding create_or_append
create_file file_path t d =
    let path = time2path file_path t in
    on_error no_file (
      (do
        modify (λ d. record d { latest_file = path })
        system open_failed
        (λ d. create_or_append path (d.disk path) d))
        d)

-- `NewAuditLogWriter` over a disk; an error ends the program.
unfoldable pub new_audit_log_writer :
    Text → Time → Disk → List Bool → Result WriterError (Unit {0}) × LogWriter
unfolding create_file
new_audit_log_writer file_path t disk faults =
    create_file file_path t
      (record { latest_file = []; file = none; gzip_writer = none; disk = disk; faults = faults })

-- What the `select` of `receiveAndWrite` picks.
pub data Event : Type 0 where
  context_done : Event
  received : SendPacket → Event
  channel_closed : Event
  tick : Time → Event

unfoldable pub receive_and_write : Text → Event → Action WriterError LogWriter (Unit {0})
unfolding gzip_write close_file create_file
receive_and_write file_path context_done = pure tt
receive_and_write file_path (received sp) = encode_packet gzip_write sp
receive_and_write file_path channel_closed = do close_file; (λ d. (err eof, d))
receive_and_write file_path (tick t) = do close_file; create_file file_path t

-- How `LogWriteWorker` ends: `ctx.Err()`, the end of the queue, or a panic. It may also wait.
pub data WorkerEnd : Type 0 where
  cancelled drained panicked waiting : WorkerEnd

abbrev pub closing : WorkerEnd → LogWriter → WorkerEnd × LogWriter
closing e d = (e, (close_file d).1)

-- The loop goes on after an error, unless that is `io.EOF`.
abbrev pub after_event :
    (LogWriter → WorkerEnd × LogWriter)
    → Result WriterError (Unit {0}) × LogWriter
    → WorkerEnd × LogWriter
after_event further (ok u, d) = further d
after_event further (err eof, d) = closing drained d
after_event further (err nil_writer, d) = closing panicked d
after_event further (err open_failed, d) = further d
after_event further (err write_failed, d) = further d
after_event further (err close_failed, d) = further d

-- Each round begins with a look at whether the context is done.
unfoldable pub log_write_worker : Text → List (Bool × Event) → LogWriter → WorkerEnd × LogWriter
unfolding receive_and_write close_file
log_write_worker file_path [] d = (waiting, d)
log_write_worker file_path ((done, e) ∷ events) d =
    let further = log_write_worker file_path events in
    if done then closing cancelled d else after_event further (receive_and_write file_path e d)
