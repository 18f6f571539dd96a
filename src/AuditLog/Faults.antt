-- ===== src/AuditLog/Faults.antt =====
-- What errors do to the writer of the audit log.
use mysql8_audit_proxy.Base.{
  ◌≡◌, refl, ap, ◌∙◌, ◌⊎◌, inl, inr, Bool, true, false, none, some, List, [], ◌∷◌, Text, Result,
  err,
}
use mysql8_audit_proxy.Base.Action.{proceed}
use mysql8_audit_proxy.SendPacket.{SendPacket, encode_packet}
use mysql8_audit_proxy.SendPacket.Encoding.{encode_packet-err}
use mysql8_audit_proxy.AuditLog.Names.{Time}
use mysql8_audit_proxy.AuditLog.{
  Disk, GzipWriter, LogWriter, WriterError, nil_writer, write_failed, close_failed, eof, system,
  gzip_write, close_gzip, close_file, create_file, Event, context_done, received, channel_closed,
  tick, receive_and_write, WorkerEnd, cancelled, panicked, waiting, after_event, log_write_worker,
}

-- An error of the compressing writer stays.
pub record IsBroken (d : LogWriter) : Type 0 where
  pub writer : GzipWriter
  pub has : d.gzip_writer ≡ some writer
  pub broken : writer.broken ≡ true

gzip_write-IsBroken :
    (b : Text) (d : LogWriter) → IsBroken d → gzip_write b d ≡ (err write_failed, d)
unfolding gzip_write
gzip_write-IsBroken b d h = simp (h.has, h.broken)

close_file-IsBroken : (d : LogWriter) → IsBroken d → close_file d ≡ (err close_failed, d)
unfolding close_file close_gzip
close_file-IsBroken d h = simp (h.has, h.broken)

encode_packet-IsBroken :
    (sp : SendPacket) (d : LogWriter)
    → IsBroken d
    → encode_packet gzip_write sp d ≡ (err write_failed, d)
encode_packet-IsBroken sp d h =
    encode_packet-err gzip_write sp d d write_failed (λ b. gzip_write-IsBroken b d h)

-- The context is done, or the worker waits for more.
abbrev pub GoesOn : WorkerEnd → Type 0
GoesOn e = (e ≡ cancelled) ⊎ (e ≡ waiting)

-- The next system call fails.
pub record IsFailing (d : LogWriter) : Type 0 where
  pub writer : GzipWriter
  pub rest : List Bool
  pub has : d.gzip_writer ≡ some writer
  pub fails : d.faults ≡ true ∷ rest

-- A writer with an open file that can be closed, and no file to follow it.
abbrev pub turning : Text → Text → Disk → List Bool → LogWriter
turning path body disk rest = record {
  latest_file = path;
  file = some path;
  gzip_writer = some (record { target = path; body = body; broken = false });
  disk = disk;
  faults = false ∷ false ∷ true ∷ rest;
}

module _ (file_path : Text) where
  round-IsBroken :
      (e : Event) (events : List (Bool × Event)) (d : LogWriter)
      → IsBroken d
      → after_event (log_write_worker file_path events) (receive_and_write file_path e d)
        ≡ log_write_worker file_path events d
  unfolding receive_and_write
  round-IsBroken context_done events d h = refl
  round-IsBroken (received sp) events d h =
      ap (after_event (log_write_worker file_path events)) (encode_packet-IsBroken sp d h)
  round-IsBroken channel_closed events d h =
      ap
        (λ (r : Result WriterError (Unit {0}) × LogWriter).
          after_event (log_write_worker file_path events) (proceed r (λ _ d. (err eof, d))))
        (close_file-IsBroken d h)
  round-IsBroken (tick t) events d h =
      ap
        (λ (r : Result WriterError (Unit {0}) × LogWriter).
          after_event (log_write_worker file_path events)
            (proceed r (λ _. create_file file_path t)))
        (close_file-IsBroken d h)

  -- Once a write has failed, no packet, no tick and not even the end of the queue changes anything:
  -- the writer keeps its error, no file changes, and the worker does not end unless its context does.
  pub log_write_worker-IsBroken :
      (events : List (Bool × Event)) (d : LogWriter)
      → IsBroken d
      → ((log_write_worker file_path events d).1 ≡ d)
        × GoesOn (log_write_worker file_path events d).0
  unfolding log_write_worker
  log_write_worker-IsBroken [] d h = (refl, inr refl)
  log_write_worker-IsBroken ((true, e) ∷ events) d h = (
    ap (λ (r : Result WriterError (Unit {0}) × LogWriter). r.1) (close_file-IsBroken d h),
    inl refl,
  )
  log_write_worker-IsBroken ((false, e) ∷ events) d h =
      let (same, end) = log_write_worker-IsBroken events d h in
      let round = round-IsBroken e events d h in
      (ap (λ (r : WorkerEnd × LogWriter). r.1) round ∙ same, rw round end)

  no_writer_panics :
      (sp : SendPacket) (events : List (Bool × Event)) (d : LogWriter)
      → d.gzip_writer ≡ none
      → (log_write_worker file_path ((false, received sp) ∷ events) d).0 ≡ panicked
  unfolding log_write_worker receive_and_write gzip_write
  no_writer_panics sp events d h =
      ap
        (λ (r : Result WriterError (Unit {0}) × LogWriter).
          (after_event (log_write_worker file_path events) r).0)
        (encode_packet-err gzip_write sp d d nil_writer (λ b. simp h))

  -- The next packet behind a tick whose file cannot be opened ends the program: the old file is
  -- closed, and there is no writer for the packet.
  pub log_write_worker-open_failed :
      (path body : Text) (disk : Disk) (rest : List Bool) (t : Time) (sp : SendPacket)
      (events : List (Bool × Event))
      → (log_write_worker file_path
          ((false, tick t) ∷ (false, received sp) ∷ events)
          (turning path body disk rest)).0
        ≡ panicked
  unfolding log_write_worker receive_and_write close_file close_gzip create_file system
  log_write_worker-open_failed path body disk rest t sp events = no_writer_panics sp events _ refl
