-- ===== src/AuditLog/Journal/Refinement.antt =====
-- The writer of the audit log keeps its journal.
use mysql8_audit_proxy.Base.{
  concat, ◌≡◌, refl, sym, ap, ◌∙◌, Bool, false, Option, none, some, List, [], ◌∷◌, ◌++◌, Text,
  text_eq_refl, if◌then◌else◌, Result, ok, append-nil,
}
use mysql8_audit_proxy.Base.Action.{proceed}
use mysql8_audit_proxy.SendPacket.{SendPacket}
use mysql8_audit_proxy.SendPacket.Encoding.{encoding, Extends, encode_packet-Extends}
use mysql8_audit_proxy.LogDecoder.Records.{records}
use mysql8_audit_proxy.AuditLog.Names.{Time, time2path}
use mysql8_audit_proxy.AuditLog.{
  fmt_version, Disk, set_file, LogWriter, WriterError, members_of, system, gzip_write, close_gzip,
  close_file, create_or_append, create_file, new_audit_log_writer, on_error, no_file, Event,
  receive_and_write, WorkerEnd, drained, after_event, log_write_worker,
}
use mysql8_audit_proxy.AuditLog.Journal.{
  Journal, packets_of, put, Entry, packet, rotation, event_of, events_of, entered, journal, text_in,
  log_of, Keeps,
}
use mysql8_audit_proxy.AuditLog.Journal.Files.{
  concat-append, settled, log_of-put, Keeps-put, Keeps-packets, log_of-none,
}

-- The writer without a file, and with an open one.
abbrev at_rest : Text → Disk → LogWriter
at_rest latest disk = record {
  latest_file = latest;
  file = none;
  gzip_writer = none;
  disk = disk;
  faults = [];
}

abbrev at_work : Text → Disk → Text → LogWriter
at_work path disk body = record {
  latest_file = path;
  file = some path;
  gzip_writer = some (record { target = path; body = body; broken = false });
  disk = disk;
  faults = [];
}

-- The disk as it is once the open file is closed.
gzip_write-Extends :
    (path : Text) (disk : Disk) (b : Text) → Extends (at_work path disk) (gzip_write b) b
unfolding gzip_write system
gzip_write-Extends path disk b = record { goes = λ t. refl }

close_file-at_work :
    (path : Text) (disk : Disk) (body : Text)
    → close_file (at_work path disk body) ≡ (ok tt, at_rest path (settled path disk body))
unfolding close_file close_gzip system
close_file-at_work path disk body = refl

-- A file is open, the journal goes on in it.
record Opened (r : Result WriterError (Unit {0}) × LogWriter) (j : Journal) : Type 0 where
  disk : Disk
  body : Text
  opens : r ≡ (ok tt, at_work j.current disk body)
  keeps : Keeps (settled j.current disk body) j.files

module _ (path : Text) (j : Journal) (disk : Disk) (keeps : Keeps disk j.files) where
  create_or_append-Opened :
      (o : Option (List Text))
      → disk path ≡ o
      → Opened (create_or_append path o (at_rest path disk)) (put path [] j)
  unfolding create_or_append gzip_write system
  create_or_append-Opened none e = record {
    disk = set_file path [] disk;
    body = fmt_version;
    opens = refl;
    keeps =
        let absent = log_of-none (j.files path) (ap text_in (sym e) ∙ keeps path) in
        Keeps-put path [] j disk (set_file path [] disk) _ keeps
          (λ p q. ap (λ b. if b then some [] else disk p) q)
          (ap
              (λ b.
                some (concat (members_of (if b then some [] else disk path) ++ (fmt_version ∷ []))))
              (text_eq_refl path)
            ∙ ap (λ o. log_of (some (packets_of o ++ []))) (sym absent));
  }
  create_or_append-Opened (some members) e = record {
    disk = disk;
    body = [];
    opens = refl;
    keeps =
        Keeps-put path [] j disk disk _ keeps (λ p q. refl)
          (ap (λ o. some (concat (members_of o ++ ([] ∷ [])))) e
            ∙ ap some (concat-append members [])
            ∙ log_of-put (j.files path) (concat members) [] (ap text_in (sym e) ∙ keeps path));
  }

-- The worker has ended with no open file, and the disk has the files.
pub record Ended (r : WorkerEnd × LogWriter) (files : Text → Option (List SendPacket))
    : Type 0 where
  pub disk : Disk
  pub latest : Text
  pub ends : r ≡ (drained, at_rest latest disk)
  pub keeps : Keeps disk files

module _ (file_path : Text) where
  create_file-Opened :
      (latest : Text) (t : Time) (disk : Disk) (j : Journal)
      → Keeps disk j.files
      → Opened (create_file file_path t (at_rest latest disk)) (put (time2path file_path t) [] j)
  unfolding create_file system
  create_file-Opened latest t disk j keeps =
      let path = time2path file_path t in
      let o = create_or_append-Opened path j disk keeps (disk path) refl in
      record {
        disk = o.disk;
        body = o.body;
        opens = ap (on_error no_file) o.opens;
        keeps = o.keeps;
      }

  step-Opened :
      (e : Entry) (j : Journal) (disk : Disk) (body : Text)
      → Keeps (settled j.current disk body) j.files
      → Opened
          (receive_and_write file_path (event_of e).1 (at_work j.current disk body))
          (entered file_path e j)
  unfolding receive_and_write
  step-Opened (packet sp) j disk body keeps = record {
    disk = disk;
    body = body ++ records (sp ∷ []);
    opens =
        (encode_packet-Extends (at_work j.current disk) gzip_write
            (gzip_write-Extends j.current disk) sp).goes
          body
        ∙ ap (λ t. (ok tt, at_work j.current disk (body ++ t))) (sym (append-nil (encoding sp)));
    keeps = Keeps-packets j.current disk body j (sp ∷ []) keeps;
  }
  step-Opened (rotation t) j disk body keeps =
      let o = create_file-Opened j.current t (settled j.current disk body) j keeps in
      record {
        disk = o.disk;
        body = o.body;
        opens =
            ap
              (λ (r : Result WriterError (Unit {0}) × LogWriter).
                proceed r (λ _. create_file file_path t))
              (close_file-at_work j.current disk body)
            ∙ o.opens;
        keeps = o.keeps;
      }

  round_goes :
      (e : Entry) (events : List (Bool × Event)) (d : LogWriter)
      → log_write_worker file_path (event_of e ∷ events) d
        ≡ after_event
            (log_write_worker file_path events)
            (receive_and_write file_path (event_of e).1 d)
  unfolding log_write_worker
  round_goes (packet sp) events d = refl
  round_goes (rotation t) events d = refl

  log_write_worker-Ended :
      (es : List Entry) (j : Journal) (disk : Disk) (body : Text)
      → Keeps (settled j.current disk body) j.files
      → Ended
          (log_write_worker file_path (events_of es) (at_work j.current disk body))
          (journal file_path es j).files
  unfolding log_write_worker receive_and_write close_file close_gzip system
  log_write_worker-Ended [] j disk body keeps = record {
    disk = settled j.current disk body;
    latest = j.current;
    ends = refl;
    keeps = keeps;
  }
  log_write_worker-Ended (e ∷ es) j disk body keeps =
      let o = step-Opened e j disk body keeps in
      let d = log_write_worker-Ended es (entered file_path e j) o.disk o.body o.keeps in
      record {
        disk = d.disk;
        latest = d.latest;
        ends =
            round_goes e (events_of es) (at_work j.current disk body)
            ∙ ap (after_event (log_write_worker file_path (events_of es))) o.opens
            ∙ d.ends;
        keeps = d.keeps;
      }

  -- Over a disk whose files are the journal's, a log that is created and gets packets and ticks until
  -- its queue is closed ends with the journal's files: each packet in the file of the last tick before
  -- it, behind what was there, a new file behind the version, and no other file changed. No system
  -- call fails, and the context does not end.
  pub log_write_worker-Journal :
      (t : Time) (es : List Entry) (disk : Disk) (j : Journal)
      → Keeps disk j.files
      → Ended
          (log_write_worker file_path (events_of es) (new_audit_log_writer file_path t disk []).1)
          (journal file_path (rotation t ∷ es) j).files
  unfolding new_audit_log_writer
  log_write_worker-Journal t es disk j keeps =
      let o = create_file-Opened [] t disk j keeps in
      let d = log_write_worker-Ended es (put (time2path file_path t) [] j) o.disk o.body o.keeps in
      record {
        disk = d.disk;
        latest = d.latest;
        ends =
            ap
              (λ (r : Result WriterError (Unit {0}) × LogWriter).
                log_write_worker file_path (events_of es) r.1)
              o.opens
            ∙ d.ends;
        keeps = d.keeps;
      }
