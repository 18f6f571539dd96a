-- ===== src/AuditLog/Archive.antt =====
-- The tool over the files that the writer leaves.
use mysql8_audit_proxy.Base.{
  concat, ℕ, ◌≡◌, sym, ap, ◌∙◌, Option, none, some, List, [], ◌∷◌, ◌++◌, Text, length, All, text_eq,
  text_eq→eq, arith,
}
use mysql8_audit_proxy.SendPacket.{SendPacket}
use mysql8_audit_proxy.SendPacket.RoundTrip.{IsEncodable}
use mysql8_audit_proxy.LogDecoder.{Packet, Printed, finished, file_print}
use mysql8_audit_proxy.LogDecoder.Commands.{Command}
use mysql8_audit_proxy.LogDecoder.Records.{records, Formatted, file_print-whole}
use mysql8_audit_proxy.AuditLog.{
  fmt_version, Disk, LogWriter, new_audit_log_writer, WorkerEnd, log_write_worker,
}
use mysql8_audit_proxy.AuditLog.Names.{Time}
use mysql8_audit_proxy.AuditLog.Journal.{
  Journal, Entry, rotation, events_of, journal, text_in, log_of, Keeps,
}
use mysql8_audit_proxy.AuditLog.Journal.Refinement.{log_write_worker-Journal}
use mysql8_audit_proxy.AuditLog.Journal.Files.{some_of}
use mysql8_audit_proxy.AuditLog.Reader.{
  FileResult, printed, checked, matched, print_rest, check_format, new_file_reader, print_file,
}

-- The first read of the decompressed bytes returns the version, without an error.
abbrev pub ReadsVersion : {E : Type 0} → (ℕ → Text → (Text × Option E) × Text) → Text → Type 0
ReadsVersion read rest =
    read (length fmt_version) (fmt_version ++ rest) ≡ ((fmt_version, none), rest)

module _ {E : Type 0} (read : ℕ → Text → (Text × Option E) × Text) (byte_of : Command → ℕ) where
  -- A file is printed if its text begins with the version, and the first read returns it whole.
  print_file-version :
      (file : Option (List Text)) (rest : Text)
      → ReadsVersion read rest
      → text_in file ≡ some (fmt_version ++ rest)
      → print_file read byte_of file ≡ printed (file_print byte_of rest)
  unfolding print_file new_file_reader check_format text_eq
  print_file-version none rest reads h = cc
  print_file-version (some []) rest reads h = cc
  print_file-version (some (m ∷ ms)) rest reads h =
      let tail : (Text × Option E) × Text → FileResult E =
        λ r. print_rest read byte_of (matched read (checked read r)) in
      ap (λ stream. tail (read (length fmt_version) stream)) (ap some_of h) ∙ ap tail reads

  print_rest-printed :
      (x : (Text × Option E) × Text) (r : List Packet × Printed)
      → print_rest read byte_of (matched read (checked read x)) ≡ printed r
      → (x.0.0 ≡ fmt_version) × (r ≡ file_print byte_of x.1)
  print_rest-printed ((b, some e), rest) r h = cc
  print_rest-printed ((b, none), rest) r h = ground (arith, text_eq→eq b fmt_version)

  -- Whatever is printed of a file is the log behind its version: a file whose text does not begin with
  -- the version is refused, however many bytes the first read returns.
  pub print_file-printed :
      (file : Option (List Text)) (r : List Packet × Printed)
      → ((n : ℕ) (stream : Text) → (read n stream).0.0 ++ (read n stream).1 ≡ stream)
      → print_file read byte_of file ≡ printed r
      → (rest : Text) × (text_in file ≡ some (fmt_version ++ rest)) × (r ≡ file_print byte_of rest)
  unfolding print_file new_file_reader check_format
  print_file-printed none r parts h = cc
  print_file-printed (some []) r parts h = cc
  print_file-printed (some (m ∷ ms)) r parts h =
      let x = read (length fmt_version) (concat (m ∷ ms)) in
      let (version, is) = print_rest-printed x r h in
      (
        x.1,
        ap some (sym (parts (length fmt_version) (concat (m ∷ ms))) ∙ ap (λ b. b ++ x.1) version),
        is,
      )

  -- A file of a journal is printed packet by packet.
  pub print_file-log_of :
      (file : Option (List Text)) (ps : List SendPacket) (qs : List Packet)
      → ReadsVersion read (records ps)
      → text_in file ≡ log_of (some ps)
      → All IsEncodable ps
      → Formatted byte_of ps qs
      → print_file read byte_of file ≡ printed (qs, finished)
  print_file-log_of file ps qs reads h encodable formatted =
      print_file-version file (records ps) reads h
      ∙ ap printed (file_print-whole byte_of ps qs encodable formatted)

  -- What is logged is what the tool prints: behind a run of the log's writer without failures, from
  -- its creation to the end of its queue, the tool prints each file of the journal packet by packet,
  -- those that the file had before and those that were received, if their values fit their fields,
  -- none of them makes the tool panic, and the first read of the file returns the version, without an
  -- error.
  pub print_file-log_write_worker :
      (file_path : Text) (t : Time) (es : List Entry) (disk : Disk) (j : Journal) (path : Text)
      (ps : List SendPacket) (qs : List Packet)
      → Keeps disk j.files
      → (journal file_path (rotation t ∷ es) j).files path ≡ some ps
      → ReadsVersion read (records ps)
      → All IsEncodable ps
      → Formatted byte_of ps qs
      → print_file read byte_of (
          (log_write_worker file_path
              (events_of es)
              (new_audit_log_writer file_path t disk []).1).1.disk
            path)
        ≡ printed (qs, finished)
  print_file-log_write_worker file_path t es disk j path ps qs keeps is reads encodable formatted =
      let e = log_write_worker-Journal file_path t es disk j keeps in
      let last : (log_write_worker file_path (events_of es)
            (new_audit_log_writer file_path t disk []).1).1.disk
          ≡ e.disk =
        ap (λ (r : WorkerEnd × LogWriter). r.1.disk) e.ends in
      print_file-log_of _ ps qs reads
        (ap (λ (d : Disk). text_in (d path)) last ∙ e.keeps path ∙ ap log_of is) encodable formatted
