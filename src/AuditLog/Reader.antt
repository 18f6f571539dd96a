-- ===== src/AuditLog/Reader.antt =====
-- pkg/mysqlproxy/log/filereader.go and `checkFormat` of log.go: a file of the log is opened, and its
-- version is looked at. The decoding of the rest is the tool's `file_print`.
use mysql8_audit_proxy.Base.{
  concat, ℕ, Option, none, some, List, [], ◌∷◌, Text, length, ◌==◌, text_eq, if◌then◌else◌, Result,
  ok, err,
}
use mysql8_audit_proxy.LogDecoder.{Packet, Printed, file_print}
use mysql8_audit_proxy.LogDecoder.Commands.{Command}
use mysql8_audit_proxy.AuditLog.{fmt_version}

-- Why there is no reader: the file, its gzip header, the first read, or the version.
pub data OpenError (E : Type 0) : Type 0 where
  cannot_open no_header : OpenError E
  cannot_read : E → OpenError E
  version_size : ℕ → OpenError E
  version_mismatch : Text → OpenError E

-- What the tool does with a file.
pub data FileResult (E : Type 0) : Type 0 where
  not_opened : OpenError E → FileResult E
  printed : List Packet × Printed → FileResult E

module _ {E : Type 0} (read : ℕ → Text → (Text × Option E) × Text) where
  -- `r.Read(b)` of the gzip reader is `read (len b)`: the bytes, the error, and what is left.
  abbrev pub checked : (Text × Option E) × Text → Result (OpenError E) Text × Text
  checked ((b, some e), rest) = (err (cannot_read e), rest)
  checked ((b, none), rest) =
      if length b == length fmt_version then (ok b, rest) else (err (version_size (length b)), rest)

  unfoldable pub check_format : Text → Result (OpenError E) Text × Text
  check_format stream = checked (read (length fmt_version) stream)

  abbrev pub matched : Result (OpenError E) Text × Text → Result (OpenError E) Text
  matched (err e, rest) = err e
  matched (ok version, rest) =
      if text_eq version fmt_version then ok rest else err (version_mismatch version)

  -- The members of a file that was opened; a gzip reader needs the header of one, and reads them all.
  abbrev with_header : List Text → Result (OpenError E) Text
  with_header [] = err no_header
  with_header (m ∷ ms) = matched (check_format (concat (m ∷ ms)))

  -- `NewFileReader`: what its decoder is left with.
  unfoldable pub new_file_reader : Option (List Text) → Result (OpenError E) Text
  unfolding check_format
  new_file_reader none = err cannot_open
  new_file_reader (some members) = with_header members

  abbrev pub print_rest : (Command → ℕ) → Result (OpenError E) Text → FileResult E
  print_rest byte_of (err e) = not_opened e
  print_rest byte_of (ok rest) = printed (file_print byte_of rest)

  -- `filePrint` of the tool, with its opening.
  unfoldable pub print_file : (Command → ℕ) → Option (List Text) → FileResult E
  unfolding new_file_reader
  print_file byte_of file = print_rest byte_of (new_file_reader file)
