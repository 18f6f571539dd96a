-- ===== src/AuditLog/Printing.antt =====
-- `main` of cmd/mysql8-audit-log-decoder/main.go, which prints the files of its arguments, with `fmtJSON`.
use mysql8_audit_proxy.Base.{ℕ, Bool, true, false, Option, none, some, List, [], ◌∷◌, ◌++◌, Text}
use mysql8_audit_proxy.SendPacket.{SendPacket, ReadError}
use mysql8_audit_proxy.LogDecoder.{Packet, finished, failed, panicked, stuck}
use mysql8_audit_proxy.LogDecoder.Commands.{Command}
use mysql8_audit_proxy.AuditLog.{Disk}
use mysql8_audit_proxy.AuditLog.Journal.{Journal}
use mysql8_audit_proxy.AuditLog.Reader.{OpenError, FileResult, not_opened, printed, print_file}

-- The error of `filePrint`.
pub data PrintError (E : Type 0) : Type 0 where
  open_failed : OpenError E → PrintError E
  decode_failed : ReadError → PrintError E

-- What goes to the standard output, the files with errors, and whether the program panics.
pub record Output (E : Type 0) : Type 0 where
  pub stdout : Text
  pub errors : List (Text × PrintError E)
  pub crashed : Bool

abbrev pub no_output : {E : Type 0} → Output E
no_output = record { stdout = []; errors = []; crashed = false }

-- `marshal` is `json.Marshal`; a packet that it cannot write is left out.
abbrev pub fmt_json : (Packet → Option Text) → Packet → Text
fmt_json marshal p = elim (marshal p) [ none ↦ [] | some b ↦ b ++ (b'\n' ∷ []) ]

abbrev pub lines : (Packet → Option Text) → List Packet → Text
lines marshal [] = []
lines marshal (p ∷ ps) = fmt_json marshal p ++ lines marshal ps

module _ {E : Type 0} (read : ℕ → Text → (Text × Option E) × Text) (byte_of : Command → ℕ)
    (marshal : Packet → Option Text) where
  abbrev pub before_output : List Packet → Output E → Output E
  before_output ps rest = record rest { stdout = lines marshal ps ++ rest.stdout }

  abbrev pub with_error : Text → PrintError E → Output E → Output E
  with_error arg e rest = record rest { errors = (arg, e) ∷ rest.errors }

  -- A file and what the loop prints behind it. The loop of a file never ends as `stuck`.
  abbrev pub with_rest : Text → FileResult E → Output E → Output E
  with_rest arg (not_opened e) rest = with_error arg (open_failed e) rest
  with_rest arg (printed (ps, finished)) rest = before_output ps rest
  with_rest arg (printed (ps, failed e)) rest =
      before_output ps (with_error arg (decode_failed e) rest)
  with_rest arg (printed (ps, panicked)) rest =
      before_output ps (record { stdout = []; errors = []; crashed = true })
  with_rest arg (printed (ps, stuck)) rest = before_output ps no_output

  -- The loop over the arguments, where `disk` has the files.
  unfoldable pub print_args : Disk → List Text → Output E
  print_args disk [] = no_output
  print_args disk (arg ∷ args) =
      with_rest arg (print_file read byte_of (disk arg)) (print_args disk args)
