-- ===== src/AuditLog/Journal.antt =====
-- What the writer of the audit log promises: packet by packet, in the files of their times.
pub mod Files
pub mod Refinement
pub mod Total
use mysql8_audit_proxy.Base.{
  concat, ◌≡◌, refl, sym, ap, ◌∙◌, Bool, false, Bool-cases, inl, inr, Option, none, some, List, [],
  ◌∷◌, ◌++◌, Text, text_eq, text_eq_refl, if◌then◌else◌, Result, ok, append-nil, append_assoc,
}
use mysql8_audit_proxy.Base.Action.{proceed}
use mysql8_audit_proxy.SendPacket.{SendPacket}
use mysql8_audit_proxy.SendPacket.Encoding.{encoding, Extends, encode_packet-Extends}
use mysql8_audit_proxy.LogDecoder.Records.{records}
use mysql8_audit_proxy.AuditLog.Names.{Time, time2path}
use mysql8_audit_proxy.AuditLog.{
  fmt_version, Disk, set_file, LogWriter, WriterError, members_of, system, gzip_write, close_gzip,
  close_file, create_or_append, create_file, new_audit_log_writer, on_error, no_file, Event,
  received, channel_closed, tick, receive_and_write, WorkerEnd, drained, after_event,
  log_write_worker,
}

-- The packets of each file, and the file of the next.
pub record Journal : Type 0 where
  pub files : Text → Option (List SendPacket)
  pub current : Text

abbrev pub packets_of : Option (List SendPacket) → List SendPacket
packets_of none = []
packets_of (some ps) = ps

abbrev pub put : Text → List SendPacket → Journal → Journal
put path ps j = record {
  files = λ p. if text_eq path p then some (packets_of (j.files path) ++ ps) else j.files p;
  current = path;
}

-- A packet for the current file, or a time, which names the next one.
pub data Entry : Type 0 where
  packet : SendPacket → Entry
  rotation : Time → Entry

abbrev pub event_of : Entry → Bool × Event
event_of (packet sp) = (false, received sp)
event_of (rotation t) = (false, tick t)

abbrev pub events_of : List Entry → List (Bool × Event)
events_of [] = (false, channel_closed) ∷ []
events_of (e ∷ es) = event_of e ∷ events_of es

-- A file begins with its first name, and may have no packets.
abbrev pub entered : Text → Entry → Journal → Journal
entered file_path (packet sp) j = put j.current (sp ∷ []) j
entered file_path (rotation t) j = put (time2path file_path t) [] j

abbrev pub journal : Text → List Entry → Journal → Journal
journal file_path [] j = j
journal file_path (e ∷ es) j = journal file_path es (entered file_path e j)

-- What a file decompresses to.
abbrev pub text_in : Option (List Text) → Option Text
text_in none = none
text_in (some members) = some (concat members)

abbrev pub log_of : Option (List SendPacket) → Option Text
log_of none = none
log_of (some ps) = some (fmt_version ++ records ps)

-- The disk has the journal's files, and no others.
abbrev pub Keeps : Disk → (Text → Option (List SendPacket)) → Type 0
Keeps disk files = (p : Text) → text_in (disk p) ≡ log_of (files p)
