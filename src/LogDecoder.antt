-- ===== src/LogDecoder.antt =====
-- cmd/mysql8-audit-log-decoder/main.go: the tool that prints an audit log.
pub mod Commands
pub mod Format
pub mod Records
mod Runs
use mathlib.Core.Option
use mysql8_audit_proxy.Base.{
  ℕ, zero, suc, ◌+◌, Option, none, some, List, [], ◌∷◌, ◌++◌, Text, codes, length, take, drop, ltb,
  index_byte, if◌then◌else◌, Result, ok, err,
}
use mysql8_audit_proxy.SendPacket.{
  SendPacket, empty, ReadError, eof, unexpected_eof, Decoder, Decoding, decode_packet, new_decoder,
}
use Commands.{
  Command, com_quit, com_init_db, com_query, com_field_list, com_ping, com_stmt_prepare,
  com_stmt_execute, com_stmt_close, com_stmt_send_long_data, com_stmt_reset, com_set_option,
  com_register_slave, com_binlog_dump, com_binlog_dump_gtid, command_of, get_com_name,
}

-- The type `packet`. A nil slice is the empty list.
pub record Packet : Type 0 where
  pub datetime : ℕ
  pub connection_id : ℕ
  pub user : Text
  pub db : Text
  pub addr : Text
  pub state : Text
  pub error : Text
  pub packets : Text
  pub cmd : Text

-- `none` is the error "dst too small".
unfoldable pub trim : Text → Option Text
trim dst = if ltb (length dst) 4 then none else some (drop 4 dst)

-- The fields that every branch copies.
unfoldable pub copied : SendPacket → Packet
copied sp = record {
  datetime = sp.datetime;
  connection_id = sp.connection_id;
  user = sp.user;
  db = sp.db;
  addr = sp.addr;
  state = sp.state;
  error = sp.error;
  packets = [];
  cmd = [];
}

unfoldable pub as_text : SendPacket → Text → Packet
unfolding copied
as_text sp cmd = record (copied sp) { cmd = cmd; packets = [] }

unfoldable pub as_raw : SendPacket → Text → Packet
unfolding copied
as_raw sp cmd = record (copied sp) { cmd = cmd; packets = sp.packets }

-- The text of a COM_FIELD_LIST. Without a NUL byte `data[0:-1]` panics: `none`.
unfoldable pub field_list : Text → Option ℕ → Option Text
field_list payload none = none
field_list payload (some index) =
    let cmd = codes "fieldList " ++ take index payload in
    let wildcard = drop (index + 1) payload in
    some (if ltb 0 (length wildcard) then cmd ++ (codes " " ++ wildcard) else cmd)

-- The cases of the `switch` on a command that has one.
unfoldable pub format_command : SendPacket → Text → Command → Text → Option Packet
unfolding as_text as_raw field_list
format_command sp name com_quit payload = some (as_text sp (codes "quit"))
format_command sp name com_query payload = some (as_text sp payload)
format_command sp name com_ping payload = some (as_text sp (codes "ping"))
format_command sp name com_init_db payload = some (as_text sp (codes "use " ++ payload))
format_command sp name com_field_list payload =
    Option.map (as_text sp) (field_list payload (index_byte 0 payload))
format_command sp name com_stmt_prepare payload = some (as_raw sp (codes "stmt_prepare"))
format_command sp name com_stmt_execute payload = some (as_raw sp (codes "stmt_execute"))
format_command sp name com_stmt_close payload = some (as_raw sp (codes "stmt_close"))
format_command sp name com_stmt_send_long_data payload =
    some (as_raw sp (codes "stmt_send_long_data"))
format_command sp name com_stmt_reset payload = some (as_raw sp (codes "stmt_reset"))
format_command sp name com_set_option payload = some (as_raw sp (codes "set_option"))
format_command sp name com_register_slave payload = some (as_raw sp (codes "register_slave"))
format_command sp name com_binlog_dump payload = some (as_raw sp (codes "binlog_dump"))
format_command sp name com_binlog_dump_gtid payload = some (as_raw sp (codes "binlog_dump"))
format_command sp name _ payload = some (as_raw sp name)

-- How `filePrint` ends. `stuck` is no outcome of the program: the fuel of the loop ran out.
pub data Printed : Type 0 where
  finished : Printed
  failed : ReadError → Printed
  panicked : Printed
  stuck : Printed

-- The body of the loop behind `Decode`: the packets that it and the further rounds print.
unfoldable pub print_decoded :
    (SendPacket → Option Packet)
    → (Decoding → List Packet × Printed)
    → Result ReadError (Unit {0}) × Decoding
    → List Packet × Printed
print_decoded format loop (err eof, s) = ([], finished)
print_decoded format loop (err unexpected_eof, s) = ([], failed unexpected_eof)
print_decoded format loop (ok u, s) = elim (format s.packet) [
  | none ↦ ([], panicked)
  | some p ↦ (p ∷ (loop s).0, (loop s).1)
]

-- `byte_of` gives the bytes of the constants mysql.COM_….
module _ (byte_of : Command → ℕ) where
  unfoldable pub format_payload : SendPacket → Text → Option Packet
  format_payload sp [] = some (as_raw sp [])
  format_payload sp (cmd ∷ payload) = elim (command_of byte_of cmd) [
    | some c ↦ format_command sp (get_com_name byte_of cmd) c payload
    | none ↦ some (as_raw sp (get_com_name byte_of cmd))
  ]

  -- `none` is a panic.
  unfoldable pub format_packet : SendPacket → Option Packet
  format_packet sp = elim (trim sp.packets) [
    | none ↦ some (as_raw sp [])
    | some payload ↦ format_payload sp payload
  ]

  pub print_loop : ℕ → Decoding → List Packet × Printed
  print_loop zero s = ([], stuck)
  print_loop (suc fuel) s = print_decoded format_packet (print_loop fuel) (decode_packet s)

  -- `filePrint` on the records of a log. Every round but the last reads a byte at least.
  unfoldable pub file_print : Text → List Packet × Printed
  file_print log =
      print_loop (length log + 1) (record { packet = empty; decoder = new_decoder log })
