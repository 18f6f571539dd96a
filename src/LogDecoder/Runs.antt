-- ===== src/LogDecoder/Runs.antt =====
-- Packets that are formatted and logs that are printed, and the theorems of LogDecoder at concrete
-- inputs.
use mysql8_audit_proxy.Base.{
  concat, ◌≡◌, ◌≢◌, ◌↔◌, refl, none, some, [], ◌∷◌, ◌++◌, Text, codes, take, IsFree, arith,
}
use mysql8_audit_proxy.SendPacket.{SendPacket, empty}
use mysql8_audit_proxy.SendPacket.RoundTrip.{IsEncodable}
use mysql8_audit_proxy.SendPacket.Cuts.{fields}
use mysql8_audit_proxy.LogDecoder.{
  Packet, finished, stuck, trim, copied, as_raw, format_payload, format_packet, file_print,
}
use mysql8_audit_proxy.LogDecoder.Commands.{
  com_query, com_field_list, command_of, get_com_name, hex, protocol, protocol-IsInjective,
}
use mysql8_audit_proxy.LogDecoder.Format.{IsCommand, format_packet-query, format_packet-panics_iff}
use mysql8_audit_proxy.LogDecoder.Records.{records, file_print-ne-stuck, file_print-field_cut}

abbrev query : SendPacket
query = record empty {
  user = codes "root";
  packets = 9 ∷ 0 ∷ 0 ∷ 0 ∷ 3 ∷ codes "select 1";
  cmd = codes "query";
}

abbrev printed_query : Packet
printed_query = record {
  datetime = 0;
  connection_id = 0;
  user = codes "root";
  db = [];
  addr = [];
  state = [];
  error = [];
  packets = [];
  cmd = codes "select 1";
}

-- The table `t` and the wildcard `%`.
abbrev listing : SendPacket
listing = record empty { packets = 4 ∷ 0 ∷ 0 ∷ 0 ∷ 4 ∷ codes "t" ++ (0 ∷ codes "%") }

-- The table `t`, and no NUL behind it.
abbrev bad_listing : SendPacket
bad_listing = record empty { packets = 2 ∷ 0 ∷ 0 ∷ 0 ∷ 4 ∷ codes "t" }

query-IsCommand : IsCommand protocol com_query query (codes "select 1")
query-IsCommand = record { header = 9 ∷ 0 ∷ 0 ∷ 0 ∷ []; header_length = refl; packets_are = refl }

listing-IsCommand : IsCommand protocol com_field_list listing (codes "t" ++ (0 ∷ codes "%"))
listing-IsCommand = record { header = 4 ∷ 0 ∷ 0 ∷ 0 ∷ []; header_length = refl; packets_are = refl }

formatted_query : format_packet protocol query ≡ some printed_query
unfolding copied
formatted_query =
    format_packet-query protocol query (codes "select 1") protocol-IsInjective query-IsCommand

format_packet_unknown :
    format_packet protocol (record empty { packets = 1 ∷ 0 ∷ 0 ∷ 0 ∷ 0xfe ∷ 7 ∷ [] })
    ≡ some (as_raw (record empty { packets = 1 ∷ 0 ∷ 0 ∷ 0 ∷ 0xfe ∷ 7 ∷ [] }) (codes "UNKNOWN:fe"))
unfolding format_packet trim format_payload command_of get_com_name hex as_raw copied
format_packet_unknown = refl

format_packet_tiny :
    format_packet protocol (record empty { packets = 1 ∷ [] })
    ≡ some (as_raw (record empty { packets = 1 ∷ [] }) [])
unfolding format_packet trim as_raw copied
format_packet_tiny = refl

query-IsEncodable : IsEncodable query
query-IsEncodable = record {
  datetime_fits = omega arith;
  connection_id_fits = omega arith;
  user_fits = omega arith;
  db_fits = omega arith;
  addr_fits = omega arith;
  state_fits = omega arith;
  error_fits = omega arith;
  packets_fits = omega arith;
  cmd_fits = omega arith;
}

file_print-field_cut_example :
    file_print protocol (records (query ∷ []) ++ concat (take 4 (fields query)))
    ≡ (printed_query ∷ [], finished)
file_print-field_cut_example =
    file_print-field_cut protocol (query ∷ []) (printed_query ∷ []) (query-IsEncodable, tt)
      (formatted_query, tt) query 4 query-IsEncodable (omega arith)

file_print-ne-stuck_example : (file_print protocol (1 ∷ 2 ∷ 3 ∷ [])).1 ≢ stuck
file_print-ne-stuck_example = file_print-ne-stuck protocol (1 ∷ 2 ∷ 3 ∷ [])

format_packet-panics_iff_example :
    (format_packet protocol bad_listing ≡ none)
    ↔ ((payload : Text) × IsCommand protocol com_field_list bad_listing payload × IsFree 0 payload)
format_packet-panics_iff_example =
    format_packet-panics_iff protocol bad_listing protocol-IsInjective
