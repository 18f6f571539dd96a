-- ===== src/SendPacket/Runs.antt =====
-- Packets that are written and read, and the theorems of SendPacket at concrete inputs.
use mysql8_audit_proxy.Base.{
  ◌+◌, ◌≤◌, ◌≡◌, ◌≢◌, refl, [], ◌∷◌, ◌++◌, Text, codes, length, ok, err, arith, inl, append-nil,
}
use mysql8_audit_proxy.Base.Action.{Action}
use mysql8_audit_proxy.Base.Bytes.{le_bytes}
use mysql8_audit_proxy.SendPacket.{
  SendPacket, empty, encode_packet, write_bytes, ReadError, eof, unexpected_eof, decode_packet,
  read_full, binary_read, new_decoder,
}
use mysql8_audit_proxy.SendPacket.Encoding.{Appends, encoding, framed, length-encoding}
use mysql8_audit_proxy.SendPacket.RoundTrip.{
  IsEncodable, buf_after_packet, decode_packet-encoding, decode_packet-encode_packet,
}
use mysql8_audit_proxy.SendPacket.Truncation.{input, decode_packet_truncated}
use mysql8_audit_proxy.SendPacket.Progress.{decode_packet-input_length}

-- A query over connection 7.
abbrev login : SendPacket
login = record {
  datetime = 1700000000;
  connection_id = 7;
  user = codes "root";
  db = codes "test";
  addr = codes "::1";
  state = codes "est";
  error = [];
  packets = 9 ∷ 0 ∷ 0 ∷ 0 ∷ 3 ∷ codes "select 1";
  cmd = codes "query";
}

login-IsEncodable : IsEncodable login
login-IsEncodable = record {
  datetime_fits = omega arith;
  connection_id_fits = omega arith;
  user_fits = omega arith;
  db_fits = omega arith;
  addr_fits = omega arith;
  state_fits = omega arith;
  error_fits = omega arith;
  packets_fits = omega arith;
  cmd_fits = omega arith;
}

-- A writer into memory, such as the buffer of the log.
abbrev append_to : Text → Action ReadError Text (Unit {0})
append_to b w = (ok tt, w ++ b)

append_to-Appends : (b : Text) → Appends (λ (w : Text). w) (append_to b) b
append_to-Appends b w = record {
  front = b;
  back = [];
  parts = simp append-nil;
  taken = refl;
  whole = inl refl;
}

encode_packet-empty :
    encode_packet append_to (record empty { user = 65 ∷ [] }) []
    ≡ (ok tt, le_bytes 12 0 ++ (1 ∷ 0 ∷ 0 ∷ 0 ∷ 65 ∷ le_bytes 24 0))
unfolding encode_packet write_bytes le_bytes
encode_packet-empty = refl

decode_packet_short : (decode_packet (input empty [] (1 ∷ 2 ∷ 3 ∷ []))).0 ≡ err unexpected_eof
unfolding decode_packet binary_read read_full
decode_packet_short = refl

decode_packet_nothing : (decode_packet (input empty [] [])).0 ≡ err eof
unfolding decode_packet binary_read read_full
decode_packet_nothing = refl

login_decoded :
    decode_packet (input empty (new_decoder []).buf (encoding login ++ (1 ∷ 2 ∷ [])))
    ≡ (ok tt, input login (buf_after_packet (new_decoder []).buf login) (1 ∷ 2 ∷ []))
login_decoded =
    decode_packet-encoding login empty (new_decoder []).buf (1 ∷ 2 ∷ []) login-IsEncodable

-- A buffer in memory.
abbrev append_bytes : Text → Action (Unit {0}) Text (Unit {0})
append_bytes b t = (ok tt, t ++ b)

decode_packet-encode_packet_example :
    (b : Text) × (encode_packet append_bytes login [] ≡ (ok tt, b))
    × (decode_packet (input empty (new_decoder []).buf (b ++ (1 ∷ 2 ∷ [])))
        ≡ (ok tt, input login (buf_after_packet (new_decoder []).buf login) (1 ∷ 2 ∷ [])))
decode_packet-encode_packet_example =
    decode_packet-encode_packet (λ t. t) append_bytes (λ b. record { goes = λ t. refl }) login empty
      [] (new_decoder []).buf (1 ∷ 2 ∷ []) login-IsEncodable

encoding_cut : encoding empty ≡ le_bytes 39 0 ++ (0 ∷ [])
unfolding encoding framed le_bytes
encoding_cut = refl

empty-IsEncodable : IsEncodable empty
empty-IsEncodable = record {
  datetime_fits = omega arith;
  connection_id_fits = omega arith;
  user_fits = omega arith;
  db_fits = omega arith;
  addr_fits = omega arith;
  state_fits = omega arith;
  error_fits = omega arith;
  packets_fits = omega arith;
  cmd_fits = omega arith;
}

decode_packet_truncated_example : (decode_packet (input login (1 ∷ []) (le_bytes 39 0))).0 ≢ ok tt
decode_packet_truncated_example =
    decode_packet_truncated empty login (1 ∷ []) (le_bytes 39 0) [] 0 empty-IsEncodable encoding_cut

decode_packet-input_length_example : 2 + 40 ≤ length (encoding login ++ (1 ∷ 2 ∷ []))
decode_packet-input_length_example =
    decode_packet-input_length (input empty (new_decoder []).buf (encoding login ++ (1 ∷ 2 ∷ [])))
      (input login (buf_after_packet (new_decoder []).buf login) (1 ∷ 2 ∷ [])) login_decoded

length-encoding_example :
    length (encoding login)
    ≡ 40
      + (length login.user
          + length login.db
          + length login.addr
          + length login.state
          + length login.error
          + length login.cmd
          + length login.packets)
length-encoding_example = length-encoding login
