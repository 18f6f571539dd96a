-- ===== src/LogDecoder/Records.antt =====
-- `filePrint` over the records of a log.
use mysql8_audit_proxy.Base.{
  concat, ℕ, zero, suc, ◌+◌, ◌≤◌, ◌<◌, ◌≡◌, ◌≢◌, refl, sym, ap, ◌∙◌, Option, some, List, [], ◌∷◌,
  ◌++◌, Text, length, take, All, Result, ok, err, arith, append-nil, append_assoc, length-append,
}
use mysql8_audit_proxy.SendPacket.{
  SendPacket, ReadError, eof, unexpected_eof, Decoding, decode_packet, new_decoder, empty,
}
use mysql8_audit_proxy.SendPacket.Encoding.{encoding, length-encoding}
use mysql8_audit_proxy.SendPacket.RoundTrip.{IsEncodable, decode_packet-encoding, buf_after_packet}
use mysql8_audit_proxy.SendPacket.Truncation.{input}
use mysql8_audit_proxy.SendPacket.Cuts.{fields, field_cut}
use mysql8_audit_proxy.SendPacket.Progress.{input_length, decode_packet-input_length}
use mysql8_audit_proxy.LogDecoder.{
  Packet, Printed, finished, failed, stuck, print_decoded, print_loop, file_print, format_packet,
}
use mysql8_audit_proxy.LogDecoder.Commands.{Command}

-- A log of whole records.
abbrev pub records : List SendPacket → Text
records [] = []
records (p ∷ ps) = encoding p ++ records ps

abbrev stopped : ReadError → Printed
stopped eof = finished
stopped unexpected_eof = failed unexpected_eof

print_decoded_stops :
    (format : SendPacket → Option Packet) (loop : Decoding → List Packet × Printed) (x : ReadError)
    (r : Result ReadError (Unit {0}) × Decoding)
    → r.0 ≡ err x
    → print_decoded format loop r ≡ ([], stopped x)
unfolding print_decoded
print_decoded_stops format loop x (err eof, s) e = ground arith
print_decoded_stops format loop x (err unexpected_eof, s) e = ground arith
print_decoded_stops format loop x (ok u, s) e = cc

print_decoded-ne-stuck :
    (format : SendPacket → Option Packet) (loop : Decoding → List Packet × Printed)
    (r : Result ReadError (Unit {0}) × Decoding)
    → ((u : Unit {0}) (s : Decoding) → r ≡ (ok u, s) → (loop s).1 ≢ stuck)
    → (print_decoded format loop r).1 ≢ stuck
unfolding print_decoded
print_decoded-ne-stuck format loop (err eof, s) h = λ e. cc
print_decoded-ne-stuck format loop (err unexpected_eof, s) h = λ e. cc
print_decoded-ne-stuck format loop (ok u, s) h = ground (arith, h u s refl)

empty-IsEncodable : IsEncodable empty
empty-IsEncodable = record {
  datetime_fits = omega arith;
  connection_id_fits = omega arith;
  user_fits = omega arith;
  db_fits = omega arith;
  addr_fits = omega arith;
  state_fits = omega arith;
  error_fits = omega arith;
  packets_fits = omega arith;
  cmd_fits = omega arith;
}

module _ (byte_of : Command → ℕ) where
  -- The packets are printed, one by one, as those of the second list.
  abbrev pub Formatted : List SendPacket → List Packet → Type 0
  Formatted [] [] = Unit
  Formatted (p ∷ ps) (q ∷ qs) = (format_packet byte_of p ≡ some q) × Formatted ps qs
  Formatted [] (q ∷ qs) = ⊥
  Formatted (p ∷ ps) [] = ⊥

  print_loop_record :
      (fuel : ℕ) (p old : SendPacket) (q : Packet) (buf rest : Text)
      → IsEncodable p
      → format_packet byte_of p ≡ some q
      → print_loop byte_of (suc fuel) (input old buf (encoding p ++ rest)) ≡ (
        q ∷ (print_loop byte_of fuel (input p (buf_after_packet buf p) rest)).0,
        (print_loop byte_of fuel (input p (buf_after_packet buf p) rest)).1,
      )
  unfolding print_loop print_decoded
  print_loop_record fuel p old q buf rest h e =
      rw (decode_packet-encoding p old buf rest h, e, print_decoded)

  print_loop-ne-stuck :
      (fuel : ℕ) (s : Decoding) → input_length s < fuel → (print_loop byte_of fuel s).1 ≢ stuck
  unfolding print_loop
  print_loop-ne-stuck zero s h = absurd (omega arith)
  print_loop-ne-stuck (suc fuel) s h =
      print_decoded-ne-stuck (format_packet byte_of) (print_loop byte_of fuel) (decode_packet s)
        (λ u t e. print_loop-ne-stuck fuel t (omega (arith, decode_packet-input_length s t e)))

  -- The printing of any log comes to an end: one round per byte and one more are enough for the
  -- loop.
  pub file_print-ne-stuck : (log : Text) → (file_print byte_of log).1 ≢ stuck
  unfolding file_print new_decoder
  file_print-ne-stuck log = print_loop-ne-stuck (length log + 1) _ (omega arith)

  print_loop-records :
      (ps : List SendPacket) (qs : List Packet) (fuel : ℕ) (old : SendPacket) (buf tail : Text)
      (x : ReadError)
      → All IsEncodable ps
      → Formatted ps qs
      → length ps < fuel
      → ((old : SendPacket) (buf : Text) → (decode_packet (input old buf tail)).0 ≡ err x)
      → print_loop byte_of fuel (input old buf (records ps ++ tail)) ≡ (qs, stopped x)
  print_loop-records ps qs zero old buf tail x he hf lt stop = absurd (omega arith)
  print_loop-records [] [] (suc fuel) old buf tail x he hf lt stop =
      unfold print_loop in
      print_decoded_stops (format_packet byte_of) (print_loop byte_of fuel) x _ (stop old buf)
  print_loop-records [] (q ∷ qs) (suc fuel) old buf tail x he hf lt stop = absurd hf
  print_loop-records (p ∷ ps) [] (suc fuel) old buf tail x he hf lt stop = absurd hf
  print_loop-records (p ∷ ps) (q ∷ qs) (suc fuel) old buf tail x he hf lt stop =
      ap (λ t. print_loop byte_of (suc fuel) (input old buf t))
        (append_assoc (encoding p) (records ps) tail)
      ∙ print_loop_record fuel p old q buf (records ps ++ tail) he.0 hf.0
      ∙ ap (λ (r : List Packet × Printed). (q ∷ r.0, r.1))
          (print_loop-records ps qs fuel p (buf_after_packet buf p) tail x he.1 hf.1 (omega arith)
            stop)

  length-records : (ps : List SendPacket) → length ps ≤ length (records ps)
  length-records [] = omega arith
  length-records (p ∷ ps) =
      omega (arith, length-records ps, length-append (encoding p) (records ps), length-encoding p)

  module _ (ps : List SendPacket) (qs : List Packet) (encodable : All IsEncodable ps)
      (formatted : Formatted ps qs) where
    file_print-stops :
        (tail : Text) (x : ReadError)
        → ((old : SendPacket) (buf : Text) → (decode_packet (input old buf tail)).0 ≡ err x)
        → file_print byte_of (records ps ++ tail) ≡ (qs, stopped x)
    unfolding file_print new_decoder
    file_print-stops tail x stop =
        print_loop-records ps qs _ empty _ tail x encodable formatted
          (omega (arith, length-records ps, length-append (records ps) tail)) stop

    -- A log of encoded packets, whose values fit their fields and none of which makes the tool
    -- panic, is printed packet by packet. If a record behind them breaks off after `k` of its nine
    -- fields, they are printed all the same, and no error is returned.
    pub file_print-field_cut :
        (p : SendPacket) (k : ℕ)
        → IsEncodable p
        → k < 9
        → file_print byte_of (records ps ++ concat (take k (fields p))) ≡ (qs, finished)
    file_print-field_cut p k h hk =
        file_print-stops (concat (take k (fields p))) eof (λ old buf. field_cut p old buf k h hk)

    -- So is a log that ends with them.
    pub file_print-whole : file_print byte_of (records ps) ≡ (qs, finished)
    file_print-whole =
        ap (file_print byte_of) (sym (append-nil (records ps)))
        ∙ file_print-field_cut empty 0 empty-IsEncodable (omega arith)
