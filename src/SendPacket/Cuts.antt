-- ===== src/SendPacket/Cuts.antt =====
-- A log that ends between two fields of a record.
use mysql8_audit_proxy.Base.{
  concat, ℕ, suc, ◌<◌, ◌≡◌, refl, [], ◌∷◌, List, Text, take, err, append-nil, arith,
}
use mysql8_audit_proxy.Base.Bytes.{le_bytes}
use mysql8_audit_proxy.SendPacket.{
  SendPacket, eof, binary_read, read_bytes, read_full, decode_packet,
}
use mysql8_audit_proxy.SendPacket.Encoding.{framed, encoding}
use mysql8_audit_proxy.SendPacket.RoundTrip.{IsEncodable, binary_read-le_bytes, read_bytes-framed}
use mysql8_audit_proxy.SendPacket.Truncation.{input}

-- The fields of a record as they are written.
abbrev pub fields : SendPacket → List Text
fields p =
    le_bytes 8 p.datetime
    ∷ le_bytes 4 p.connection_id
    ∷ framed p.user
    ∷ framed p.db
    ∷ framed p.addr
    ∷ framed p.state
    ∷ framed p.error
    ∷ framed p.cmd
    ∷ framed p.packets
    ∷ []

pub concat-fields : (p : SendPacket) → concat (fields p) ≡ encoding p
unfolding encoding
concat-fields p = simp append-nil

binary_read_eof :
    (n : ℕ) (buf : Text)
    → binary_read (suc n) (record { buf = buf; src = [] })
      ≡ (err eof, record { buf = buf; src = [] })
unfolding binary_read read_full
binary_read_eof n buf = refl

read_bytes_eof :
    (buf : Text)
    → read_bytes (record { buf = buf; src = [] }) ≡ (err eof, record { buf = buf; src = [] })
unfolding read_bytes
read_bytes_eof buf = rw (binary_read_eof 3 buf)

-- The encoding of a packet whose values fit their fields, cut behind any number of its nine fields
-- but the last, is decoded to `io.EOF`, as the end of a complete log is.
pub field_cut :
    (p old : SendPacket) (buf : Text) (k : ℕ)
    → IsEncodable p
    → k < 9
    → (decode_packet (input old buf (concat (take k (fields p))))).0 ≡ err eof
unfolding decode_packet
field_cut p old buf (suc (suc (suc (suc (suc (suc (suc (suc (suc k))))))))) h hk =
    absurd (omega arith)
field_cut p old buf _ h hk = simp (
  binary_read_eof 7,
  binary_read_eof 3,
  read_bytes_eof,
  binary_read-le_bytes,
  read_bytes-framed,
  h.datetime_fits,
  h.connection_id_fits,
  h.user_fits,
  h.db_fits,
  h.addr_fits,
  h.state_fits,
  h.error_fits,
  h.cmd_fits,
)
