-- ===== src/SendPacket/RoundTrip.antt =====
-- `DecodePacket` reads back what `EncodePacket` writes.
use mysql8_audit_proxy.Base.{
  ℕ, ◌%◌, ◌^◌, ◌<◌, ◌≡◌, refl, [], ◌∷◌, ◌++◌, Text, length, ok, append_assoc, arith, length-append,
  take-length-append, drop-length-append,
}
use mysql8_audit_proxy.Base.Bytes.{le_bytes, length-le_bytes, of_le_bytes-le_bytes}
use mysql8_audit_proxy.SendPacket.{
  SendPacket, encode_packet, read_full, binary_read, resized, overwrite, fill, read_bytes,
  decode_packet,
}
use mysql8_audit_proxy.Base.Action.{Action}
use mysql8_audit_proxy.SendPacket.Encoding.{framed, encoding, Extends, encode_packet-Extends}

pub read_full-append : (bs rest : Text) → read_full (length bs) (bs ++ rest) ≡ (ok bs, rest)
unfolding read_full
read_full-append [] rest = refl
read_full-append (b ∷ bs) rest =
    ground (arith, take-length-append bs rest, drop-length-append bs rest, length-append bs rest)

read_full-prefix :
    (n : ℕ) (bs rest : Text) → length bs ≡ n → read_full n (bs ++ rest) ≡ (ok bs, rest)
read_full-prefix n bs rest h = rw (← h) (read_full-append bs rest)

pub binary_read-le_bytes :
    (n v : ℕ) (buf rest : Text)
    → v < 256 ^ n
    → binary_read n (record { buf = buf; src = le_bytes n v ++ rest })
      ≡ (ok v, record { buf = buf; src = rest })
unfolding binary_read
binary_read-le_bytes n v buf rest h =
    rw (read_full-prefix n (le_bytes n v) rest (length-le_bytes n v), of_le_bytes-le_bytes n v h)

-- The buffer after a byte string was read into it.
abbrev pub buf_after : Text → Text → Text
buf_after buf b = overwrite b (resized (length b) buf)

fill-append :
    (b buf rest : Text)
    → fill (length b) (record { buf = buf; src = b ++ rest })
      ≡ (ok b, record { buf = overwrite b buf; src = rest })
unfolding fill
fill-append b buf rest = rw (read_full-append b rest)

pub read_bytes-framed :
    (b buf rest : Text)
    → length b < 2 ^ 32
    → read_bytes (record { buf = buf; src = framed b ++ rest })
      ≡ (ok b, record { buf = buf_after buf b; src = rest })
unfolding framed read_bytes
read_bytes-framed b buf rest h =
    let small : length b % 2 ^ 32 ≡ length b = omega arith in
    rw (small, append_assoc, binary_read-le_bytes 4 (length b) buf (b ++ rest) h)
      (fill-append b (resized (length b) buf) rest)

-- The values fit their fields, and the lengths fit the uint32 in front of each byte string.
pub record IsEncodable (p : SendPacket) : Type 0 where
  pub datetime_fits : p.datetime < 2 ^ 64
  pub connection_id_fits : p.connection_id < 2 ^ 32
  pub user_fits : length p.user < 2 ^ 32
  pub db_fits : length p.db < 2 ^ 32
  pub addr_fits : length p.addr < 2 ^ 32
  pub state_fits : length p.state < 2 ^ 32
  pub error_fits : length p.error < 2 ^ 32
  pub packets_fits : length p.packets < 2 ^ 32
  pub cmd_fits : length p.cmd < 2 ^ 32

pub buf_after_packet : Text → SendPacket → Text
buf_after_packet buf p =
    let strings =
      buf_after (buf_after (buf_after (buf_after (buf_after buf p.user) p.db) p.addr) p.state) in
    buf_after (buf_after (strings p.error) p.cmd) p.packets

-- An encoding is read back.
pub decode_packet-encoding :
    (p old : SendPacket) (buf rest : Text)
    → IsEncodable p
    → decode_packet
        (record { packet = old; decoder = record { buf = buf; src = encoding p ++ rest } })
      ≡ (
        ok tt,
        record { packet = p; decoder = record { buf = buf_after_packet buf p; src = rest } },
      )
unfolding decode_packet encoding buf_after_packet
decode_packet-encoding p old buf rest h = simp append_assoc (
    rw (binary_read-le_bytes 8 p.datetime _ _ h.datetime_fits) (
      rw (binary_read-le_bytes 4 p.connection_id _ _ h.connection_id_fits) (
        rw (read_bytes-framed p.user _ _ h.user_fits) (
          rw (read_bytes-framed p.db _ _ h.db_fits) (
            rw (read_bytes-framed p.addr _ _ h.addr_fits) (
              rw (read_bytes-framed p.state _ _ h.state_fits) (
                rw (read_bytes-framed p.error _ _ h.error_fits) (
                  rw (read_bytes-framed p.cmd _ _ h.cmd_fits)
                    (rw (read_bytes-framed p.packets _ _ h.packets_fits))))))))))

module _ {E W : Type 0} (st : Text → W) (write : Text → Action E W (Unit {0}))
    (extends : (b : Text) → Extends st (write b) b) where
  -- Of a packet whose values fit their fields: `EncodePacket`, over a writer that takes all bytes,
  -- returns no error, and `DecodePacket` reads the bytes that it has written back as that packet,
  -- whatever the caller's packet and the buffer held before, and leaves what follows in the reader.
  pub decode_packet-encode_packet :
      (p old : SendPacket) (t buf rest : Text)
      → IsEncodable p
      → (b : Text) × (encode_packet write p (st t) ≡ (ok tt, st (t ++ b)))
        × (decode_packet (record { packet = old; decoder = record { buf = buf; src = b ++ rest } })
            ≡ (
              ok tt,
              record { packet = p; decoder = record { buf = buf_after_packet buf p; src = rest } },
            ))
  decode_packet-encode_packet p old t buf rest h = (
    encoding p,
    (encode_packet-Extends st write extends p).goes t,
    decode_packet-encoding p old buf rest h,
  )
