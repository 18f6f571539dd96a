-- ===== src/SendPacket.antt =====
-- pkg/mysqlproxy/sendpacket/sendpacket.go: the binary audit record. A record is written as an int64
-- and an uint32, lowest byte first, and seven byte strings behind their uint32 lengths.

pub mod Encoding
pub mod RoundTrip
pub mod Truncation
pub mod Cuts
pub mod Progress
mod Runs
use mysql8_audit_proxy.Base.{
  ℕ, zero, suc, ◌%◌, ◌^◌, [], ◌∷◌, ◌++◌, Text, length, take, drop, replicate, ltb, leb,
  if◌then◌else◌, Result, ok, err,
}
use mysql8_audit_proxy.Base.Bytes.{le_bytes, of_le_bytes}
use mysql8_audit_proxy.Base.Action.{Action, ◌>>=◌, ◌>>◌, modify}

-- `datetime` is the bit pattern of an int64.
pub record SendPacket : Type 0 where
  pub datetime : ℕ
  pub connection_id : ℕ
  pub user : Text
  pub db : Text
  pub addr : Text
  pub state : Text
  pub error : Text
  pub packets : Text
  pub cmd : Text

abbrev pub empty : SendPacket
empty = record {
  datetime = 0;
  connection_id = 0;
  user = [];
  db = [];
  addr = [];
  state = [];
  error = [];
  packets = [];
  cmd = [];
}

-- `write` is the `Write` of the `io.Writer`, over that writer's state and its errors.
module _ {E W : Type 0} (write : Text → Action E W (Unit {0})) where
  pub write_bytes : Text → Action E W (Unit {0})
  write_bytes b = do write (le_bytes 4 (length b % 2 ^ 32)); write b

  pub encode_packet : SendPacket → Action E W (Unit {0})
  encode_packet bbp = do
    write (le_bytes 8 bbp.datetime)
    write (le_bytes 4 bbp.connection_id)
    write_bytes bbp.user
    write_bytes bbp.db
    write_bytes bbp.addr
    write_bytes bbp.state
    write_bytes bbp.error
    write_bytes bbp.cmd
    write_bytes bbp.packets

-- `io.EOF` and `io.ErrUnexpectedEOF`.
pub data ReadError : Type 0 where
  eof unexpected_eof : ReadError

-- `src` is what the reader has not delivered yet, and `buf` is `d.buf[:cap(d.buf)]`.
pub record Decoder : Type 0 where
  pub buf : Text
  pub src : Text

unfoldable pub new_decoder : Text → Decoder
new_decoder r = record { buf = replicate 1024 0; src = r }

-- `io.ReadFull(r, buf)` at a buffer of `n` bytes: the bytes that it reads, and what follows them.
unfoldable pub read_full : ℕ → Text → Result ReadError Text × Text
read_full zero src = (ok [], src)
read_full (suc n) [] = (err eof, [])
read_full (suc n) (b ∷ src) =
    if leb n (length src) then (ok (b ∷ take n src), drop n src) else (err unexpected_eof, [])

-- `binary.Read(r, binary.LittleEndian, &x)` at an `x` of `n` bytes, which has a buffer of its own.
abbrev pub number_read : Text → Result ReadError Text × Text → Result ReadError ℕ × Decoder
number_read buf (ok bs, rest) = (ok (of_le_bytes bs), record { buf = buf; src = rest })
number_read buf (err e, rest) = (err e, record { buf = buf; src = rest })

unfoldable pub binary_read : ℕ → Action ReadError Decoder ℕ
binary_read n d = number_read d.buf (read_full n d.src)

-- `d.buf` afterwards, if it is made anew where it is too short for `len` bytes.
unfoldable pub resized : ℕ → Text → Text
resized len buf = if ltb (length buf % 2 ^ 32) len then replicate len 0 else buf

-- The first bytes are read over.
abbrev pub overwrite : Text → Text → Text
overwrite bs buf = bs ++ drop (length bs) buf

abbrev pub filled : Decoder → Result ReadError Text × Text → Result ReadError Text × Decoder
filled d (ok bs, rest) = (ok bs, record { buf = overwrite bs d.buf; src = rest })
filled d (err e, rest) = (err e, record { buf = overwrite d.src d.buf; src = rest })

unfoldable pub fill : ℕ → Action ReadError Decoder Text
fill len d = filled d (read_full len d.src)

unfoldable pub read_bytes : Action ReadError Decoder Text
read_bytes = do len ← binary_read 4; modify (λ d. record d { buf = resized len d.buf }); fill len

-- The caller's packet and the decoder, which `DecodePacket` changes field by field.
pub record Decoding : Type 0 where
  pub packet : SendPacket
  pub decoder : Decoder

module _ {A : Type 0} where
  abbrev pub assigned :
      SendPacket
      → (SendPacket → A → SendPacket)
      → Result ReadError A × Decoder
      → Result ReadError (Unit {0}) × Decoding
  assigned p f (ok a, d) = (ok tt, record { packet = f p a; decoder = d })
  assigned p f (err e, d) = (err e, record { packet = p; decoder = d })

  -- Reads a value, and stores it in the packet unless there is an error.
  abbrev pub assign :
      (SendPacket → A → SendPacket)
      → Action ReadError Decoder A
      → Action ReadError Decoding (Unit {0})
  assign f m s = assigned s.packet f (m s.decoder)

unfoldable pub decode_packet : Action ReadError Decoding (Unit {0})
decode_packet = do
  assign (λ p v. record p { datetime = v }) (binary_read 8)
  assign (λ p v. record p { connection_id = v }) (binary_read 4)
  assign (λ p b. record p { user = b }) read_bytes
  assign (λ p b. record p { db = b }) read_bytes
  assign (λ p b. record p { addr = b }) read_bytes
  assign (λ p b. record p { state = b }) read_bytes
  assign (λ p b. record p { error = b }) read_bytes
  assign (λ p b. record p { cmd = b }) read_bytes
  assign (λ p b. record p { packets = b }) read_bytes
