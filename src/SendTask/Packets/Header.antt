-- ===== src/SendTask/Packets/Header.antt =====
-- A packet of the MySQL protocol as bytes, with its header of four.
use mysql8_audit_proxy.Base.{
  ℕ, ◌+◌, ◌^◌, ◌<◌, ◌≡◌, sym, ap, ◌∙◌, [], ◌∷◌, ◌++◌, Text, length, take, drop, arith, append_assoc,
  length-append, take-length-append, drop-length-append, drop-append_ge,
}
use mysql8_audit_proxy.Base.Bytes.{le_bytes, length-le_bytes, of_le_bytes, of_le_bytes-le_bytes}
use mysql8_audit_proxy.SendTask.Buffer.{Slice, store_at}
use mysql8_audit_proxy.SendTask.Packets.{packet_length}

-- A packet on the wire: the length of the payload in three bytes, the number of the packet, and the
-- payload.
abbrev pub header : ℕ → Text → Text
header sequence payload = le_bytes 3 (length payload) ++ (sequence ∷ [])

abbrev pub wire : ℕ → Text → Text
wire sequence payload = header sequence payload ++ payload

pub length-header : (sequence : ℕ) (payload : Text) → length (header sequence payload) ≡ 4
length-header sequence payload = omega (
  arith,
  length-append (le_bytes 3 (length payload)) (sequence ∷ []),
  length-le_bytes 3 (length payload),
)

-- The first `n` of some bytes that begin with `xs`, where these are `n`.
pub take-prefix : (n : ℕ) (xs ys : Text) → length xs ≡ n → take n (xs ++ ys) ≡ xs
take-prefix n xs ys h = rw (← h) (take-length-append xs ys)

pub drop-prefix : (n : ℕ) (xs ys : Text) → length xs ≡ n → drop n (xs ++ ys) ≡ ys
drop-prefix n xs ys h = rw (← h) (drop-length-append xs ys)

pub store_at-header :
    (b : Slice) (sequence : ℕ) (payload : Text)
    → store_at 0 (header sequence payload) b
      ≡ record b { mem = header sequence payload ++ drop 4 b.mem }
unfolding store_at
store_at-header b sequence payload =
    ap (λ n. record b { mem = header sequence payload ++ drop n b.mem })
      (let four : 0 + length (header sequence payload) ≡ 4 =
          omega (arith, length-header sequence payload) in
        four)

pub packet_length-header :
    (sequence : ℕ) (payload rest : Text) (n : ℕ)
    → length payload < 256 ^ 3
    → packet_length (record { mem = header sequence payload ++ rest; len = n }) ≡ length payload
unfolding packet_length
packet_length-header sequence payload rest n h =
    ap of_le_bytes (
      ap (take 3) (append_assoc (le_bytes 3 (length payload)) (sequence ∷ []) rest)
      ∙ take-prefix 3 (le_bytes 3 (length payload)) ((sequence ∷ []) ++ rest)
          (length-le_bytes 3 (length payload)))
    ∙ of_le_bytes-le_bytes 3 (length payload) h

pub store_at-payload :
    (front back payload : Text) (n : ℕ)
    → length front ≡ 4
    → store_at 4 payload (record { mem = front ++ back; len = n })
      ≡ record { mem = (front ++ payload) ++ drop (length payload) back; len = n }
unfolding store_at
store_at-payload front back payload n h =
    let behind : drop (4 + length payload) (front ++ back) ≡ drop (length payload) back =
      drop-append_ge (4 + length payload) front back (omega arith)
      ∙ ap (λ k. drop k back) (omega arith) in
    rw (take-prefix 4 front back h, behind)
      (ap (λ m. record { mem = m; len = n })
        (sym (append_assoc front payload (drop (length payload) back))))
