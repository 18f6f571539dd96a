-- ===== src/ClientSess/Columns.antt =====
-- The columns of a printed line.
use mysql8_audit_proxy.Base.{
  ℕ, zero, suc, ◌+◌, ◌-◌, ◌/◌, ◌%◌, ◌≤◌, ◌<◌, ◌≡◌, refl, ap, [], ◌∷◌, Text, length, replicate,
  get_elem?, All, arith, length-append, length-replicate,
}
use mysql8_audit_proxy.LogDecoder.Commands.{hex_digit}
use mysql8_audit_proxy.ClientSess.{
  hex_digits, padded_hex, hex_part, hex_parts, join, hex_column, ascii_parts, dump_line,
}

length-hex_digits_one : (fuel n : ℕ) → n < 16 → length (hex_digits fuel n) ≤ 1
unfolding hex_digits
length-hex_digits_one zero n h = omega arith
length-hex_digits_one (suc fuel) n h = ground arith

length-hex_digits : (fuel n : ℕ) → n < 256 → length (hex_digits fuel n) ≤ 2
unfolding hex_digits
length-hex_digits zero n h = omega arith
length-hex_digits (suc fuel) n h = ground (
  arith,
  length-append (hex_digits fuel (n / 16)) (hex_digit (n % 16) ∷ []),
  length-hex_digits_one fuel (n / 16) (omega arith),
)

length-padded_hex : (c : ℕ) → c < 256 → length (padded_hex 2 c) ≡ 2
unfolding padded_hex
length-padded_hex c h =
    let digits = hex_digits (c + 1) c in
    omega (
      arith,
      length-append (replicate (2 - length digits) b'0') digits,
      length-replicate {A = ℕ} (2 - length digits) b'0',
      length-hex_digits (c + 1) c h,
    )

get_elem?-All :
    (line : Text) (i : ℕ) → All (λ c. c < 256) line → length (hex_part (get_elem? line i)) ≡ 2
unfolding hex_part
get_elem?-All [] i h = refl
get_elem?-All (c ∷ line) zero h = length-padded_hex c h.0
get_elem?-All (c ∷ line) (suc i) h = get_elem?-All line i h.1

-- The hexadecimal part of a line of bytes fills its 48 columns, however long the line.
pub length-hex_column : (line : Text) → All (λ c. c < 256) line → length (hex_column line) ≡ 48
unfolding hex_column hex_parts join
length-hex_column line h = simp (length-append, get_elem?-All line _ h) refl

length-ascii_parts : (line : Text) → length (ascii_parts line) ≡ length line
unfolding ascii_parts
length-ascii_parts [] = refl
length-ascii_parts (c ∷ line) = ap suc (length-ascii_parts line)

-- A line of bytes stands in fixed columns: besides the prefix, the number and its own characters it
-- takes 55, and the hexadecimal part is never longer than its 48.
pub length-dump_line :
    (prefix : Text) (offset : ℕ) (line : Text)
    → All (λ c. c < 256) line
    → length (dump_line prefix offset line)
      ≡ length prefix + length (padded_hex 8 offset) + 55 + length line
unfolding dump_line
length-dump_line prefix offset line h =
    simp (length-append, length-ascii_parts, length-hex_column line h) (omega arith)
