-- ===== src/ClientSess.antt =====
-- The debugging aids of pkg/mysqlproxy/clntsess.go: writers that print what goes through them, sixteen
-- bytes a line, and the names of capability flags.
pub mod Dump
pub mod Wrappers
pub mod Columns
pub mod Capability
pub mod Relay
pub mod Runs
use mysql8_audit_proxy.Base.{
  ℕ, zero, suc, ◌+◌, ◌-◌, ◌/◌, ◌%◌, ◌<◌, ◌&&◌, Bool, true, false, Option, none, some, List, [], ◌∷◌,
  ◌++◌, map, Text, codes, length, take, drop, replicate, get_elem?, ltb, leb, ◌==◌, if◌then◌else◌,
}
use mysql8_audit_proxy.LogDecoder.Commands.{hex_digit}

-- The hexadecimal digits; a number has at most as many as it says.
unfoldable pub hex_digits : ℕ → ℕ → Text
unfolding hex_digit
hex_digits zero n = []
hex_digits (suc fuel) n =
    let front = hex_digits fuel (n / 16) in
    if ltb n 16 then hex_digit n ∷ [] else front ++ (hex_digit (n % 16) ∷ [])

-- `fmt.Sprintf("%0wx", n)`.
unfoldable pub padded_hex : ℕ → ℕ → Text
unfolding hex_digits
padded_hex width n =
    let digits = hex_digits (n + 1) n in replicate (width - length digits) b'0' ++ digits

-- The part of `line[i]`, or blanks behind the end of the line.
unfoldable pub hex_part : Option ℕ → Text
unfolding padded_hex
hex_part none = codes "  "
hex_part (some c) = padded_hex 2 c

-- The parts from `i` on, with an empty one behind the eighth.
unfoldable pub hex_parts : Text → ℕ → ℕ → List Text
unfolding hex_part
hex_parts line zero i = []
hex_parts line (suc rounds) i =
    let parts = hex_parts line rounds (i + 1) in
    hex_part (get_elem? line i) ∷ (if i == 7 then [] ∷ parts else parts)

-- `strings.Join`.
unfoldable pub join : Text → List Text → Text
join sep [] = []
join sep (p ∷ []) = p
join sep (p ∷ q ∷ ps) = p ++ (sep ++ join sep (q ∷ ps))

unfoldable pub hex_column : Text → Text
unfolding hex_parts join
hex_column line = join (codes " ") (hex_parts line 16 0)

unfoldable pub ascii_parts : Text → Text
ascii_parts = map (λ c. if leb 0x20 c && leb c 0x7e then c else b'.')

-- `%-48s`.
abbrev pub pad_right : ℕ → Text → Text
pad_right width s = s ++ replicate (width - length s) b' '

-- A line of `DebugWriter.dump`, and of `DebugConn.dump`, which repeats its text.
unfoldable pub dump_line : Text → ℕ → Text → Text
dump_line prefix offset line =
    prefix
    ++ (codes " "
        ++ (padded_hex 8 offset
            ++ (codes "  "
                ++ (pad_right 48 (hex_column line)
                    ++ (codes " |" ++ (ascii_parts line ++ codes "|\n"))))))

-- The lines of `b` from `offset` on, where `base` bytes went before `b`.
unfoldable pub dump_loop : Text → ℕ → Text → ℕ → ℕ → Text
unfolding dump_line
dump_loop prefix base b zero offset = []
dump_loop prefix base b (suc fuel) offset =
    let end = if ltb (length b) (offset + 16) then length b else offset + 16 in
    let line = take (end - offset) (drop offset b) in
    let lines = dump_loop prefix base b fuel (offset + 16) in
    if ltb offset (length b) then dump_line prefix (base + offset) line ++ lines else []

unfoldable pub dump : Text → ℕ → Text → Text
unfolding dump_loop
dump prefix base b = dump_loop prefix base b (length b + 1) 0

-- `DebugWriter`, with what was printed. The offset counts the bytes written; that there are fewer than
-- 2 ^ 63 of them is assumed.
pub record DebugWriter (W : Type 0) : Type 0 where
  pub prefix : Text
  pub offset : ℕ
  pub printed : Text
  pub inner : W

-- `DebugConn`, with what went to `dumpDest`; a limit of 0 is none.
pub record DebugConn (W : Type 0) : Type 0 where
  pub prefix : Text
  pub offset : ℕ
  pub printed : Text
  pub max_dump_per_buf : ℕ
  pub conn : W

abbrev pub wrap_conn : {W : Type 0} → W → Text → DebugConn W
wrap_conn conn prefix = record {
  prefix = prefix;
  offset = 0;
  printed = [];
  max_dump_per_buf = 0;
  conn = conn;
}

unfoldable pub conn_dump_loop : Text → ℕ → Text → ℕ → ℕ → Text
unfolding dump_line
conn_dump_loop prefix base buf zero off = []
conn_dump_loop prefix base buf (suc fuel) off =
    let end = if ltb (length buf) (off + 16) then length buf else off + 16 in
    let line = take (end - off) (drop off buf) in
    let lines = conn_dump_loop prefix base buf fuel (off + 16) in
    if ltb off (length buf) then dump_line prefix (base + off) line ++ lines else []

unfoldable pub conn_dump : ℕ → Text → ℕ → Text → Text
unfolding conn_dump_loop
conn_dump limit prefix base buf =
    let buf = if ltb 0 limit && ltb limit (length buf) then take limit buf else buf in
    conn_dump_loop prefix base buf (length buf + 1) 0

module _ {E W : Type 0} (write : Text → W → (ℕ × Option E) × W) where
  -- The writers over `write`, that of the connection.
  unfoldable pub debug_write : Text → DebugWriter W → (ℕ × Option E) × DebugWriter W
  unfolding dump
  debug_write p d =
      let (r, inner) = write p d.inner in
      (
        r,
        record d {
          offset = d.offset + r.0;
          printed = d.printed ++ dump d.prefix d.offset p;
          inner = inner;
        },
      )

  unfoldable pub conn_write : Text → DebugConn W → (ℕ × Option E) × DebugConn W
  unfolding conn_dump
  conn_write p d =
      let (r, conn) = write p d.conn in
      (
        r,
        record d {
          offset = d.offset + r.0;
          printed = d.printed ++ conn_dump d.max_dump_per_buf d.prefix d.offset p;
          conn = conn;
        },
      )
