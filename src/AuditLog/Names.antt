-- ===== src/AuditLog/Names.antt =====
-- `time2Path` of pkg/mysqlproxy/log/log.go: the name of the file of a time.
use mysql8_audit_proxy.Base.{
  ℕ, zero, suc, ◌+◌, ◌-◌, ◌/◌, ◌%◌, [], ◌∷◌, ◌++◌, ◌&&◌, Text, length, replicate, ltb, ◌==◌,
  if◌then◌else◌,
}

-- The parts of a `time.Time` that the names read.
pub record Time : Type 0 where
  pub year : ℕ
  pub month : ℕ
  pub day : ℕ
  pub hour : ℕ
  pub minute : ℕ
  pub second : ℕ

-- The decimal digits; a number has at most as many as it says.
unfoldable pub decimal : ℕ → ℕ → Text
decimal zero n = []
decimal (suc fuel) n =
    let front = decimal fuel (n / 10) in
    if ltb n 10 then (n + b'0') ∷ [] else front ++ ((n % 10 + b'0') ∷ [])

-- `fmt.Sprintf("%0wd", n)`.
unfoldable pub padded : ℕ → ℕ → Text
unfolding decimal
padded width n = let digits = decimal (n + 1) n in replicate (width - length digits) b'0' ++ digits

-- `strings.Replace(p, "%v", by, -1)` at the verb `v`.
unfoldable pub replace : ℕ → Text → Text → Text
replace verb by [] = []
replace verb by (a ∷ []) = a ∷ []
replace verb by (a ∷ b ∷ s) =
    let behind = replace verb by s in
    let further = replace verb by (b ∷ s) in
    if a == b'%' && b == verb then by ++ behind else a ∷ further

unfoldable pub time2path : Text → Time → Text
unfolding padded replace
time2path p t =
    let p = replace b'Y' (padded 4 t.year) p in
    let p = replace b'y' (padded 2 (t.year % 100)) p in
    let p = replace b'm' (padded 2 t.month) p in
    let p = replace b'd' (padded 2 t.day) p in
    let p = replace b'H' (padded 2 t.hour) p in
    let p = replace b'M' (padded 2 t.minute) p in replace b'S' (padded 2 t.second) p
