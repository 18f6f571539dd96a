-- ===== src/Base/Base64.antt =====
-- `base64.RawStdEncoding`: three bytes as four letters, without padding. Decoding skips line breaks
-- and looks at no left-over bits.
use Prim.Native.Nat.{ℕ, ◌+◌, ◌-◌, ◌*◌, ◌/◌, ◌%◌, ◌<◌}
use mathlib.Core.Path.{◌≡◌, refl}
use mathlib.Core.Bool.{Bool, ◌&&◌, ◌||◌}
use mathlib.Core.Option
use mathlib.Core.Option.{Option, none, some}
use mathlib.Core.List.{List, [], ◌∷◌}
use native.Mathlib.Omega.{arith}
use mysql8_audit_proxy.Base.Tests.{leb, ltb, ◌==◌, if◌then◌else◌}
use mysql8_audit_proxy.Base.Lists.{All}
use mysql8_audit_proxy.Base.Bytes.{IsByte}

letter : ℕ → ℕ
letter n =
    if ltb n 26
    then n + b'A'
    else (if ltb n 52
        then n - 26 + b'a'
        else (if ltb n 62 then n - 52 + b'0' else (if n == 62 then b'+' else b'/')))

digit : ℕ → Option ℕ
digit c =
    if leb b'A' c && leb c b'Z'
    then some (c - b'A')
    else (if leb b'a' c && leb c b'z'
        then some (c - b'a' + 26)
        else (if leb b'0' c && leb c b'9'
            then some (c - b'0' + 52)
            else (if c == b'+' then some 62 else (if c == b'/' then some 63 else none))))

pub encode : List ℕ → List ℕ
encode [] = []
encode (a ∷ []) = letter (a / 4) ∷ letter (a % 4 * 16) ∷ []
encode (a ∷ b ∷ []) = letter (a / 4) ∷ letter (a % 4 * 16 + b / 16) ∷ letter (b % 16 * 4) ∷ []
encode (a ∷ b ∷ c ∷ bs) =
    letter (a / 4)
    ∷ letter (a % 4 * 16 + b / 16)
    ∷ letter (b % 16 * 4 + c / 64)
    ∷ letter (c % 64)
    ∷ encode bs

is_line_break : ℕ → Bool
is_line_break c = c == 10 || c == 13

-- The values of the letters, line breaks left out.
digits : List ℕ → Option (List ℕ)
digits [] = some []
digits (c ∷ cs) =
    let rest = digits cs in
    if is_line_break c
    then rest
    else elim (digit c) [ none ↦ none | some d ↦ Option.map (◌∷◌ d) rest ]

bytes : List ℕ → Option (List ℕ)
bytes [] = some []
bytes (w ∷ []) = none
bytes (w ∷ x ∷ []) = some ((w * 4 + x / 16) ∷ [])
bytes (w ∷ x ∷ y ∷ []) = some ((w * 4 + x / 16) ∷ (x % 16 * 16 + y / 4) ∷ [])
bytes (w ∷ x ∷ y ∷ z ∷ ds) =
    Option.map (λ bs. (w * 4 + x / 16) ∷ (x % 16 * 16 + y / 4) ∷ (y % 4 * 64 + z) ∷ bs) (bytes ds)

pub decode : List ℕ → Option (List ℕ)
decode s = elim (digits s) [ none ↦ none | some ds ↦ bytes ds ]

digits-letter :
    (n : ℕ) (cs : List ℕ) → n < 64 → digits (letter n ∷ cs) ≡ Option.map (◌∷◌ n) (digits cs)
unfolding digits digit letter is_line_break
digits-letter n cs h = ground arith

-- The digits that `encode` writes.
sixes : List ℕ → List ℕ
sixes [] = []
sixes (a ∷ []) = (a / 4) ∷ (a % 4 * 16) ∷ []
sixes (a ∷ b ∷ []) = (a / 4) ∷ (a % 4 * 16 + b / 16) ∷ (b % 16 * 4) ∷ []
sixes (a ∷ b ∷ c ∷ bs) =
    (a / 4) ∷ (a % 4 * 16 + b / 16) ∷ (b % 16 * 4 + c / 64) ∷ (c % 64) ∷ sixes bs

digits-four :
    (w x y z : ℕ) (cs ds : List ℕ)
    → w < 64
    → x < 64
    → y < 64
    → z < 64
    → digits cs ≡ some ds
    → digits (letter w ∷ letter x ∷ letter y ∷ letter z ∷ cs) ≡ some (w ∷ x ∷ y ∷ z ∷ ds)
digits-four w x y z cs ds hw hx hy hz e =
    rw (digits-letter w _ hw)
      (rw (digits-letter x _ hx) (rw (digits-letter y _ hy) (rw (digits-letter z _ hz, e))))

digits-encode : (s : List ℕ) → All IsByte s → digits (encode s) ≡ some (sixes s)
unfolding encode sixes
digits-encode [] h = unfold digits in refl
digits-encode (a ∷ []) h =
    rw (digits-letter (a / 4) _ (omega arith))
      (rw (digits-letter (a % 4 * 16) _ (omega arith)) (unfold digits in refl))
digits-encode (a ∷ b ∷ []) h = rw (digits-letter (a / 4) _ (omega arith)) (
    rw (digits-letter (a % 4 * 16 + b / 16) _ (omega arith))
      (rw (digits-letter (b % 16 * 4) _ (omega arith)) (unfold digits in refl)))
digits-encode (a ∷ b ∷ c ∷ bs) h =
    digits-four (a / 4) (a % 4 * 16 + b / 16) (b % 16 * 4 + c / 64) (c % 64) (encode bs) (sixes bs)
      (omega arith) (omega arith) (omega arith) (omega arith) (digits-encode bs h.1.1.1)

bytes-sixes : (s : List ℕ) → All IsByte s → bytes (sixes s) ≡ some s
unfolding bytes sixes
bytes-sixes [] h = refl
bytes-sixes (a ∷ []) h = ground arith
bytes-sixes (a ∷ b ∷ []) h = ground arith
bytes-sixes (a ∷ b ∷ c ∷ bs) h = ground (arith, bytes-sixes bs)

-- Decoding gives back the bytes that were encoded.
pub decode-encode : (s : List ℕ) → All IsByte s → decode (encode s) ≡ some s
unfolding decode
decode-encode s h = rw (digits-encode s h, decode) (bytes-sixes s h)
