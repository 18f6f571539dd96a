-- ===== src/ClientSess/Capability/Fields.antt =====
-- The loop over the flags visits those that are set.
use Prim.Native.Nat.{bit_xor}
use mysql8_audit_proxy.Base.{
  ℕ, zero, suc, ◌+◌, ◌*◌, ◌/◌, ◌%◌, ◌^◌, ◌<◌, ◌≤◌, ◌≡◌, refl, sym, ap, ◌∙◌, false, Bool-cases, inl,
  inr, List, [], ◌∷◌, map, ◌==◌, if◌then◌else◌, arith,
}
use mysql8_audit_proxy.Base.Bits.{bit_xor-double, bit_xor_one}
use mysql8_audit_proxy.ClientSess.Capability.{trailing_zeros, fields_loop, fields_of}

-- The values of the digits that are not 0, among the lowest ones of a number.
abbrev pub ones : ℕ → ℕ → List ℕ
ones zero c = []
ones (suc digits) c =
    let higher = map (λ v. 2 * v) (ones digits (c / 2)) in if c % 2 == 1 then 1 ∷ higher else higher

trailing_zeros-double : (n c : ℕ) → trailing_zeros (suc n) (2 * c) ≡ suc (trailing_zeros n c)
unfolding trailing_zeros
trailing_zeros-double n c =
    let even : 2 * c % 2 ≡ 0 = omega arith in
    let half : 2 * c / 2 ≡ c = omega arith in rw (even, half) refl

pub power : (t : ℕ) → 2 ^ suc t ≡ 2 * 2 ^ t
power t = omega arith

fields_loop_next :
    (n fuel c : ℕ)
    → 0 < c
    → fields_loop n (suc fuel) c
      ≡ 2 ^ trailing_zeros n c ∷ fields_loop n fuel (bit_xor c (2 ^ trailing_zeros n c))
unfolding fields_loop
fields_loop_next n fuel c h = let some_digit : (c == 0) ≡ false = ground arith in rw some_digit refl

fields_loop_zero : (n fuel : ℕ) → fields_loop n fuel 0 ≡ []
unfolding fields_loop
fields_loop_zero n zero = refl
fields_loop_zero n (suc fuel) = refl

abbrev pub double : ℕ → ℕ
double v = 2 * v

fields_loop-double :
    (n fuel c : ℕ) → fields_loop (suc n) fuel (2 * c) ≡ map double (fields_loop n fuel c)
unfolding fields_loop
fields_loop-double n zero c = refl
fields_loop-double n (suc fuel) zero = refl
fields_loop-double n (suc fuel) (suc c) =
    let x = suc c in
    let f = 2 ^ trailing_zeros n x in
    let twice : 2 ^ trailing_zeros (suc n) (2 * x) ≡ 2 * f =
      ap (λ t. 2 ^ t) (trailing_zeros-double n x) ∙ power (trailing_zeros n x) in
    fields_loop_next (suc n) fuel (2 * x) (omega arith)
    ∙ ap (λ g. g ∷ fields_loop (suc n) fuel (bit_xor (2 * x) g)) twice
    ∙ ap (λ y. 2 * f ∷ fields_loop (suc n) fuel y) (bit_xor-double x f)
    ∙ ap (λ l. 2 * f ∷ l) (fields_loop-double n fuel (bit_xor x f))
    ∙ ap (map double) (sym (fields_loop_next n fuel x (omega arith)))

trailing_zeros_odd : (n c : ℕ) → trailing_zeros (suc n) (2 * c + 1) ≡ 0
unfolding trailing_zeros
trailing_zeros_odd n c = let odd : (2 * c + 1) % 2 ≡ 1 = omega arith in rw odd refl

fields_loop_odd :
    (n fuel c : ℕ)
    → fields_loop (suc n) (suc fuel) (2 * c + 1) ≡ 1 ∷ fields_loop (suc n) fuel (2 * c)
fields_loop_odd n fuel c =
    fields_loop_next (suc n) fuel (2 * c + 1) (omega arith)
    ∙ ap (λ t. 2 ^ t ∷ fields_loop (suc n) fuel (bit_xor (2 * c + 1) (2 ^ t)))
        (trailing_zeros_odd n c)
    ∙ ap (λ y. 1 ∷ fields_loop (suc n) fuel y) (bit_xor_one c)

fields_loop-ones : (n fuel c : ℕ) → c < 2 ^ n → n ≤ fuel → fields_loop n fuel c ≡ ones n c
fields_loop-ones zero fuel c h hf =
    let none_set : c ≡ 0 = omega arith in
    ap (fields_loop zero fuel) none_set ∙ fields_loop_zero zero fuel
fields_loop-ones (suc n) zero c h hf = absurd (omega arith)
fields_loop-ones (suc n) (suc fuel) c h hf = elim (Bool-cases (c % 2 == 1)) [
  | inl q ↦
      let is : c ≡ 2 * (c / 2) + 1 = ground arith in
      let less : c / 2 < 2 ^ n = omega (arith, power n) in
      ap (fields_loop (suc n) (suc fuel)) is
      ∙ fields_loop_odd n fuel (c / 2)
      ∙ ap (λ l. 1 ∷ l)
          (fields_loop-double n fuel (c / 2)
            ∙ ap (map double) (fields_loop-ones n fuel (c / 2) less (omega arith)))
      ∙ rw q refl
  | inr q ↦
      let is : c ≡ 2 * (c / 2) = ground arith in
      let less : c / 2 < 2 ^ n = omega (arith, power n) in
      ap (fields_loop (suc n) (suc fuel)) is
      ∙ fields_loop-double n (suc fuel) (c / 2)
      ∙ ap (map double) (fields_loop-ones n (suc fuel) (c / 2) less (omega arith))
      ∙ rw q refl
]

pub fields_of-ones : (c : ℕ) → c < 2 ^ 32 → fields_of c ≡ ones 32 c
unfolding fields_of
fields_of-ones c h = fields_loop-ones 32 32 c h (omega arith)
