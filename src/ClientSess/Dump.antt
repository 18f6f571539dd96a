-- ===== src/ClientSess/Dump.antt =====
-- What the debugging writers print.
use mysql8_audit_proxy.Base.{
  ℕ, zero, suc, ◌+◌, ◌-◌, ◌≤◌, ◌<◌, ◌≡◌, ◌⊎◌, refl, sym, ap, ◌∙◌, inl, inr, List, [], ◌∷◌, ◌++◌,
  Text, length, take, drop, ltb, if◌then◌else◌, arith, concat, length-drop, length-take,
  take-append-drop, ge→ltb, lt→ltb,
}
use mysql8_audit_proxy.ClientSess.{dump_line, dump_loop, dump, conn_dump_loop, conn_dump}

drop_nil : (n : ℕ) → drop {A = ℕ} n [] ≡ []
drop_nil zero = refl
drop_nil (suc n) = refl

drop-drop : (n m k : ℕ) (xs : Text) → k ≡ n + m → drop k xs ≡ drop m (drop n xs)
drop-drop zero m k xs h = let same : k ≡ m = omega arith in ap (λ i. drop i xs) same
drop-drop (suc n) m zero xs h = absurd (omega arith)
drop-drop (suc n) m (suc k) [] h = sym (drop_nil m)
drop-drop (suc n) m (suc k) (x ∷ xs) h = drop-drop n m k xs (omega arith)

drop_all : (n : ℕ) (xs : Text) → length xs ≤ n → drop n xs ≡ []
drop_all zero [] h = refl
drop_all zero (x ∷ xs) h = absurd (omega arith)
drop_all (suc n) [] h = refl
drop_all (suc n) (x ∷ xs) h = drop_all n xs (omega arith)

leb-cases : (a b : ℕ) → (a ≤ b) ⊎ (b < a)
leb-cases a b = omega arith

-- Pieces of sixteen bytes, of which only the last may be shorter, but is not empty.
abbrev pub AreLines : List Text → Type 0
AreLines [] = Unit
AreLines (p ∷ []) = (0 < length p) × (length p ≤ 16)
AreLines (p ∷ q ∷ ps) = (length p ≡ 16) × AreLines (q ∷ ps)

AreLines-cons : (p : Text) (ps : List Text) → length p ≡ 16 → AreLines ps → AreLines (p ∷ ps)
AreLines-cons p [] h hs = (omega arith, omega arith)
AreLines-cons p (q ∷ ps) h hs = (h, hs)

-- The lines of the pieces, each with the number of the bytes before it.
abbrev pub numbered : Text → ℕ → List Text → Text
numbered prefix base [] = []
numbered prefix base (p ∷ ps) = dump_line prefix base p ++ numbered prefix (base + 16) ps

-- `b` is printed line by line.
pub record Dumped (prefix : Text) (base : ℕ) (b : Text) (printed : Text) : Type 0 where
  pub pieces : List Text
  pub are_lines : AreLines pieces
  pub whole : concat pieces ≡ b
  pub are_printed : printed ≡ numbered prefix base pieces

module _ (prefix : Text) (base : ℕ) (b : Text) where
  dump_loop-end : (fuel offset : ℕ) → length b ≤ offset → dump_loop prefix base b fuel offset ≡ []
  unfolding dump_loop
  dump_loop-end zero offset h = refl
  dump_loop-end (suc fuel) offset h = rw (ge→ltb offset (length b) h) refl

  dump_loop-next :
      (fuel offset k : ℕ)
      → offset < length b
      → (if ltb (length b) (offset + 16) then length b else offset + 16) - offset ≡ k
      → dump_loop prefix base b (suc fuel) offset
        ≡ dump_line prefix (base + offset) (take k (drop offset b))
          ++ dump_loop prefix base b fuel (offset + 16)
  unfolding dump_loop
  dump_loop-next fuel offset k h e = rw (lt→ltb offset (length b) h) (rw e refl)

  dump_loop-Dumped :
      (fuel offset : ℕ)
      → length b < fuel + offset
      → Dumped prefix (base + offset) (drop offset b) (dump_loop prefix base b fuel offset)
  unfolding dump_loop
  dump_loop-Dumped zero offset h = record {
    pieces = [];
    are_lines = tt;
    whole = sym (drop_all offset b (omega arith));
    are_printed = refl;
  }
  dump_loop-Dumped (suc fuel) offset h = elim (leb-cases (length b) offset) [
    | inl le ↦ record {
      pieces = [];
      are_lines = tt;
      whole = sym (drop_all offset b le);
      are_printed = dump_loop-end (suc fuel) offset le;
    }
    | inr lt ↦ elim (leb-cases (offset + 16) (length b)) [
      | inl full ↦
          let x = drop offset b in
          let p = take 16 x in
          let sixteen : length p ≡ 16 = length-take 16 x (omega (arith, length-drop offset b)) in
          let end : (if ltb (length b) (offset + 16) then length b else offset + 16) - offset ≡ 16 =
            rw (ge→ltb (length b) (offset + 16) full) (omega arith) in
          let further : base + (offset + 16) ≡ base + offset + 16 = omega arith in
          let d = dump_loop-Dumped fuel (offset + 16) (omega arith) in
          record {
            pieces = p ∷ d.pieces;
            are_lines = AreLines-cons p d.pieces sixteen d.are_lines;
            whole =
                ap (λ t. p ++ t) (d.whole ∙ drop-drop offset 16 (offset + 16) b refl)
                ∙ take-append-drop 16 x;
            are_printed =
                dump_loop-next fuel offset 16 lt end
                ∙ ap (λ t. dump_line prefix (base + offset) p ++ t)
                    (d.are_printed ∙ ap (λ n. numbered prefix n d.pieces) further);
          }
      | inr short ↦
          let x = drop offset b in
          let k = length b - offset in
          let p = take k x in
          let long : length p ≡ k = length-take k x (omega (arith, length-drop offset b)) in
          let end : (if ltb (length b) (offset + 16) then length b else offset + 16) - offset ≡ k =
            rw (lt→ltb (length b) (offset + 16) short) refl in
          record {
            pieces = p ∷ [];
            are_lines = (omega arith, omega arith);
            whole =
                ap (λ t. p ++ t) (sym (drop_all k x (omega (arith, length-drop offset b))))
                ∙ take-append-drop k x;
            are_printed =
                dump_loop-next fuel offset k lt end
                ∙ ap (λ t. dump_line prefix (base + offset) p ++ t)
                    (dump_loop-end fuel (offset + 16) (omega arith));
          }
    ]
  ]

-- A write is printed in lines of sixteen bytes, of which only the last may be shorter: together they
-- are the bytes written, in their order, and each has the number of the bytes before it.
pub dump-Dumped : (prefix : Text) (base : ℕ) (b : Text) → Dumped prefix base b (dump prefix base b)
unfolding dump
dump-Dumped prefix base b =
    let d = dump_loop-Dumped prefix base b (length b + 1) 0 (omega arith) in
    let same : base + 0 ≡ base = omega arith in
    record {
      pieces = d.pieces;
      are_lines = d.are_lines;
      whole = d.whole;
      are_printed = d.are_printed ∙ ap (λ n. numbered prefix n d.pieces) same;
    }

conn_dump_loop-dump_loop :
    (prefix : Text) (base : ℕ) (b : Text) (fuel offset : ℕ)
    → conn_dump_loop prefix base b fuel offset ≡ dump_loop prefix base b fuel offset
unfolding conn_dump_loop dump_loop
conn_dump_loop-dump_loop prefix base b zero offset = refl
conn_dump_loop-dump_loop prefix base b (suc fuel) offset =
    rw (conn_dump_loop-dump_loop prefix base b fuel (offset + 16)) refl

-- Without a limit.
pub conn_dump-dump :
    (prefix : Text) (base : ℕ) (b : Text) → conn_dump 0 prefix base b ≡ dump prefix base b
unfolding conn_dump dump
conn_dump-dump prefix base b = conn_dump_loop-dump_loop prefix base b (length b + 1) 0
