-- ===== src/Base/Texts.antt =====
-- Go strings: lists of byte values, and the functions of the packages strings and bytes that the
-- code calls: comparison, `Split` and `IndexByte` at one byte, and `ToLower`.
use Prim.Native.Nat.{ℕ, suc, ◌+◌}
use Prim.Native.Char.{code}
use Prim.Native.String.{String}
use mathlib.Core.Path.{◌≡◌, refl}
use mathlib.Core.Logic.{◌≢◌, ◌↔◌}
use mathlib.Core.Bool.{Bool, true, false, ◌&&◌}
use mathlib.Core.Option
use mathlib.Core.Option.{Option, none, some}
use mathlib.Core.List.{List, [], ◌∷◌, ◌++◌, map}
use native.Mathlib.Omega.{arith}
use mysql8_audit_proxy.Base.Tests.{leb, ◌==◌, if◌then◌else◌}
use mysql8_audit_proxy.Base.Lists.{All, length}

abbrev pub Text : Type 0
Text = List ℕ

abbrev pub concat : List Text → Text
concat [] = []
concat (s ∷ ss) = s ++ concat ss

-- The bytes of an ASCII literal.
abbrev pub codes : String → Text
codes String.[] = []
codes (String.◌∷◌ c s) = code c ∷ codes s

unfoldable pub text_eq : Text → Text → Bool
text_eq [] [] = true
text_eq (a ∷ s) (b ∷ t) = a == b && text_eq s t
text_eq [] (b ∷ t) = false
text_eq (a ∷ s) [] = false

pub text_eq_refl : (s : Text) → text_eq s s ≡ true
unfolding text_eq
text_eq_refl [] = refl
text_eq_refl (a ∷ s) = ground (arith, text_eq_refl s)

pub text_eq→eq : (s t : Text) → text_eq s t ≡ true → s ≡ t
unfolding text_eq
text_eq→eq [] [] h = refl
text_eq→eq (a ∷ s) (b ∷ t) h = ground (arith, text_eq→eq s t)
text_eq→eq [] (b ∷ t) h = cc
text_eq→eq (a ∷ s) [] h = cc

pub text_eq_iff : (s t : Text) → (text_eq s t ≡ true) ↔ (s ≡ t)
text_eq_iff s t = (text_eq→eq s t, λ e. rw e (text_eq_refl t))

pub text_ne : (s t : Text) → s ≢ t → text_eq s t ≡ false
text_ne s t h = ground (arith, text_eq_iff s t)

-- `strings.ToLower`, on the ASCII letters. The code only compares its result with "user" and
-- "password", and no other letter has one of theirs for its lower case.
unfoldable pub to_lower : Text → Text
to_lower = map (λ c. if leb b'A' c && leb c b'Z' then c + 32 else c)

-- `strings.Split(s, sep)` at a separator of one byte.
abbrev pub cons_head : ℕ → List Text → List Text
cons_head c [] = (c ∷ []) ∷ []
cons_head c (p ∷ ps) = (c ∷ p) ∷ ps

unfoldable pub split : ℕ → Text → List Text
split sep [] = [] ∷ []
split sep (c ∷ s) = let rest = split sep s in if c == sep then [] ∷ rest else cons_head c rest

-- `bytes.IndexByte`; `none` is Go's -1.
unfoldable pub index_byte : ℕ → Text → Option ℕ
index_byte b [] = none
index_byte b (c ∷ s) = if c == b then some 0 else Option.map suc (index_byte b s)

-- The byte does not occur.
abbrev pub IsFree : ℕ → Text → Type 0
IsFree b = All (λ c. c ≢ b)

pub split-IsFree : (sep : ℕ) (s : Text) → IsFree sep s → split sep s ≡ s ∷ []
unfolding split
split-IsFree sep [] h = refl
split-IsFree sep (c ∷ s) h = ground (arith, split-IsFree sep s)

pub split-append :
    (sep : ℕ) (s t : Text) → IsFree sep s → split sep (s ++ (sep ∷ t)) ≡ s ∷ split sep t
unfolding split
split-append sep [] t h = ground arith
split-append sep (c ∷ s) t h = ground (arith, split-append sep s t)

pub index_byte-IsFree : (b : ℕ) (s : Text) → IsFree b s → index_byte b s ≡ none
unfolding index_byte
index_byte-IsFree b [] h = refl
index_byte-IsFree b (c ∷ s) h = ground (arith, index_byte-IsFree b s)

pub index_byte-none : (b : ℕ) (s : Text) → index_byte b s ≡ none → IsFree b s
unfolding index_byte
index_byte-none b [] h = tt
index_byte-none b (c ∷ s) h = ground (arith, index_byte-none b s)

pub index_byte-append :
    (b : ℕ) (s t : Text) → IsFree b s → index_byte b (s ++ (b ∷ t)) ≡ some (length s)
unfolding index_byte
index_byte-append b [] t h = ground arith
index_byte-append b (c ∷ s) t h = ground (arith, index_byte-append b s t)

split-ne-nil : (sep : ℕ) (s : Text) → split sep s ≢ []
unfolding split
split-ne-nil sep [] e = cc
split-ne-nil sep (c ∷ s) e = ground arith

length-cons_head : (c : ℕ) (ps : List Text) → ps ≢ [] → length (cons_head c ps) ≡ length ps
length-cons_head c [] h = absurd (h refl)
length-cons_head c (p ∷ ps) h = refl

pub split-length_one : (sep : ℕ) (s : Text) → length (split sep s) ≡ 1 → IsFree sep s
unfolding split
split-length_one sep [] e = tt
split-length_one sep (c ∷ s) e =
    ground (arith, split-length_one sep s, split-ne-nil sep s, length-cons_head c (split sep s))
