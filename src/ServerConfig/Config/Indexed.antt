-- ===== src/ServerConfig/Config/Indexed.antt =====
-- The index by user agrees with the list of servers, and users are not doubled.
use mysql8_audit_proxy.Base.{
  ℕ, zero, suc, ◌≡◌, ◌≢◌, refl, sym, ap, ◌∙◌, none, some, List, [], ◌∷◌, ◌++◌, Text, length,
  get_elem?, All, All-append, text_eq, text_eq_iff, text_eq→eq, arith, Bool-cases, Option-cases,
  inl, inr, append_assoc, append-nil, length-append,
}
use mathlib.Core.Option.{some-injective}
use mysql8_audit_proxy.ServerConfig.Query.{Server}
use mysql8_audit_proxy.ServerConfig.Config.{Config, Index, index_of, index_from, make_index}

-- No server has the user.
abbrev pub IsFresh : Text → List Server → Type 0
IsFresh u = All (λ s. s.user ≢ u)

-- No two servers have one user.
abbrev pub IsUnique : List Server → Type 0
IsUnique [] = Unit
IsUnique (s ∷ servers) = IsFresh s.user servers × IsUnique servers

-- A user without an entry has no server, and an entry is the place of a server of its user.
pub record IsIndexed (servers : List Server) (index : Index) : Type 0 where
  pub absent : (u : Text) → index_of u index ≡ none → IsFresh u servers
  pub present :
      (u : Text) (i : ℕ)
      → index_of u index ≡ some i
      → (s : Server) × (get_elem? servers i ≡ some s) × (s.user ≡ u)

get_elem?-append :
    {A : Type 0} (xs ys : List A) (i : ℕ) (x : A)
    → get_elem? xs i ≡ some x
    → get_elem? (xs ++ ys) i ≡ some x
get_elem?-append [] ys i x e = cc
get_elem?-append (a ∷ xs) ys zero x e = e
get_elem?-append (a ∷ xs) ys (suc i) x e = get_elem?-append xs ys i x e

get_elem?-length :
    {A : Type 0} (xs : List A) (x : A) → get_elem? (xs ++ (x ∷ [])) (length xs) ≡ some x
get_elem?-length [] x = refl
get_elem?-length (a ∷ xs) x = get_elem?-length xs x

module _ (servers : List Server) (index : Index) (s : Server) (h : IsIndexed servers index) where
  grown : Index
  grown = (s.user, length servers) ∷ index

  absent-grown : (u : Text) → index_of u grown ≡ none → IsFresh u (servers ++ (s ∷ []))
  unfolding grown index_of
  absent-grown u e = elim (Bool-cases (text_eq s.user u)) [
    | inl q ↦ cc (rw q at e)
    | inr q ↦
        All-append _ servers (s ∷ []) (h.absent u (rw q at e))
          (ground (arith, text_eq_iff s.user u), tt)
  ]

  present-grown :
      (u : Text) (i : ℕ)
      → index_of u grown ≡ some i
      → (t : Server) × (get_elem? (servers ++ (s ∷ [])) i ≡ some t) × (t.user ≡ u)
  unfolding grown index_of
  present-grown u i e = elim (Bool-cases (text_eq s.user u)) [
    | inl q ↦ (
      s,
      rw (← some-injective _ _ (rw q at e)) (get_elem?-length servers s),
      text_eq→eq s.user u q,
    )
    | inr q ↦
        let (t, at, is) = h.present u i (rw q at e) in
        (t, get_elem?-append servers (s ∷ []) i t at, is)
  ]

  -- A server that is appended with its place keeps the index in agreement.
  pub append-IsIndexed : IsIndexed (servers ++ (s ∷ [])) ((s.user, length servers) ∷ index)
  unfolding grown
  append-IsIndexed = record { absent = absent-grown; present = present-grown }

IsFresh-append :
    (u : Text) (servers : List Server) (s : Server)
    → IsFresh u servers
    → s.user ≢ u
    → IsFresh u (servers ++ (s ∷ []))
IsFresh-append u servers s h ne = All-append _ servers (s ∷ []) h (ne, tt)

pub append-IsUnique :
    (servers : List Server) (s : Server)
    → IsUnique servers
    → IsFresh s.user servers
    → IsUnique (servers ++ (s ∷ []))
append-IsUnique [] s h fresh = (tt, tt)
append-IsUnique (t ∷ servers) s h fresh = (
  IsFresh-append t.user servers s h.0 (λ e. fresh.0 (sym e)),
  append-IsUnique servers s h.1 fresh.1,
)

nil-IsIndexed : IsIndexed [] []
unfolding index_of
nil-IsIndexed = record { absent = λ u e. tt; present = λ u i e. cc }

index_from-IsIndexed :
    (front servers : List Server) (index : Index)
    → IsIndexed front index
    → IsIndexed (front ++ servers) (index_from (length front) servers index)
unfolding index_from
index_from-IsIndexed front [] index h = rw (append-nil front) h
index_from-IsIndexed front (s ∷ servers) index h =
    rw (append_assoc front (s ∷ []) servers, length-append front (s ∷ [])) at
      (index_from-IsIndexed (front ++ (s ∷ [])) servers ((s.user, length front) ∷ index)
        (append-IsIndexed front index s h))

-- The index that `makeIndex` builds agrees with the servers: a user without an entry has no
-- server, and an entry is the place of a server of its user.
pub make_index-IsIndexed : (conf : Config) → IsIndexed conf.servers (make_index conf)
unfolding make_index
make_index-IsIndexed conf = index_from-IsIndexed [] conf.servers [] nil-IsIndexed

not-IsFresh :
    (u : Text) (servers : List Server) (i : ℕ) (s : Server)
    → get_elem? servers i ≡ some s
    → s.user ≡ u
    → ¬ IsFresh u servers
not-IsFresh u [] i s at is h = cc
not-IsFresh u (x ∷ servers) zero s at is h = h.0 (ap (λ t. t.user) (some-injective _ _ at) ∙ is)
not-IsFresh u (x ∷ servers) (suc i) s at is h = not-IsFresh u servers i s at is h.1

-- A user without a server has no entry.
pub index_of-IsFresh :
    (servers : List Server) (index : Index) (u : Text)
    → IsIndexed servers index
    → IsFresh u servers
    → index_of u index ≡ none
index_of-IsFresh servers index u h fresh = elim (Option-cases (index_of u index)) [
  | inl q ↦ q
  | inr (i, q) ↦ let (s, at, is) = h.present u i q in absurd (not-IsFresh u servers i s at is fresh)
]
