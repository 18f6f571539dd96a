-- ===== src/ServerConfig/Manager/Exchange.antt =====
-- The server of a user exchanged in the list of servers.
use mathlib.Core.Option.{some-injective}
use mathlib.Core.Path.{subst, ap₂}
use mysql8_audit_proxy.Base.{
  ℕ, zero, suc, ◌≡◌, ◌≢◌, refl, sym, ap, ◌∙◌, true, some, List, [], ◌∷◌, Text, get_elem?, set, All,
  map, text_eq, text_eq_refl, text_eq→eq, text_ne, if◌then◌else◌, Bool-cases, inl, inr,
}
use mysql8_audit_proxy.ServerConfig.Query.{Server, selection}
use mysql8_audit_proxy.ServerConfig.Config.Indexed.{IsFresh, IsUnique}

-- The server of a user exchanged, at each place.
abbrev pub exchange : Text → Server → List Server → List Server
exchange u t = map (λ x. if text_eq x.user u then t else x)

pub exchange-IsFresh :
    (u : Text) (t : Server) (servers : List Server)
    → IsFresh u servers
    → exchange u t servers ≡ servers
exchange-IsFresh u t [] h = refl
exchange-IsFresh u t (x ∷ servers) h =
    rw (text_ne x.user u h.0) (ap (◌∷◌ x) (exchange-IsFresh u t servers h.1))

pub All-get :
    (P : Server → Type 0) (servers : List Server) (i : ℕ) (s : Server)
    → All P servers
    → get_elem? servers i ≡ some s
    → P s
All-get P [] i s h at = cc
All-get P (x ∷ servers) zero s h at = subst P (some-injective _ _ at) h.0
All-get P (x ∷ servers) (suc i) s h at = All-get P servers i s h.1 at

pub set-exchange :
    (u : Text) (s t : Server) (servers : List Server) (i : ℕ)
    → IsUnique servers
    → get_elem? servers i ≡ some s
    → s.user ≡ u
    → set servers i t ≡ exchange u t servers
set-exchange u s t [] i h at is = cc
set-exchange u s t (x ∷ servers) zero h at is =
    let e : x.user ≡ u = ap (λ s. s.user) (some-injective _ _ at) ∙ is in
    let q : text_eq x.user u ≡ true = rw e (text_eq_refl u) in
    rw q (ap (◌∷◌ t) (sym (exchange-IsFresh u t servers (rw (← e) h.0))))
set-exchange u s t (x ∷ servers) (suc i) h at is =
    let ne = All-get (λ y. y.user ≢ x.user) servers i s h.0 at in
    rw (text_ne x.user u (λ e. ne (is ∙ sym e)))
      (ap (◌∷◌ x) (set-exchange u s t servers i h.1 at is))

pub selection-IsFresh :
    (u : Text) (servers : List Server)
    → IsFresh u servers
    → selection (λ s. text_eq s.user u) servers ≡ []
unfolding selection
selection-IsFresh u [] h = refl
selection-IsFresh u (x ∷ servers) h = rw (text_ne x.user u h.0) (selection-IsFresh u servers h.1)

-- Users are not doubled, so the server of a user is all that is selected.
pub selection-place :
    (u : Text) (t : Server) (servers : List Server) (i : ℕ)
    → IsUnique servers
    → get_elem? servers i ≡ some t
    → t.user ≡ u
    → selection (λ s. text_eq s.user u) servers ≡ t ∷ []
unfolding selection
selection-place u t [] i h at is = cc
selection-place u t (x ∷ servers) zero h at is =
    let e : x.user ≡ u = ap (λ s. s.user) (some-injective _ _ at) ∙ is in
    let q : text_eq x.user u ≡ true = rw e (text_eq_refl u) in
    rw q (ap₂ ◌∷◌ (some-injective _ _ at) (selection-IsFresh u servers (rw (← e) h.0)))
selection-place u t (x ∷ servers) (suc i) h at is =
    let ne = All-get (λ y. y.user ≢ x.user) servers i t h.0 at in
    rw (text_ne x.user u (λ e. ne (is ∙ sym e))) (selection-place u t servers i h.1 at is)

exchange-keeps_IsFresh :
    (v u : Text) (t : Server) (servers : List Server)
    → t.user ≡ u
    → IsFresh v servers
    → IsFresh v (exchange u t servers)
exchange-keeps_IsFresh v u t [] is h = tt
exchange-keeps_IsFresh v u t (x ∷ servers) is h = elim (Bool-cases (text_eq x.user u)) [
  | inl q ↦
      rw q
        (λ e. h.0 (text_eq→eq x.user u q ∙ sym is ∙ e), exchange-keeps_IsFresh v u t servers is h.1)
  | inr q ↦ rw q (h.0, exchange-keeps_IsFresh v u t servers is h.1)
]

-- The exchanged server has the same user.
pub exchange-IsUnique :
    (u : Text) (t : Server) (servers : List Server)
    → t.user ≡ u
    → IsUnique servers
    → IsUnique (exchange u t servers)
exchange-IsUnique u t [] is h = tt
exchange-IsUnique u t (x ∷ servers) is h = elim (Bool-cases (text_eq x.user u)) [
  | inl q ↦
      let same : t.user ≡ x.user = is ∙ sym (text_eq→eq x.user u q) in
      rw q (
        rw same (exchange-keeps_IsFresh x.user u t servers is h.0),
        exchange-IsUnique u t servers is h.1,
      )
  | inr q ↦
      rw q (exchange-keeps_IsFresh x.user u t servers is h.0, exchange-IsUnique u t servers is h.1)
]
