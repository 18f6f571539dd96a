-- ===== src/Proxy/Target/Laws.antt =====
-- Login names are taken apart as they were put together, and every address has a port.
use mysql8_audit_proxy.Base.{
  ℕ, ◌≡◌, ◌≢◌, ◌⊎◌, inl, inr, refl, ap, ◌∙◌, Bool-cases, [], ◌∷◌, ◌++◌, Text, codes, split,
  split-IsFree, split-append, split-length_one, IsFree, All-append, arith,
}
use mysql8_audit_proxy.Proxy.Target.{
  get_user_pass, at_server, get_target_info, is_one, with_port, add_port,
}

get_user_pass-free : (s : Text) → IsFree b':' s → get_user_pass s ≡ (s, [])
unfolding get_user_pass
get_user_pass-free s h = rw (split-IsFree b':' s h)

get_user_pass-join :
    (user pass : Text)
    → IsFree b':' user
    → IsFree b':' pass
    → get_user_pass (user ++ (b':' ∷ pass)) ≡ (user, pass)
unfolding get_user_pass
get_user_pass-join user pass hu hp = rw (split-append b':' user pass hu, split-IsFree b':' pass hp)

get_target_info-sides :
    (login server : Text)
    → IsFree b'@' login
    → IsFree b'@' server
    → get_target_info (login ++ (b'@' ∷ server)) ≡ at_server server (get_user_pass login)
unfolding get_target_info
get_target_info-sides login server hl hs =
    rw (split-append b'@' login server hl, split-IsFree b'@' server hs)

-- A login name `user:pass@server` is taken apart into its parts, if these are free of `@`, and the
-- user and the password of `:`.
pub get_target_info-join :
    (user pass server : Text)
    → IsFree b'@' user
    → IsFree b'@' pass
    → IsFree b'@' server
    → IsFree b':' user
    → IsFree b':' pass
    → get_target_info ((user ++ (b':' ∷ pass)) ++ (b'@' ∷ server))
      ≡ record { user = user; server = server; pass = pass }
unfolding at_server
get_target_info-join user pass server hu hp hs hcu hcp =
    get_target_info-sides (user ++ (b':' ∷ pass)) server
      (All-append _ user (b':' ∷ pass) hu (omega arith, hp)) hs
    ∙ ap (at_server server) (get_user_pass-join user pass hcu hcp)

-- With no password in it, the password is empty, and is looked up in the table.
pub get_target_info-no_pass :
    (user server : Text)
    → IsFree b'@' user
    → IsFree b'@' server
    → IsFree b':' user
    → get_target_info (user ++ (b'@' ∷ server)) ≡ record { user = user; server = server; pass = [] }
unfolding at_server
get_target_info-no_pass user server hu hs hc =
    get_target_info-sides user server hu hs ∙ ap (at_server server) (get_user_pass-free user hc)

with_port-cases :
    (s : Text)
    → (IsFree b':' s × (with_port s ≡ s ++ codes ":3306")) ⊎ ((¬ IsFree b':' s) × (with_port s ≡ s))
unfolding with_port
with_port-cases s = elim (Bool-cases (is_one (split b':' s))) [
  | inl one ↦ inl (split-length_one b':' s (ground arith), rw (one, with_port))
  | inr more ↦ inr (λ free. cc (more, ap is_one (split-IsFree b':' s free)), rw (more, with_port))
]

not-IsFree-append : (s t : Text) (b : ℕ) → ¬ IsFree b (s ++ (b ∷ t))
not-IsFree-append [] t b h = h.0 refl
not-IsFree-append (c ∷ s) t b h = not-IsFree-append s t b h.1

with_port-colon : (s : Text) → ¬ IsFree b':' (with_port s)
with_port-colon s = elim (with_port-cases s) [
  | inl (free, e) ↦ rw e (not-IsFree-append s (codes "3306") b':')
  | inr (colon, e) ↦ rw e colon
]

with_port-of_colon : (s : Text) → (¬ IsFree b':' s) → with_port s ≡ s
with_port-of_colon s h = elim (with_port-cases s) [
  | inl (free, e) ↦ absurd (h free)
  | inr (colon, e) ↦ e
]

with_port-of_free : (s : Text) → IsFree b':' s → with_port s ≡ s ++ codes ":3306"
with_port-of_free s h = elim (with_port-cases s) [
  | inl (free, e) ↦ e
  | inr (colon, e) ↦ absurd (colon h)
]

add_port-nil : add_port [] ≡ codes "localhost:3306"
unfolding add_port
add_port-nil =
    with_port-of_colon (codes "localhost:3306")
      (not-IsFree-append (codes "localhost") (codes "3306") b':')

add_port-cons : (c : ℕ) (s : Text) → add_port (c ∷ s) ≡ with_port (c ∷ s)
unfolding add_port
add_port-cons c s = ground arith

add_port-colon : (s : Text) → ¬ IsFree b':' (add_port s)
add_port-colon [] = rw add_port-nil (not-IsFree-append (codes "localhost") (codes "3306") b':')
add_port-colon (c ∷ s) = rw (add_port-cons c s) (with_port-colon (c ∷ s))

add_port-of_colon : (s : Text) → (¬ IsFree b':' s) → add_port s ≡ s
add_port-of_colon [] h = absurd (h tt)
add_port-of_colon (c ∷ s) h = add_port-cons c s ∙ with_port-of_colon (c ∷ s) h

-- Every address has a colon in the end, and to ask for a port once more changes nothing.
pub add_port_idem : (s : Text) → (¬ IsFree b':' (add_port s)) × (add_port (add_port s) ≡ add_port s)
add_port_idem s = (add_port-colon s, add_port-of_colon (add_port s) (add_port-colon s))

-- A host name without a colon gets the port 3306, an address with a colon is kept, and the empty
-- name becomes the local host.
pub add_port_cases :
    (s : Text)
    → ((s ≡ []) × (add_port s ≡ codes "localhost:3306"))
      ⊎ (((s ≢ []) × IsFree b':' s × (add_port s ≡ s ++ codes ":3306"))
          ⊎ ((¬ IsFree b':' s) × (add_port s ≡ s)))
add_port_cases [] = inl (refl, add_port-nil)
add_port_cases (c ∷ s) = inr (elim (with_port-cases (c ∷ s)) [
  | inl (free, e) ↦ inl (λ q. cc, free, add_port-cons c s ∙ e)
  | inr (colon, e) ↦ inr (colon, add_port-cons c s ∙ e)
])
