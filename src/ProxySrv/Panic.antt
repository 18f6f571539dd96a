-- ===== src/ProxySrv/Panic.antt =====
-- What a panic of one session does to the server.
use mysql8_audit_proxy.Base.{◌≡◌, refl, ◌⊎◌, inl, inr, true, Bool-cases, List, [], ◌∷◌}
use mysql8_audit_proxy.Timeoutnet.{Copied}
use mysql8_audit_proxy.SendTask.Worker.{
  Session, context_done, send_failed, ended, panicked, running,
}
use mysql8_audit_proxy.ClientSess.Relay.{console, not_connected, relayed}
use mysql8_audit_proxy.ProxySrv.{
  AcceptEnd, ConnEnd, refused, handshake_panicked, served, ServerEnd, serving, crashed, panics,
  ends_with,
}

-- A panic in the handshake, or of the task that sends packets.
pub data Panics {E W C : Type 0} : ConnEnd E W C → Type 0 where
  in_handshake : Panics handshake_panicked
  in_worker : (s : Session W) (copied : Copied E C) → Panics (served (relayed (panicked, s) copied))

pub data SomePanic {E W C : Type 0} : List (ConnEnd E W C) → Type 0 where
  here : (e : ConnEnd E W C) (ends : List (ConnEnd E W C)) → Panics e → SomePanic (e ∷ ends)
  later : (e : ConnEnd E W C) (ends : List (ConnEnd E W C)) → SomePanic ends → SomePanic (e ∷ ends)

panics-Panics : {E W C : Type 0} (e : ConnEnd E W C) → panics e ≡ true → Panics e
panics-Panics handshake_panicked h = in_handshake
panics-Panics (refused e) h = cc
panics-Panics (served console) h = cc
panics-Panics (served (not_connected e)) h = cc
panics-Panics (served (relayed (context_done, s) copied)) h = cc
panics-Panics (served (relayed (send_failed e, s) copied)) h = cc
panics-Panics (served (relayed (ended, s) copied)) h = cc
panics-Panics (served (relayed (panicked, s) copied)) h = in_worker s copied
panics-Panics (served (relayed (running, s) copied)) h = cc

Panics-panics : {E W C : Type 0} (e : ConnEnd E W C) → Panics e → panics e ≡ true
Panics-panics e in_handshake = refl
Panics-panics e (in_worker s copied) = refl

-- The program goes on if there is no panic, and otherwise it has ended.
pub data Comes {E W C : Type 0} (ends : List (ConnEnd E W C)) (end : AcceptEnd)
    : ServerEnd E W C → Type 0 where
  goes_on : ¬ SomePanic ends → Comes ends end (serving ends end)
  has_ended : SomePanic ends → Comes ends end crashed

first_or_later :
    {E W C : Type 0} (e : ConnEnd E W C) (ends : List (ConnEnd E W C))
    → ¬ Panics e
    → ¬ SomePanic ends
    → ¬ SomePanic (e ∷ ends)
first_or_later e ends h k (here x xs p) = h p
first_or_later e ends h k (later x xs p) = k p

no_panic : {E W C : Type 0} → ¬ SomePanic {E = E} {W = W} {C = C} []
no_panic p = elim p [ ]

-- Whether there is a panic, and what the program comes to then, whatever it comes to otherwise.
some_panic :
    {E W C : Type 0} (ends : List (ConnEnd E W C)) (r : ServerEnd E W C)
    → (¬ SomePanic ends × (ends_with ends r ≡ r)) ⊎ (SomePanic ends × (ends_with ends r ≡ crashed))
some_panic [] r = inl (no_panic, refl)
some_panic (e ∷ ends) r = elim (Bool-cases (panics e)) [
  | inl q ↦ inr (here e ends (panics-Panics e q), rw q refl)
  | inr q ↦ elim (some_panic ends r) [
    | inl (none_later, is) ↦
        inl (first_or_later e ends (λ p. absurd (cc (Panics-panics e p, q))) none_later, rw q is)
    | inr (later_on, is) ↦ inr (later e ends later_on, rw q is)
  ]
]

pub ends_with-Comes :
    {E W C : Type 0} (ends : List (ConnEnd E W C)) (end : AcceptEnd)
    → Comes ends end (ends_with ends (serving ends end))
ends_with-Comes ends end = elim (some_panic ends (serving ends end)) [
  | inl (no_panic, is) ↦ rw is (goes_on no_panic)
  | inr (panic, is) ↦ rw is (has_ended panic)
]
