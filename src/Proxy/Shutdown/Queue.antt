-- ===== src/Proxy/Shutdown/Queue.antt =====
-- What the worker of the log receives of what the sessions push.
use mysql8_audit_proxy.Base.{
  ℕ, ◌+◌, ◌≡◌, refl, sym, ap, ◌∙◌, true, false, Bool-cases, inl, inr, List, [], ◌∷◌, ◌++◌,
  append-nil, append_assoc, arith,
}
use mysql8_audit_proxy.SendPacket.{SendPacket}
use mysql8_audit_proxy.Proxy.Shutdown.{
  System, Step, interrupt, accept, cancel, push, give_up, receive, Steps, stay, step,
}

-- The packet that a step puts into the queue.
abbrev pub queued : {s t : System} → Step s t → List SendPacket
queued (push s before p ps after has unclosed room) = p ∷ []
queued _ = []

abbrev pub pushes : {s t : System} → Steps s t → List SendPacket
pushes (stay s) = []
pushes (step alive e es) = queued e ++ pushes es

-- What was received, and what is still in the queue.
abbrev pub taken : System → List SendPacket
taken s = s.received ++ s.items

pub step-taken : {s t : System} (e : Step s t) → taken t ≡ taken s ++ queued e
step-taken (push s before p ps after has unclosed room) =
    sym (append_assoc s.received s.items (p ∷ []))
step-taken (receive s p items running has) =
    append_assoc s.received (p ∷ []) items
    ∙ ap (λ l. s.received ++ l) (sym has)
    ∙ sym (append-nil (taken s))
step-taken {s} e = sym (append-nil (taken s))

-- The worker of the log receives the packets in the order in which the sessions push them, and what it
-- has not received is in the queue: however the goroutines take turns, nothing that was pushed is lost
-- before the worker ends.
pub steps-taken : {s t : System} (es : Steps s t) → taken t ≡ taken s ++ pushes es
steps-taken (stay s) = sym (append-nil (taken s))
steps-taken {s} (step alive e es) =
    steps-taken es
    ∙ ap (λ l. l ++ pushes es) (step-taken e)
    ∙ append_assoc (taken s) (queued e) (pushes es)

-- The sum of the weights of packets.
abbrev pub weight : (SendPacket → ℕ) → List SendPacket → ℕ
weight f [] = 0
weight f (p ∷ ps) = f p + weight f ps

abbrev pub weights : (SendPacket → ℕ) → List (List SendPacket) → ℕ
weights f [] = 0
weights f (ps ∷ pss) = weight f ps + weights f pss

pub weights-append :
    (f : SendPacket → ℕ) (pss qss : List (List SendPacket))
    → weights f (pss ++ qss) ≡ weights f pss + weights f qss
weights-append f [] qss = omega arith
weights-append f (ps ∷ pss) qss = omega (arith, weights-append f pss qss)

pub weight-append :
    (f : SendPacket → ℕ) (ps qs : List SendPacket) → weight f (ps ++ qs) ≡ weight f ps + weight f qs
weight-append f [] qs = omega arith
weight-append f (p ∷ ps) qs = omega (arith, weight-append f ps qs)

-- The packets that the sessions bring.
abbrev pub brought : {s t : System} → Step s t → List SendPacket
brought (accept s packets accepts) = packets
brought _ = []

abbrev pub arrivals : {s t : System} → Steps s t → List SendPacket
arrivals (stay s) = []
arrivals (step alive e es) = brought e ++ arrivals es

pub step-done : {s t : System} → Step s t → s.done ≡ true → t.done ≡ true
step-done (interrupt s) h = refl
step-done (cancel s is) h = refl
step-done e h = h

pub steps-done : {s t : System} → Steps s t → s.done ≡ true → t.done ≡ true
steps-done (stay s) h = h
steps-done (step alive e es) h = steps-done es (step-done e h)

module _ (f : SendPacket → ℕ) where
  -- What all packets weigh, wherever they are.
  abbrev pub total : System → ℕ
  total s = weight f (taken s) + weights f s.sessions

  step-total :
      {s t : System} (e : Step s t) → s.done ≡ false → total t ≡ total s + weight f (brought e)
  step-total (push s before p ps after has unclosed room) h = omega (
    arith,
    weight-append f s.received s.items,
    weight-append f s.received (s.items ++ (p ∷ [])),
    weight-append f s.items (p ∷ []),
    weights-append f before ((p ∷ ps) ∷ after),
    weights-append f before (ps ∷ after),
    ap (weights f) has,
  )
  step-total (accept s packets accepts) h = omega arith
  step-total (give_up s before p ps qs after has is) h = cc
  step-total (receive s p items running has) h = omega (
    arith,
    weight-append f s.received s.items,
    weight-append f (s.received ++ (p ∷ [])) items,
    weight-append f s.received (p ∷ []),
    ap (weight f) has,
  )
  step-total e h = omega arith

  -- As long as the context is not done, no packet is lost and none is made: what the sessions brought
  -- is received, or in the queue, or with its session, each packet as often as before, since this holds
  -- for any weights.
  pub steps-total :
      {s t : System} (es : Steps s t) → t.done ≡ false → total t ≡ total s + weight f (arrivals es)
  steps-total (stay s) h = omega arith
  steps-total {s} (step alive e es) h = elim (Bool-cases s.done) [
    | inl q ↦ let is_done = steps-done es (step-done e q) in cc
    | inr q ↦
        omega (arith, steps-total es h, step-total e q, weight-append f (brought e) (arrivals es))
  ]
