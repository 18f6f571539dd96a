-- ===== src/Proxy/Shutdown/Order.antt =====
-- The packets of one session among those of all sessions: the order in which they reach the log.
use mysql8_audit_proxy.Base.{
  ℕ, ◌≡◌, ◌⊎◌, refl, sym, ap, ◌∙◌, Bool, true, false, Bool-cases, inl, inr, List, [], ◌∷◌, ◌++◌,
  append-nil, append_assoc, if◌then◌else◌, arith,
}
use mysql8_audit_proxy.SendPacket.{SendPacket}
use mysql8_audit_proxy.Proxy.Shutdown.{
  System, Step, accept, push, give_up, receive, Steps, stay, step, at_start,
}
use mysql8_audit_proxy.Proxy.Shutdown.Queue.{
  taken, step-taken, weight, weights, weights-append, brought, arrivals, total, step-done,
  steps-done,
}

module _ (is_mine : SendPacket → Bool) where
  abbrev pub mine : List SendPacket → List SendPacket
  mine [] = []
  mine (p ∷ ps) = let rest = mine ps in if is_mine p then p ∷ rest else rest

  abbrev pub all_mine : List (List SendPacket) → List SendPacket
  all_mine [] = []
  all_mine (ps ∷ sessions) = mine ps ++ all_mine sessions

  abbrev pub one : SendPacket → ℕ
  one p = if is_mine p then 1 else 0

  -- At most one of the sessions has such packets.
  abbrev pub IsAlone : List (List SendPacket) → Type 0
  IsAlone [] = Unit
  IsAlone (ps ∷ sessions) = ((weight one ps ≡ 0) ⊎ (weights one sessions ≡ 0)) × IsAlone sessions

  -- A session that is accepted has none of them, or it is the first that has.
  abbrev pub ComesAlone : {s t : System} → Step s t → Type 0
  ComesAlone (accept s packets accepts) = (weight one packets ≡ 0) ⊎ (total one s ≡ 0)
  ComesAlone _ = Unit

  abbrev pub ComeAlone : {s t : System} → Steps s t → Type 0
  ComeAlone (stay s) = Unit
  ComeAlone (step alive e es) = ComesAlone e × ComeAlone es

  mine-append : (ps qs : List SendPacket) → mine (ps ++ qs) ≡ mine ps ++ mine qs
  mine-append [] qs = refl
  mine-append (p ∷ ps) qs = elim (Bool-cases (is_mine p)) [
    | inl q ↦ rw q (ap (◌∷◌ p) (mine-append ps qs))
    | inr q ↦ rw q (mine-append ps qs)
  ]

  mine_none : (ps : List SendPacket) → weight one ps ≡ 0 → mine ps ≡ []
  mine_none [] h = refl
  mine_none (p ∷ ps) h = elim (Bool-cases (is_mine p)) [
    | inl q ↦ absurd (omega (arith, rw q at h))
    | inr q ↦ rw q (mine_none ps (omega (arith, rw q at h)))
  ]

  all_mine_none : (pss : List (List SendPacket)) → weights one pss ≡ 0 → all_mine pss ≡ []
  all_mine_none [] h = refl
  all_mine_none (ps ∷ pss) h =
      rw (mine_none ps (omega (arith, h))) (all_mine_none pss (omega (arith, h)))

  all_mine-append :
      (pss qss : List (List SendPacket)) → all_mine (pss ++ qss) ≡ all_mine pss ++ all_mine qss
  all_mine-append [] qss = refl
  all_mine-append (ps ∷ pss) qss =
      ap (λ l. mine ps ++ l) (all_mine-append pss qss)
      ∙ sym (append_assoc (mine ps) (all_mine pss) (all_mine qss))

  module _ (p : SendPacket) (ps : List SendPacket) (after : List (List SendPacket)) where
    IsAlone-before :
        (before : List (List SendPacket))
        → IsAlone (before ++ ((p ∷ ps) ∷ after))
        → is_mine p ≡ true
        → weights one before ≡ 0
    IsAlone-before [] h q = refl
    IsAlone-before (b ∷ before) h q =
        let unit : one p ≡ 1 = rw q refl in
        elim h.0 [
          | inl e ↦ omega (arith, e, IsAlone-before before h.1 q)
          | inr e ↦ absurd (omega (arith, e, weights-append one before ((p ∷ ps) ∷ after), unit))
        ]

    IsAlone-pushed :
        (before : List (List SendPacket))
        → IsAlone (before ++ ((p ∷ ps) ∷ after))
        → IsAlone (before ++ (ps ∷ after))
    IsAlone-pushed [] h = (elim h.0 [ inl e ↦ inl (omega (arith, e)) | inr e ↦ inr e ], h.1)
    IsAlone-pushed (b ∷ before) h = (
      elim h.0 [
        | inl e ↦ inl e
        | inr e ↦ inr (
            omega (
              arith,
              e,
              weights-append one before ((p ∷ ps) ∷ after),
              weights-append one before (ps ∷ after),
            ))
      ],
      IsAlone-pushed before h.1,
    )

    -- The first of a session's packets is the first of all sessions'.
    pushed-all_mine :
        (before : List (List SendPacket))
        → IsAlone (before ++ ((p ∷ ps) ∷ after))
        → mine (p ∷ []) ++ all_mine (before ++ (ps ∷ after))
          ≡ all_mine (before ++ ((p ∷ ps) ∷ after))
    pushed-all_mine before h = elim (Bool-cases (is_mine p)) [
      | inl q ↦
          let none_before = all_mine_none before (IsAlone-before before h q) in
          rw
            (
              all_mine-append before (ps ∷ after),
              all_mine-append before ((p ∷ ps) ∷ after),
              none_before,
              q,
            )
            refl
      | inr q ↦
          rw (all_mine-append before (ps ∷ after), all_mine-append before ((p ∷ ps) ∷ after), q)
            refl
    ]

  -- What the log has got or will get of the queue, and what the sessions still have.
  abbrev pub seen : System → List SendPacket
  seen s = mine (taken s) ++ all_mine s.sessions

  accept-seen :
      (s : System) (packets : List SendPacket)
      → (weight one packets ≡ 0) ⊎ (total one s ≡ 0)
      → mine (taken s) ++ (mine packets ++ all_mine s.sessions) ≡ seen s ++ mine packets
  accept-seen s packets (inl e) = rw (mine_none packets e) (sym (append-nil (seen s)))
  accept-seen s packets (inr e) =
      rw (mine_none (taken s) (omega (arith, e)), all_mine_none s.sessions (omega (arith, e)))
        (append-nil (mine packets))

  step-seen :
      {s t : System} (e : Step s t)
      → s.done ≡ false
      → IsAlone s.sessions
      → ComesAlone e
      → (seen t ≡ seen s ++ mine (brought e)) × IsAlone t.sessions
  step-seen (accept s packets accepts) h alone new = (
    accept-seen s packets new,
    (elim new [ inl e ↦ inl e | inr e ↦ inr (omega (arith, e)) ], alone),
  )
  step-seen (push s before p ps after has unclosed room) h alone new =
      let there = rw has at alone in
      (
        ap (λ l. mine l ++ all_mine (before ++ (ps ∷ after)))
              (step-taken (push s before p ps after has unclosed room))
            ∙ ap (λ l. l ++ all_mine (before ++ (ps ∷ after))) (mine-append (taken s) (p ∷ []))
            ∙ append_assoc (mine (taken s)) (mine (p ∷ [])) (all_mine (before ++ (ps ∷ after)))
            ∙ ap (λ l. mine (taken s) ++ l)
                (pushed-all_mine p ps after before there ∙ ap all_mine (sym has))
            ∙ sym (append-nil (seen s)),
        IsAlone-pushed p ps after before there,
      )
  step-seen (give_up s before p ps qs after has is) h alone new = cc
  step-seen (receive s p items running has) h alone new = (
    ap (λ l. mine l ++ all_mine s.sessions)
          (step-taken (receive s p items running has) ∙ append-nil (taken s))
        ∙ sym (append-nil (seen s)),
    alone,
  )
  step-seen {s} e h alone new = (sym (append-nil (seen s)), alone)

  from-seen :
      {s t : System} (es : Steps s t)
      → t.done ≡ false
      → IsAlone s.sessions
      → ComeAlone es
      → seen t ≡ seen s ++ mine (arrivals es)
  from-seen (stay s) h alone new = sym (append-nil (seen s))
  from-seen {s} (step alive e es) h alone new = elim (Bool-cases s.done) [
    | inl q ↦ let is_done = steps-done es (step-done e q) in cc
    | inr q ↦
        let (same, next) = step-seen e q alone new.0 in
        from-seen es h next new.1
        ∙ ap (λ l. l ++ mine (arrivals es)) same
        ∙ append_assoc (seen s) (mine (brought e)) (mine (arrivals es))
        ∙ ap (λ l. seen s ++ l) (sym (mine-append (brought e) (arrivals es)))
  ]

  -- As long as the context is not done, the worker of the log receives the packets of a session in the
  -- order in which the session has them, and loses none, however the packets of the other sessions
  -- come in between: what it has received of them, then what is in the queue, and then what the
  -- session still has, are the packets that the session brought. The session's packets are those
  -- of which `is_mine` is true, such as those with the number of its connection, and no
  -- other session has such packets.
  pub steps-seen :
      {t : System} (es : Steps at_start t)
      → t.done ≡ false
      → ComeAlone es
      → mine t.received ++ (mine t.items ++ all_mine t.sessions) ≡ mine (arrivals es)
  steps-seen {t} es h new =
      sym (append_assoc (mine t.received) (mine t.items) (all_mine t.sessions))
      ∙ ap (λ l. l ++ all_mine t.sessions) (sym (mine-append t.received t.items))
      ∙ from-seen es h tt new
