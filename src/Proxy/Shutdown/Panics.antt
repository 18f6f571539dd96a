-- ===== src/Proxy/Shutdown/Panics.antt =====
-- When a session's push meets a closed queue.
use mysql8_audit_proxy.Base.{
  ◌≡◌, ◌≢◌, refl, sym, ◌∙◌, ◌⊎◌, inl, inr, Bool, true, false, List, [], ◌∷◌, ◌++◌,
}
use mysql8_audit_proxy.SendPacket.{SendPacket}
use mysql8_audit_proxy.Proxy.Shutdown.{
  Phase, starting, accepting, returned, closed, finished, is_closed, System, at_start, Step,
  interrupt, listen, listen_fails, accept, start_returns, close_channel, cancel, push, give_up,
  push_closed, Steps, stay, step,
}

-- What is true of a phase, where the context is done or not.
abbrev pub Fits : Phase → Bool → List (List SendPacket) → Type 0
Fits starting done sessions = sessions ≡ []
Fits accepting done sessions = Unit
Fits returned done sessions = (done ≡ true) ⊎ (sessions ≡ [])
Fits closed done sessions = (done ≡ true) ⊎ (sessions ≡ [])
Fits finished done sessions = done ≡ true

append-ne-nil : {A : Type 0} (xs : List A) (y : A) (ys : List A) → xs ++ (y ∷ ys) ≢ []
append-ne-nil [] y ys e = cc
append-ne-nil (x ∷ xs) y ys e = cc

module _ (d : Bool) (ss : List (List SendPacket)) where
  Fits-done : (p : Phase) → Fits p d ss → Fits p true ss
  Fits-done starting h = h
  Fits-done accepting h = tt
  Fits-done returned h = inl refl
  Fits-done closed h = inl refl
  Fits-done finished h = refl

  Fits-starting : (p : Phase) → p ≡ starting → Fits p d ss → ss ≡ []
  Fits-starting starting is h = h
  Fits-starting accepting is h = cc
  Fits-starting returned is h = cc
  Fits-starting closed is h = cc
  Fits-starting finished is h = cc

  Fits-returned : (p : Phase) → p ≡ returned → Fits p d ss → (d ≡ true) ⊎ (ss ≡ [])
  Fits-returned starting is h = cc
  Fits-returned accepting is h = cc
  Fits-returned returned is h = h
  Fits-returned closed is h = cc
  Fits-returned finished is h = cc

  Fits-accepting : (p : Phase) → p ≡ accepting → Fits p d ss
  Fits-accepting starting is = cc
  Fits-accepting accepting is = tt
  Fits-accepting returned is = cc
  Fits-accepting closed is = cc
  Fits-accepting finished is = cc

  -- Behind the return of `Start`, a session means that the context is done.
  late : ss ≢ [] → (d ≡ true) ⊎ (ss ≡ []) → d ≡ true
  late some_session (inl is) = is
  late some_session (inr none) = absurd (some_session none)

  Fits-sessions : (p : Phase) (ss' : List (List SendPacket)) → ss ≢ [] → Fits p d ss → Fits p d ss'
  Fits-sessions starting ss' some_session h = absurd (some_session h)
  Fits-sessions accepting ss' some_session h = tt
  Fits-sessions returned ss' some_session h = inl (late some_session h)
  Fits-sessions closed ss' some_session h = inl (late some_session h)
  Fits-sessions finished ss' some_session h = h

  Fits-closed : (p : Phase) → is_closed p ≡ true → ss ≢ [] → Fits p d ss → d ≡ true
  Fits-closed starting is some_session h = cc
  Fits-closed accepting is some_session h = cc
  Fits-closed returned is some_session h = cc
  Fits-closed closed is some_session h = late some_session h
  Fits-closed finished is some_session h = h

pub record IsSound (s : System) : Type 0 where
  pub fits : Fits s.phase s.done s.sessions
  pub panic : s.panicked ≡ true → s.done ≡ true

has_sessions :
    (s : System) (before : List (List SendPacket)) (x : List SendPacket)
    (after : List (List SendPacket))
    → s.sessions ≡ before ++ (x ∷ after)
    → s.sessions ≢ []
has_sessions s before x after has e = append-ne-nil before x after (sym has ∙ e)

step-IsSound : {s t : System} → Step s t → IsSound s → IsSound t
step-IsSound (interrupt s) h = record {
  fits = Fits-done s.done s.sessions s.phase h.fits;
  panic = λ e. refl;
}
step-IsSound (listen s is) h = record { fits = tt; panic = h.panic }
step-IsSound (listen_fails s is) h = record {
  fits = inr (Fits-starting s.done s.sessions s.phase is h.fits);
  panic = h.panic;
}
step-IsSound (accept s packets is) h = record {
  fits = Fits-accepting s.done (packets ∷ s.sessions) s.phase is;
  panic = h.panic;
}
step-IsSound (start_returns s is done) h = record { fits = inl done; panic = h.panic }
step-IsSound (close_channel s is) h = record {
  fits = Fits-returned s.done s.sessions s.phase is h.fits;
  panic = h.panic;
}
step-IsSound (cancel s is) h = record { fits = refl; panic = λ e. refl }
step-IsSound (push s before p ps after has is room) h = record {
  fits =
      Fits-sessions s.done s.sessions s.phase _ (has_sessions s before (p ∷ ps) after has) h.fits;
  panic = h.panic;
}
step-IsSound (give_up s before p ps qs after has done) h = record {
  fits =
      Fits-sessions s.done s.sessions s.phase _ (has_sessions s before (p ∷ ps) after has) h.fits;
  panic = h.panic;
}
step-IsSound (push_closed s before p ps after has is) h = record {
  fits = h.fits;
  panic = λ e.
      Fits-closed s.done s.sessions s.phase is (has_sessions s before (p ∷ ps) after has) h.fits;
}
step-IsSound e h = record { fits = h.fits; panic = h.panic }

steps-IsSound : {s t : System} → Steps s t → IsSound s → IsSound t
steps-IsSound (stay s) h = h
steps-IsSound (step alive e es) h = steps-IsSound es (step-IsSound e h)

-- From the start of the program, however its goroutines take turns, no push panics before the context
-- is done: `CloseChannel` closes the queue behind the return of `Start`, which has no sessions if it
-- cannot listen.
pub steps-panicked : {t : System} → Steps at_start t → t.panicked ≡ true → t.done ≡ true
steps-panicked es = (steps-IsSound es (record { fits = refl; panic = λ e. cc })).panic

-- Once the program accepts connections, an interrupt can end it by a panic as soon as a session has a
-- packet to push: `Start` returns without waiting for the sessions, and the queue is closed before
-- the session sees that the context is done.
pub interrupt-panicked :
    (s : System) (before : List (List SendPacket)) (p : SendPacket) (ps : List SendPacket)
    (after : List (List SendPacket))
    → s.panicked ≡ false
    → s.phase ≡ accepting
    → s.sessions ≡ before ++ ((p ∷ ps) ∷ after)
    → (t : System) × Steps s t × (t.panicked ≡ true)
interrupt-panicked s before p ps after alive is has =
    let s₁ : System = record s { done = true } in
    let s₂ : System = record s₁ { phase = returned } in
    let s₃ : System = record s₂ { phase = closed } in
    let s₄ : System = record s₃ { panicked = true } in
    (
      s₄,
      step alive (interrupt s) (
          step alive (start_returns s₁ is refl) (
            step alive (close_channel s₂ refl)
              (step alive (push_closed s₃ before p ps after has refl) (stay s₄)))),
      refl,
    )
