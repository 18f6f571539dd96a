-- ===== src/Base/Action.antt =====
-- Functions that change a state and may return an error early. What was done to the state before
-- the error stays done, so the state comes back beside the error too.
use mysql8_audit_proxy.Base.Tests.{Result, ok, err}

abbrev pub Action : Type 0 → Type 0 → Type 0 → Type 0
Action E S A = S → Result E A × S

module _ {E S A B : Type 0} where
  abbrev pub proceed : Result E A × S → (A → Action E S B) → Result E B × S
  proceed (ok a, s) f = f a s
  proceed (err e, s) f = (err e, s)

  infixl 5 ◌>>=◌ ◌>>◌
  abbrev pub ◌>>=◌ : Action E S A → (A → Action E S B) → Action E S B
  ◌>>=◌ m f s = proceed (m s) f

  abbrev pub ◌>>◌ : Action E S A → Action E S B → Action E S B
  ◌>>◌ m n s = proceed (m s) (λ _. n)

abbrev pub pure : {E S A : Type 0} → A → Action E S A
pure a s = (ok a, s)

abbrev pub modify : {E S : Type 0} → (S → S) → Action E S (Unit {0})
modify f s = (ok tt, f s)
