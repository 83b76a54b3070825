-- ===== src/Host/Yields.antt =====
-- What holds of the value that an action returns, if it returns one.
use mouse.Host.Action.{continue, ◌>>=◌, Action}
use mouse.Host.{World}
use mouse.Prelude.{err, false, if◌then◌else◌, ok, true, Bool, Result}

abbrev pub IfOk {ι ℓ} : {A : Type ℓ} → (A → Type ι) → Result A → Type ι
IfOk P (ok a) = P a
IfOk P (err e) = Unit

pub record Yields {ι ℓ} {A : Type ℓ} (P : A → Type ι) (m : Action A) : Type ι where
  pub holds : (w : World) → IfOk P (m w).0

module _ {ι ℓ} {A : Type ℓ} (P : A → Type ι) where
  pub pure-Yields : (r : Result A) → IfOk P r → Yields P (λ w. (r, w))
  pure-Yields r h = record { holds = λ w. h }

  after_result {κ ℓ'} :
      {B : Type ℓ'} (Q : B → Type κ) (r : Result A) (f : A → Action B) (w : World)
      → IfOk P r
      → ((a : A) → P a → Yields Q (f a))
      → IfOk Q (continue r f w).0
  after_result Q (ok a) f w h go_on = (go_on a h).holds w
  after_result Q (err e) f w h go_on = tt

  pub bind-Yields {κ ℓ'} :
      {B : Type ℓ'} (Q : B → Type κ) (m : Action A) (f : A → Action B)
      → Yields P m
      → ((a : A) → P a → Yields Q (f a))
      → Yields Q (m >>= f)
  bind-Yields Q m f h go_on = record {
    holds = λ w. after_result Q (m w).0 f (m w).1 (h.holds w) go_on;
  }

  pub if-Yields :
      (b : Bool) (m n : Action A) → Yields P m → Yields P n → Yields P (if b then m else n)
  if-Yields true m n h k = h
  if-Yields false m n h k = k

-- An action whose value does not matter.
any_then {ι ℓ ℓ'} :
    {A : Type ℓ} {B : Type ℓ'} (Q : B → Type ι) (r : Result A) (f : A → Action B) (w : World)
    → ((a : A) → Yields Q (f a))
    → IfOk Q (continue r f w).0
any_then Q (ok a) f w go_on = (go_on a).holds w
any_then Q (err e) f w go_on = tt

pub then-Yields {ι ℓ ℓ'} :
    {A : Type ℓ} {B : Type ℓ'} (Q : B → Type ι) (m : Action A) (f : A → Action B)
    → ((a : A) → Yields Q (f a))
    → Yields Q (m >>= f)
then-Yields Q m f go_on = record { holds = λ w. any_then Q (m w).0 f (m w).1 go_on }
