-- ===== src/Host/Keeps.antt =====
-- Properties of the world that an action keeps, whatever fails in it.
use mouse.Host.Action.{try, update, ◌>>=◌, Action, continue, wrap, perform, query, count_call}
use mouse.Prelude.{inr, false, err, inl, true, Text, ok, Option-cases, if◌then◌else◌, Result, Bool}
use mouse.Host.{World, Env}

pub record Keeps {ι ℓ} (I : World → Type ι) {A : Type ℓ} (m : Action A) : Type ι where
  pub after : (w : World) → I w → I (m w).1

module _ {ι} {I : World → Type ι} where
  pub pure-Keeps {ℓ} : {A : Type ℓ} (r : Result A) → Keeps I (λ w. (r, w))
  pure-Keeps r = record { after = λ w h. h }

  after_result {ℓ κ} :
      {A : Type ℓ} {B : Type κ} (r : Result A) (f : A → Action B) (w : World)
      → ((a : A) → Keeps I (f a))
      → I w
      → I (continue r f w).1
  after_result (ok a) f w k h = (k a).after w h
  after_result (err e) f w k h = h

  pub bind-Keeps {ℓ κ} :
      {A : Type ℓ} {B : Type κ} (m : Action A) (f : A → Action B)
      → Keeps I m
      → ((a : A) → Keeps I (f a))
      → Keeps I (m >>= f)
  bind-Keeps m f k l = record { after = λ w h. after_result (m w).0 f (m w).1 l (k.after w h) }

  pub wrap-Keeps {ℓ} :
      {A : Type ℓ} (prefix : Text) (m : Action A) → Keeps I m → Keeps I (wrap prefix m)
  wrap-Keeps prefix m k = record { after = λ w h. k.after w h }

  pub try-Keeps {ℓ} : {A : Type ℓ} (m : Action A) → Keeps I m → Keeps I (try m)
  try-Keeps m k = record { after = λ w h. k.after w h }

  pub if-Keeps {ℓ} :
      {A : Type ℓ} (b : Bool) (m n : Action A)
      → Keeps I m
      → Keeps I n
      → Keeps I (if b then m else n)
  if-Keeps true m n k l = k
  if-Keeps false m n k l = l

  module _ ⦃env : Env⦄ (called : (w : World) → I w → I (count_call w)) where
    -- A call that reads.
    pub reading-Keeps {ℓ} : {A : Type ℓ} (read : World → A) → Keeps I (query read)
    reading-Keeps read = record {
      after = λ w h. elim (Option-cases (env.fault w.calls)) [
        | inl fine ↦ rw (fine, query) (called w h)
        | inr (e, failed) ↦ rw (failed, query) (called w h)
      ];
    }

    -- A call that writes, if what it writes keeps the property.
    pub writing-Keeps :
        (effect : World → World) → ((w : World) → I w → I (effect w)) → Keeps I (perform effect)
    writing-Keeps effect keeps = record {
      after = λ w h. elim (Option-cases (env.fault w.calls)) [
        | inl fine ↦ rw fine (keeps (count_call w) (called w h))
        | inr (e, failed) ↦ rw failed (called w h)
      ];
    }

    -- And one that returns a value as well.
    pub updating-Keeps {ℓ} :
        {A : Type ℓ} (read : World → A) (effect : World → World)
        → ((w : World) → I w → I (effect w))
        → Keeps I (update read effect)
    updating-Keeps read effect keeps = record {
      after = λ w h. elim (Option-cases (env.fault w.calls)) [
        | inl fine ↦ rw (fine, update) (keeps (count_call w) (called w h))
        | inr (e, failed) ↦ rw (failed, update) (called w h)
      ];
    }
