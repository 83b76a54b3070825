-- ===== src/Host/Proceeds.antt =====
-- Actions that go through when no call fails, over a property of the world that they keep.
use mouse.Host.Action.{
  continue, perform, query, timestamp, wrap, IsQuiet, ◌>>=◌, Action, count_call,
}
use mouse.Host.{Env, World}
use mouse.Prelude.{err, false, if◌then◌else◌, ok, refl, true, ◌≡◌, Bool, Result, Text}

-- There is a value, it is as it should be, and so is the world.
abbrev pub Good {ℓ} : {A : Type ℓ} → (A → Type 0) → (World → Type 0) → Result A × World → Type 0
Good P I (ok a, w) = P a × I w
Good P I (err e, w) = ⊥

pub record Proceeds {ℓ} {A : Type ℓ} (P : A → Type 0) (I : World → Type 0) (m : Action A)
    : Type 0 where
  pub good : (w : World) → I w → Good P I (m w)

module _ {ℓ} {A : Type ℓ} (P : A → Type 0) (I : World → Type 0) where
  pub pure-Proceeds : (a : A) → P a → Proceeds P I (λ w. (ok a, w))
  pure-Proceeds a p = record { good = λ w h. (p, h) }

  wrapped-Good :
      (prefix : Text) (m : Action A) (w : World) → Good P I (m w) → Good P I (wrap prefix m w)
  wrapped-Good prefix m w h = go (m w).0 (m w).1 h
    where
      go : (r : Result A) (w' : World) → Good P I (r, w') → Good P I (wrap prefix (λ _. (r, w')) w)
      go (ok a) w' h = h
      go (err e) w' h = h

  pub wrap-Proceeds : (prefix : Text) (m : Action A) → Proceeds P I m → Proceeds P I (wrap prefix m)
  wrap-Proceeds prefix m h = record { good = λ w i. wrapped-Good prefix m w (h.good w i) }

  pub if-Proceeds :
      (b : Bool) (m n : Action A)
      → (b ≡ true → Proceeds P I m)
      → (b ≡ false → Proceeds P I n)
      → Proceeds P I (if b then m else n)
  if-Proceeds true m n h k = h refl
  if-Proceeds false m n h k = k refl

module _ {ℓ κ} {A : Type ℓ} {B : Type κ} (P : A → Type 0) (Q : B → Type 0)
    (I : World → Type 0) where
  after-Good :
      (r : Result A) (f : A → Action B) (w : World)
      → Good P I (r, w)
      → ((a : A) → P a → Proceeds Q I (f a))
      → Good Q I (continue r f w)
  after-Good (ok a) f w (p, h) go_on = (go_on a p).good w h
  after-Good (err e) f w h go_on = absurd h

  pub bind-Proceeds :
      (m : Action A) (f : A → Action B)
      → Proceeds P I m
      → ((a : A) → P a → Proceeds Q I (f a))
      → Proceeds Q I (m >>= f)
  bind-Proceeds m f h go_on = record {
    good = λ w i. after-Good (m w).0 f (m w).1 (h.good w i) go_on;
  }

-- The calls, over a property that does not read their number, the log or what they do not write.
module _ ⦃env : Env⦄ (fine : IsQuiet env) (I : World → Type 0)
    (called : (w : World) → I w → I (count_call w)) where
  pub query-Proceeds {ℓ} :
      {A : Type ℓ} (P : A → Type 0) (read : World → A)
      → ((w : World) → I w → P (read w))
      → Proceeds P I (query read)
  query-Proceeds P read h = record { good = λ w i. rw (fine w.calls, query) (h w i, called w i) }

  pub perform-Proceeds :
      (effect : World → World)
      → ((w : World) → I w → I (effect w))
      → Proceeds (λ _. Unit {0}) I (perform effect)
  perform-Proceeds effect keeps = record {
    good = λ w i. rw (fine w.calls) (tt, keeps (count_call w) (called w i));
  }

  pub timestamp-Proceeds : Proceeds (λ _. Unit {0}) I timestamp
  timestamp-Proceeds = record { good = λ w i. (tt, called w i) }
