-- ===== src/Prelude/Results.antt =====
-- Go's `(value, error)` results: an error is its message.
use mouse.Prelude.Texts.{Text}

pub data Result {ℓ} (A : Type ℓ) : Type ℓ where
  ok : A → Result A
  err : Text → Result A

-- The result of a function that returns only an error.
abbrev pub Done : Type 0
Done = Result (Unit {0})
