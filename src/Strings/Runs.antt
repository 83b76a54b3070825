-- ===== src/Strings/Runs.antt =====
-- Cutting text into runs, as `strings.Fields` and the tokenizer do.
use mouse.Prelude.{
  ℕ, ◌≡◌, refl, sym, ap, ◌∙◌, ◌≢◌, inl, inr, Bool, true, false, List, [], ◌∷◌, ◌++◌, arith, Text,
  Bool-cases, all, all-append, All, append_assoc, append-nil,
}
use mouse.Strings.{flush, runs}

-- A run: not empty, and every character passes the test.
abbrev pub IsRun : (ℕ → Bool) → Text → Type 0
IsRun keep t = (t ≢ []) × (all keep t ≡ true)

flush-IsRun :
    (keep : ℕ → Bool) (current : Text) (out : List Text)
    → all keep current ≡ true
    → All (IsRun keep) out
    → All (IsRun keep) (flush current out)
unfolding flush
flush-IsRun keep [] out h a = a
flush-IsRun keep (c ∷ s) out h a = ((λ e. cc, h), a)

all-snoc :
    (keep : ℕ → Bool) (s : Text) (c : ℕ)
    → all keep s ≡ true
    → keep c ≡ true
    → all keep (s ++ c ∷ []) ≡ true
all-snoc keep s c h k = rw all-append (rw (h, k))

-- Whatever the text, each run is a run.
pub runs-IsRun :
    (keep : ℕ → Bool) (current s : Text)
    → all keep current ≡ true
    → All (IsRun keep) (runs keep current s)
unfolding runs
runs-IsRun keep current [] h = flush-IsRun keep current [] h tt
runs-IsRun keep current (c ∷ s) h = elim (Bool-cases (keep c)) [
  | inl kept ↦ rw kept (runs-IsRun keep (current ++ c ∷ []) s (all-snoc keep current c h kept))
  | inr cut ↦ rw cut (flush-IsRun keep current _ h (runs-IsRun keep [] s refl))
]

flush-append :
    (current : Text) (xs ys : List Text) → flush current xs ++ ys ≡ flush current (xs ++ ys)
unfolding flush
flush-append [] xs ys = refl
flush-append (c ∷ s) xs ys = refl

-- A character that fails the test ends the run before it, and nothing else.
pub runs-cut :
    (keep : ℕ → Bool) (current s : Text) (c : ℕ) (t : Text)
    → keep c ≡ false
    → runs keep current (s ++ c ∷ t) ≡ runs keep current s ++ runs keep [] t
unfolding runs
runs-cut keep current [] c t h = rw h (sym (flush-append current [] (runs keep [] t)))
runs-cut keep current (d ∷ s) c t h = elim (Bool-cases (keep d)) [
  | inl kept ↦ rw kept (runs-cut keep (current ++ d ∷ []) s c t h)
  | inr cut ↦ rw cut (
      ap (flush current) (runs-cut keep [] s c t h)
      ∙ sym (flush-append current (runs keep [] s) (runs keep [] t)))
]

-- A text that passes the test whole is one run.
runs_whole :
    (keep : ℕ → Bool) (current s : Text)
    → all keep s ≡ true
    → runs keep current s ≡ flush (current ++ s) []
unfolding runs
runs_whole keep current [] h = rw append-nil
runs_whole keep current (c ∷ s) h = elim (Bool-cases (keep c)) [
  | inl kept ↦ rw kept (runs_whole keep (current ++ c ∷ []) s (ground arith) ∙ rw append_assoc)
  | inr cut ↦ cc
]

pub runs_one : (keep : ℕ → Bool) (s : Text) → s ≢ [] → all keep s ≡ true → runs keep [] s ≡ s ∷ []
unfolding flush
runs_one keep [] ne h = absurd (ne refl)
runs_one keep (c ∷ s) ne h = runs_whole keep [] (c ∷ s) h
