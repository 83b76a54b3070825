-- ===== src/Mousectl/Logs.antt =====
-- cmd/mousectl/main.go: which lines of the log `logsCmd` shows.
use mouse.Mousectl.Calls.{done, Flags, Remote}
use mouse.Mousectl.Output.{last_lines, logs_read, prepend, shown, split_lines}
use mouse.Mousectl.{logs_cmd}
use mouse.Prelude.{
  ==_iff, ◌+◌, ◌&&◌, if◌then◌else◌, false, all, ap, arith, codes, drop, inl, inr, length, ltb, none,
  not, ok, refl, sym, take, take-drop, length-take, true, [], ◌++◌, ◌-◌, ◌==◌, ◌∙◌, ◌∷◌, ◌≡◌, All,
  Bool-cases, List, Text, ℕ,
}
use Prim.Native.Nat.{min, suc, zero}
use mouse.Prelude.Int.{negsuc, pos, ℤ}
use mouse.Strings.{join, trim_space}
use mathlib.Core.Path.{subst}

-- A text without the end of a line.
abbrev pub IsLine : Text → Type 0
IsLine s = all (λ c. not (c == b'\n')) s ≡ true

-- There is always a first line.
abbrev Split : Text → List Text → Type 0
Split s [] = ⊥
Split s (first ∷ rest) = (join (codes "\n") (first ∷ rest) ≡ s) × All IsLine (first ∷ rest)

after_newline : (s : Text) (lines : List Text) → Split s lines → Split (b'\n' ∷ s) ([] ∷ lines)
unfolding join
after_newline s [] h = absurd h
after_newline s (first ∷ rest) (same, h) = (ap (◌∷◌ b'\n') same, (refl, h))

prepend-join :
    (c : ℕ) (s : Text) (lines : List Text)
    → (c == b'\n') ≡ false
    → Split s lines
    → Split (c ∷ s) (prepend c lines)
unfolding join prepend
prepend-join c s [] other h = absurd h
prepend-join c s (first ∷ []) other (same, (h, hs)) = (ap (◌∷◌ c) same, (rw other h, hs))
prepend-join c s (first ∷ second ∷ rest) other (same, (h, hs)) = (ap (◌∷◌ c) same, (rw other h, hs))

split_lines-Split : (s : Text) → Split s (split_lines s)
unfolding split_lines join
split_lines-Split [] = (refl, (refl, tt))
split_lines-Split (c ∷ s) = elim (Bool-cases (c == b'\n')) [
  | inl newline ↦ rw newline (
      subst (λ d. Split (d ∷ s) ([] ∷ split_lines s)) (sym ((==_iff c b'\n').0 newline))
        (after_newline s (split_lines s) (split_lines-Split s)))
  | inr other ↦ rw other (prepend-join c s (split_lines s) other (split_lines-Split s))
]

Split-join :
    (s : Text) (lines : List Text)
    → Split s lines
    → (join (codes "\n") lines ≡ s) × All IsLine lines
Split-join s [] h = absurd h
Split-join s (first ∷ rest) h = h

-- Which of the lines are kept: the last `n` of them, or all if there are no more or `n` is not
-- positive.
abbrev pub AreLast {ℓ} : {A : Type ℓ} → ℤ → List A → List A → Type 0
AreLast (pos zero) hidden kept = length hidden ≡ 0
AreLast (pos (suc n)) hidden kept = length kept ≡ min (suc n) (length hidden + length kept)
AreLast (negsuc n) hidden kept = length hidden ≡ 0

-- What `last_lines` keeps, and what it leaves out before it.
pub hidden_lines {ℓ} : {A : Type ℓ} → ℤ → List A → List A
hidden_lines (pos n) entries =
    if ltb 0 n && ltb n (length entries) then take (length entries - n) entries else []
hidden_lines (negsuc n) entries = []

pub hidden_and_kept {ℓ} :
    {A : Type ℓ} (n : ℤ) (entries : List A)
    → hidden_lines n entries ++ last_lines n entries ≡ entries
unfolding hidden_lines last_lines
hidden_and_kept (pos n) entries = elim (Bool-cases (ltb 0 n && ltb n (length entries))) [
  | inl more ↦ rw more (take-drop (length entries - n) entries)
  | inr few ↦ rw few refl
]
hidden_and_kept (negsuc n) entries = refl

length-drop {ℓ} : {A : Type ℓ} (n : ℕ) (xs : List A) → length (drop n xs) ≡ length xs - n
length-drop zero xs = omega arith
length-drop (suc n) [] = omega arith
length-drop (suc n) (x ∷ xs) = omega (arith, length-drop n xs)

pub last_lines-AreLast {ℓ} :
    {A : Type ℓ} (n : ℤ) (entries : List A)
    → AreLast n (hidden_lines n entries) (last_lines n entries)
unfolding hidden_lines last_lines
last_lines-AreLast (pos zero) entries = refl
last_lines-AreLast (pos (suc n)) entries =
    let left = length entries - suc n in
    ground (arith, length-take left entries, length-drop left entries)
last_lines-AreLast (negsuc n) entries = refl

module _ ⦃remote : Remote⦄ where
  -- If the file can be read, `logsCmd` sends nothing and exits with 0, and what it prints is made
  -- of the last `n` lines of the trimmed file, in their order: `n` of them, or all if there are
  -- fewer or if `n` is not positive.
  pub logs_cmd-AreLast :
      (f : Flags) (text : Text)
      → remote.read_file f.path ≡ ok text
      → (hidden kept : List Text) × (join (codes "\n") (hidden ++ kept) ≡ trim_space text)
        × All IsLine (hidden ++ kept)
        × AreLast f.lines hidden kept
        × (logs_cmd f ≡ done none (shown kept))
  unfolding logs_cmd logs_read
  logs_cmd-AreLast f text read =
      let entries = split_lines (trim_space text) in
      let split = Split-join (trim_space text) entries (split_lines-Split (trim_space text)) in
      let whole = sym (hidden_and_kept f.lines entries) in
      (
        hidden_lines f.lines entries,
        last_lines f.lines entries,
        ap (join (codes "\n")) (hidden_and_kept f.lines entries) ∙ split.0,
        subst (All IsLine) whole split.1,
        last_lines-AreLast f.lines entries,
        ap (logs_read f.lines) read,
      )
