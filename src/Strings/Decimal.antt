-- ===== src/Strings/Decimal.antt =====
-- `strconv.FormatInt(n, 10)`, `strconv.Itoa` and `strconv.Atoi` on 64-bit integers.
use mathlib.Core.WellFounded.{Acc}
use mathlib.Core.List.{tail}
use mouse.Prelude.{
  ◌≤◌, ◌&&◌, leb, all, ℕ, zero, suc, ◌+◌, ◌-◌, ◌*◌, ◌/◌, ◌%◌, ◌^◌, ◌<◌, ◌≡◌, refl, sym, ap, ◌≢◌,
  Bool, true, false, ◌||◌, Option, none, some, [], ◌∷◌, arith, Text, codes, ltb, ◌==◌,
  if◌then◌else◌,
}
use mouse.Prelude.Int.{ℤ, pos, negsuc}
use mouse.Strings.{trim_right, trim_left, trim_space, is_space, is_blank}

-- Every number up to a bound is accessible, so every number is.
Acc_upto : (bound m : ℕ) → m ≤ bound → Acc ◌<◌ m
Acc_upto zero m fits = Acc.intro m (λ k below. absurd (omega arith))
Acc_upto (suc bound) m fits = Acc.intro m (λ k below. Acc_upto bound k (omega arith))

accessible : (m : ℕ) → Acc ◌<◌ m
unfolding Acc_upto
accessible m = Acc_upto m m (omega arith)

quotient_lt : (m : ℕ) → 0 < m → m / 10 < m
quotient_lt m positive = omega arith

abbrev last_digit : ℕ → ℕ
last_digit m = b'0' + m % 10

-- The digits of a number in front of what is written already; none for 0.
emit : Text → (m : ℕ) → Acc ◌<◌ m → Text
emit written zero _ = written
emit written (suc k) (Acc.intro _ reached) =
    let m = suc k in
    emit (last_digit m ∷ written) (m / 10) (reached (m / 10) (quotient_lt m (omega arith)))

digits : ℕ → Text
digits zero = b'0' ∷ []
digits (suc k) = emit [] (suc k) (accessible (suc k))

-- `strconv.FormatInt(n, 10)`
unfoldable pub format_int : ℤ → Text
unfolding digits emit accessible quotient_lt
format_int (pos n) = digits n
format_int (negsuc n) = b'-' ∷ digits (n + 1)

-- The number that digits spell behind `n`; `none` at any other character.
unfoldable pub read_digits : ℕ → Text → Option ℕ
read_digits n [] = some n
read_digits n (c ∷ s) =
    let rest = read_digits (n * 10 + (c - b'0')) s in
    if ltb c b'0' || ltb b'9' c then none else rest

unfoldable pub unsigned : Text → Option ℕ
unfolding read_digits
unsigned [] = none
unsigned (c ∷ s) = read_digits 0 (c ∷ s)

abbrev negate : ℕ → ℤ
negate zero = pos 0
negate (suc n) = negsuc n

-- `strconv.Atoi` on a 64-bit machine: an optional sign, then digits. It refuses what does not fit.
signed : Bool → Text → Option ℤ
signed minus s = elim (unsigned s) [
  | none ↦ none
  | some n ↦
      if ltb (if minus then 2 ^ 63 else 2 ^ 63 - 1) n
      then none
      else some (if minus then negate n else pos n)
]

unfoldable pub atoi : Text → Option ℤ
unfolding signed unsigned
atoi [] = none
atoi (c ∷ s) =
    if c == b'-' then signed true s else if c == b'+' then signed false s else signed false (c ∷ s)

atoi_tests :
    (atoi (codes "59") ≡ some (pos 59))
    × (atoi (codes "-5") ≡ some (negsuc 4))
    × (atoi (codes "+07") ≡ some (pos 7))
    × (atoi (codes "*/5") ≡ none)
    × (atoi (codes "9223372036854775808") ≡ none)
unfolding atoi
atoi_tests = (refl, refl, refl, refl, refl)

format_tests :
    (format_int (pos 0) ≡ codes "0")
    × (format_int (pos 42) ≡ codes "42")
    × (format_int (negsuc 99) ≡ codes "-100")
unfolding format_int
format_tests = (refl, refl, refl)

-- What `emit` puts in front reads back as the number, whatever was read before.
read-emit :
    (written : Text) (m : ℕ) (w : Acc ◌<◌ m)
    → read_digits 0 (emit written m w) ≡ read_digits m written
unfolding emit read_digits
read-emit written zero w = refl
read-emit written (suc k) (Acc.intro _ reached) =
    let m = suc k in
    grind (
      arith,
      read-emit (last_digit m ∷ written) (m / 10) (reached (m / 10) (quotient_lt m (omega arith))),
    )

read-digits : (n : ℕ) → read_digits 0 (digits n) ≡ some n
unfolding digits read_digits
read-digits zero = refl
read-digits (suc n) = ground (arith, read-emit [] (suc n) (accessible (suc n)))

-- A number is not written with a sign in front of its digits.
digits-ne-minus : (n : ℕ) (s : Text) → digits n ≢ b'-' ∷ s
unfolding read_digits
digits-ne-minus n s h = ground (arith, read-digits n, ap (read_digits 0) h)

digits-injective : (m n : ℕ) → digits m ≡ digits n → m ≡ n
digits-injective m n h = cc (read-digits m, read-digits n, ap (read_digits 0) h)

-- Two integers that are written alike are equal.
pub format_int-injective : (a b : ℤ) → format_int a ≡ format_int b → a ≡ b
unfolding format_int
format_int-injective (pos m) (pos n) h = ap pos (digits-injective m n h)
format_int-injective (pos m) (negsuc n) h = absurd (digits-ne-minus m _ h)
format_int-injective (negsuc m) (pos n) h = absurd (digits-ne-minus n _ (sym h))
format_int-injective (negsuc m) (negsuc n) h =
    ap negsuc (omega (arith, digits-injective (m + 1) (n + 1) (ap tail h)))

-- A negative number is written as its absolute value behind a sign.
pub format_int-negsuc : (n : ℕ) → format_int (negsuc n) ≡ b'-' ∷ format_int (pos (n + 1))
unfolding format_int
format_int-negsuc n = refl

-- A number is not written with no character at all.
pub format_int-ne-nil : (z : ℤ) → format_int z ≢ []
unfolding format_int read_digits
format_int-ne-nil (pos zero) h = cc
format_int-ne-nil (pos (suc n)) h = ground (arith, read-digits (suc n), ap (read_digits 0) h)
format_int-ne-nil (negsuc n) h = cc

abbrev is_digit : ℕ → Bool
is_digit c = leb b'0' c && leb c b'9'

emit-digits :
    (written : Text) (m : ℕ) (w : Acc ◌<◌ m)
    → all is_digit written ≡ true
    → all is_digit (emit written m w) ≡ true
unfolding emit
emit-digits written zero w h = h
emit-digits written (suc k) (Acc.intro _ reached) h =
    let m = suc k in
    emit-digits (last_digit m ∷ written) (m / 10) (reached (m / 10) (quotient_lt m (omega arith)))
      (ground arith)

digits-all : (n : ℕ) → all is_digit (digits n) ≡ true
unfolding digits
digits-all zero = refl
digits-all (suc n) = emit-digits [] (suc n) (accessible (suc n)) refl

not_blank : (c : ℕ) (s : Text) → is_space c ≡ false → is_blank (c ∷ s) ≡ false
unfolding is_blank trim_space
not_blank c s h = rw (h, trim_left) (rw (h, trim_right))

digits-not_blank : (s : Text) → s ≢ [] → all is_digit s ≡ true → is_blank s ≡ false
unfolding is_space
digits-not_blank [] ne h = absurd (ne refl)
digits-not_blank (c ∷ s) ne h = not_blank c s (ground arith)

-- A number is not blank.
pub format_int-not_blank : (z : ℤ) → is_blank (format_int z) ≡ false
unfolding format_int is_space
format_int-not_blank (pos n) =
    digits-not_blank (digits n) (format_int-ne-nil (pos n)) (digits-all n)
format_int-not_blank (negsuc n) = not_blank b'-' (digits (n + 1)) refl
