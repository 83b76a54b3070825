-- ===== src/Strings.antt =====
-- What the program uses of Go's packages strings, strconv and unicode, over texts as lists of code
-- points (every text is valid UTF-8). The case mapping of Unicode is a table that is not part of
-- the program: it is the instance `Unicode`, and what is relied on is `IsLawful`.
pub mod Trim
pub mod Decimal
pub mod Runs
pub mod Paths
use mouse.Prelude.{
  ℕ, ◌+◌, ◌-◌, ◌<◌, ◌≡◌, Bool, true, false, ◌&&◌, ◌||◌, List, [], ◌∷◌, ◌++◌, map, Text, ltb, leb,
  ◌==◌, if◌then◌else◌, text_eq,
}

-- `unicode.ToLower`
pub record Unicode : Type 0 where
  pub lower : ℕ → ℕ

abbrev pub within : ℕ → ℕ → ℕ → Bool
within lo hi c = leb lo c && leb c hi

-- `unicode.ToLower` on ASCII
abbrev pub ascii_lower : ℕ → ℕ
ascii_lower c = if within b'A' b'Z' c then c + 32 else c

-- `unicode.IsSpace`
unfoldable pub is_space : ℕ → Bool
is_space c =
    within 9 13 c
    || c == 32
    || c == 0x85
    || c == 0xa0
    || c == 0x1680
    || within 0x2000 0x200a c
    || within 0x2028 0x2029 c
    || c == 0x202f
    || c == 0x205f
    || c == 0x3000

-- The facts about Unicode that proofs rely on.
pub record IsLawful (u : Unicode) : Type 0 where
  pub lower_ascii : (c : ℕ) → c < 128 → u.lower c ≡ ascii_lower c
  pub lower_idem : (c : ℕ) → u.lower (u.lower c) ≡ u.lower c
  pub lower_space : (c : ℕ) → is_space (u.lower c) ≡ is_space c

-- `strings.ToLower`
abbrev pub to_lower : ⦃u : Unicode⦄ → Text → Text
to_lower ⦃u⦄ s = map u.lower s

-- `strings.TrimLeftFunc`, `strings.TrimRightFunc`, `strings.TrimFunc`
unfoldable pub trim_left : (ℕ → Bool) → Text → Text
trim_left p [] = []
trim_left p (c ∷ s) = let rest = trim_left p s in if p c then rest else c ∷ s

unfoldable pub trim_right : (ℕ → Bool) → Text → Text
trim_right p [] = []
trim_right p (c ∷ s) = let rest = trim_right p s in if p c && text_eq rest [] then [] else c ∷ rest

abbrev pub trim : (ℕ → Bool) → Text → Text
trim p s = trim_right p (trim_left p s)

-- `strings.TrimSpace`
unfoldable pub trim_space : Text → Text
unfolding trim_left trim_right is_space text_eq
trim_space s = trim is_space s

-- `strings.TrimSpace(s) == ""`
unfoldable pub is_blank : Text → Bool
unfolding trim_space
is_blank s = text_eq (trim_space s) []

-- `strings.HasPrefix`
unfoldable pub has_prefix : Text → Text → Bool
has_prefix s [] = true
has_prefix [] (p ∷ ps) = false
has_prefix (c ∷ s) (p ∷ ps) = c == p && has_prefix s ps

-- `strings.TrimPrefix`
unfoldable pub trim_prefix : Text → Text → Text
trim_prefix s [] = s
trim_prefix [] (p ∷ ps) = []
trim_prefix (c ∷ s) (p ∷ ps) =
    let rest = trim_prefix s ps in if c == p && has_prefix s ps then rest else c ∷ s

-- The maximal runs of characters that pass a test, after the run read so far.
flush : Text → List Text → List Text
flush [] out = out
flush current out = current ∷ out

unfoldable pub runs : (ℕ → Bool) → Text → Text → List Text
unfolding flush
runs keep current [] = flush current []
runs keep current (c ∷ s) =
    let rest = runs keep (if keep c then current ++ c ∷ [] else []) s in
    if keep c then rest else flush current rest

-- `strings.Fields`
unfoldable pub fields : Text → List Text
unfolding runs is_space
fields s = runs (λ c. if is_space c then false else true) [] s

-- `strings.Join`
unfoldable pub join : Text → List Text → Text
join sep [] = []
join sep (x ∷ []) = x
join sep (x ∷ y ∷ rest) = x ++ sep ++ join sep (y ∷ rest)

-- `len(s)`: the bytes of the UTF-8 form.
abbrev pub rune_length : ℕ → ℕ
rune_length c = if ltb c 0x80 then 1 else if ltb c 0x800 then 2 else if ltb c 0x10000 then 3 else 4

abbrev pub byte_length : Text → ℕ
byte_length [] = 0
byte_length (c ∷ s) = rune_length c + byte_length s
