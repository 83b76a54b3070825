-- ===== src/Sessions/Ids.antt =====
-- The names of the session files.
use mouse.Prelude.{
  ℕ, zero, suc, ◌+◌, ◌≤◌, ◌≡◌, refl, ◌≢◌, inl, inr, Bool, true, ◌||◌, [], ◌∷◌, ◌++◌, map, arith,
  Text, codes, text_eq, text_eq_iff, ltb, ◌==◌, Bool-cases, length, take, all, all-append,
  length-take,
}
use mouse.Prelude.Int.{pos, negsuc}
use mouse.Strings.{within, trim_left, trim_right, trim}
use mouse.Strings.Decimal.{format_int, format_int-negsuc}
use mouse.Strings.Paths.{not_slash, base, IsPlain, join_path-IsPlain}
use mouse.Sessions.{Store, sanitize_rune, fit_id, sanitize_id, session_path}

-- The characters of a sanitized id: lower-case letters, digits, '-' and '_'.
abbrev pub is_id_rune : ℕ → Bool
is_id_rune r = within b'a' b'z' r || within b'0' b'9' r || r == b'-' || r == b'_'

sanitize_rune_lem : (r : ℕ) → is_id_rune (sanitize_rune r) ≡ true
unfolding sanitize_rune
sanitize_rune_lem r = ground arith

map-sanitize_rune : (s : Text) → all is_id_rune (map sanitize_rune s) ≡ true
map-sanitize_rune [] = refl
map-sanitize_rune (c ∷ s) = rw (sanitize_rune_lem c) (map-sanitize_rune s)

module _ (keep p : ℕ → Bool) where
  all-trim_left : (s : Text) → all keep s ≡ true → all keep (trim_left p s) ≡ true
  unfolding trim_left
  all-trim_left [] h = refl
  all-trim_left (c ∷ s) h = ground (arith, all-trim_left s)

  all-trim_right : (s : Text) → all keep s ≡ true → all keep (trim_right p s) ≡ true
  unfolding trim_right
  all-trim_right [] h = refl
  all-trim_right (c ∷ s) h = ground (arith, all-trim_right s)

all-take : (keep : ℕ → Bool) (n : ℕ) (s : Text) → all keep s ≡ true → all keep (take n s) ≡ true
all-take keep zero s h = refl
all-take keep (suc n) [] h = refl
all-take keep (suc n) (c ∷ s) h = ground (arith, all-take keep n s)

-- A sanitized id is not empty, has at most 64 characters, and holds nothing but id characters.
pub record IsId (name : Text) : Type 0 where
  pub not_empty : name ≢ []
  pub short : length name ≤ 64
  pub runes : all is_id_rune name ≡ true

take_64 : (s : Text) → s ≢ [] → take 64 s ≢ []
take_64 [] h = h
take_64 (c ∷ s) h = λ e. cc

fit_id-IsId : (m : Text) → all is_id_rune m ≡ true → IsId (fit_id m)
unfolding fit_id
fit_id-IsId m h = elim (Bool-cases (text_eq m [])) [
  | inl empty ↦ rw empty (record { not_empty = λ e. cc; short = omega arith; runes = refl })
  | inr full ↦
      let ne : m ≢ [] = λ e. cc ((text_eq_iff m []).1 e) in
      elim (Bool-cases (ltb 64 (length m))) [
        | inl long ↦
            rw (full, long)
              (record {
                not_empty = take_64 m ne;
                short = omega (arith, length-take 64 m);
                runes = all-take is_id_rune 64 m h;
              })
        | inr fits ↦ rw (full, fits) (record { not_empty = ne; short = ground arith; runes = h })
      ]
]

-- Whatever the id, its sanitized form is fit for a file name.
pub sanitize_id-IsId : (id : Text) → IsId (sanitize_id id)
unfolding sanitize_id
sanitize_id-IsId id =
    let dash : ℕ → Bool = λ r. r == b'-' in
    let m = map sanitize_rune id in
    fit_id-IsId (trim dash m) (
      all-trim_right is_id_rune dash (trim_left dash m)
        (all-trim_left is_id_rune dash m (map-sanitize_rune id)))

all-not_slash : (s : Text) → all is_id_rune s ≡ true → all not_slash s ≡ true
all-not_slash [] h = refl
all-not_slash (c ∷ s) h = ground (arith, all-not_slash s)

IsId-IsPlain : (name : Text) → IsId name → IsPlain (name ++ codes ".md")
IsId-IsPlain [] h = absurd (h.not_empty refl)
IsId-IsPlain (c ∷ s) h = record {
  not_empty = λ e. cc;
  no_slash = rw all-append (rw (all-not_slash (c ∷ s) h.runes));
  not_dot = λ e. ground arith;
  not_dots = λ e. ground arith;
}

-- In a directory whose name is not empty, the file of a session lies directly in the store's
-- directory, whatever the session's id: its name is an id of at most 64 letters, digits, '-' and
-- '_' with ".md" behind it.
pub session_path_inside :
    (c : ℕ) (dir id : Text)
    → (name : Text) × IsId name
      × (session_path (record { dir = c ∷ dir }) id ≡ base (c ∷ dir) ++ (name ++ codes ".md"))
unfolding session_path
session_path_inside c dir id = (
  sanitize_id id,
  sanitize_id-IsId id,
  join_path-IsPlain c dir _ (IsId-IsPlain (sanitize_id id) (sanitize_id-IsId id)),
)

-- A private chat and the group chat with the opposite id have one session file.
pub session_path_collides :
    (s : Store) (n : ℕ)
    → session_path s (format_int (negsuc n)) ≡ session_path s (format_int (pos (n + 1)))
unfolding session_path
session_path_collides s n = rw format_int-negsuc (unfold sanitize_id in refl)
