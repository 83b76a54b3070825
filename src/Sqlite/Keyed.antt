-- ===== src/Sqlite/Keyed.antt =====
-- A table whose rows have a unique text key: INSERT ... ON CONFLICT(key) DO UPDATE, SELECT ... WHERE
-- key = ?, and DELETE ... WHERE key = ?.
use mouse.Prelude.{
  inr, inl, Bool-cases, All, ◌≡◌, refl, not, Option, none, some, List, [], ◌∷◌, arith, Text,
  text_eq, text_eq_iff, if◌then◌else◌, filter,
}

module _ {R : Type 0} (key : R → Text) where
  unfoldable pub find : Text → List R → Option R
  find k [] = none
  find k (r ∷ rs) = if text_eq (key r) k then some r else find k rs

  -- The row that conflicts is merged with the new one; with no conflict the new row is added.
  unfoldable pub upsert : R → (R → R) → List R → List R
  upsert new merge [] = new ∷ []
  upsert new merge (r ∷ rs) =
      if text_eq (key r) (key new) then merge r ∷ rs else r ∷ upsert new merge rs

  unfoldable pub delete : Text → List R → List R
  delete k rs = filter (λ r. not (text_eq (key r) k)) rs

  -- PRIMARY KEY, UNIQUE
  abbrev pub UniqueKeys : List R → Type 0
  UniqueKeys [] = Unit
  UniqueKeys (r ∷ rs) = (find (key r) rs ≡ none) × UniqueKeys rs

module _ {R : Type 0} (key : R → Text) (new : R) (merge : R → R)
    (keeps : (r : R) → key r ≡ key new → key (merge r) ≡ key new) where
  abbrev pub merged : Option R → R
  merged none = new
  merged (some r) = merge r

  pub find-upsert :
      (k : Text) (rs : List R)
      → find key k (upsert key new merge rs)
        ≡ (if text_eq (key new) k then some (merged (find key (key new) rs)) else find key k rs)
  unfolding find upsert
  find-upsert k [] = refl
  find-upsert k (r ∷ rs) = ground (
    arith,
    find-upsert k rs,
    keeps r,
    text_eq_iff (key r) (key new),
    text_eq_iff (key r) k,
    text_eq_iff (key new) k,
    text_eq_iff (key (merge r)) k,
  )

  pub upsert-UniqueKeys :
      (rs : List R) → UniqueKeys key rs → UniqueKeys key (upsert key new merge rs)
  unfolding upsert find
  upsert-UniqueKeys [] u = (refl, tt)
  upsert-UniqueKeys (r ∷ rs) (fresh, u) = ground (
    arith,
    keeps r,
    upsert-UniqueKeys rs u,
    find-upsert (key r) rs,
    text_eq_iff (key r) (key new),
    text_eq_iff (key new) (key r),
  )

module _ {R : Type 0} (key : R → Text) where
  pub find-delete :
      (k j : Text) (rs : List R)
      → find key j (delete key k rs) ≡ (if text_eq k j then none else find key j rs)
  unfolding find delete
  find-delete k j [] = ground arith
  find-delete k j (r ∷ rs) =
      ground
        (arith, find-delete k j rs, text_eq_iff (key r) k, text_eq_iff (key r) j, text_eq_iff k j)

  pub delete-UniqueKeys :
      (k : Text) (rs : List R) → UniqueKeys key rs → UniqueKeys key (delete key k rs)
  unfolding delete
  delete-UniqueKeys k [] u = tt
  delete-UniqueKeys k (r ∷ rs) (fresh, u) =
      ground (arith, delete-UniqueKeys k rs u, find-delete k (key r) rs)

  pub find-key : (k : Text) (rs : List R) (r : R) → find key k rs ≡ some r → key r ≡ k
  unfolding find
  find-key k [] s h = cc
  find-key k (r ∷ rs) s h = ground (arith, find-key k rs s, text_eq_iff (key r) k)

-- What holds of every row.
module _ {R : Type 0} (key : R → Text) (P : R → Type 0) where
  pub upsert-All :
      (new : R) (merge : R → R) (rs : List R)
      → P new
      → ((r : R) → P r → key r ≡ key new → P (merge r))
      → All P rs
      → All P (upsert key new merge rs)
  unfolding upsert
  upsert-All new merge [] p k h = (p, tt)
  upsert-All new merge (r ∷ rs) p k (first, h) = elim (Bool-cases (text_eq (key r) (key new))) [
    | inl same ↦ rw same (k r first ((text_eq_iff (key r) (key new)).0 same), h)
    | inr other ↦ rw other (first, upsert-All new merge rs p k h)
  ]

  pub delete-All : (k : Text) (rs : List R) → All P rs → All P (delete key k rs)
  unfolding delete
  delete-All k [] h = tt
  delete-All k (r ∷ rs) (first, h) = elim (Bool-cases (text_eq (key r) k)) [
    | inl same ↦ rw same (delete-All k rs h)
    | inr other ↦ rw other (first, delete-All k rs h)
  ]
