-- ===== src/Indexer/Scan/Mirror.antt =====
-- The index after a scan.
use mouse.Indexer.Scan.{Indexer, Hashing, scan_roots, remove_missing, scan_once}
use mouse.Indexer.Scan.Entries.{IsFresh, IsFresh-frame, HasDigits, find_entry}
use mouse.Indexer.Scan.Files.{is_seen, collect_roots, belongs, is_seen-belongs}
use mouse.Indexer.Scan.Walks.{AllFresh, Scanned, scan_roots_lem}
use mouse.Indexer.Scan.Removal.{Kept, remove_missing_lem}
use mouse.Strings.{Unicode}
use mouse.Host.{World, Env}
use mouse.Prelude.{
  inr, text_eq_iff, sym, inl, is_empty, text_eq, refl, Bool-cases, ◌∷◌, some, false, ◌∙◌,
  if◌then◌else◌, [], none, true, err, List, ok, ◌≢◌, ◌≡◌, Bool, Result, Text,
}
use mouse.Host.Action.{continue}
use mathlib.Core.Path.{subst}

empty_nil : (xs : List Text) → is_empty xs ≡ true → xs ≡ []
empty_nil [] h = refl
empty_nil (x ∷ xs) h = cc

module _ ⦃u : Unicode⦄ ⦃env : Env⦄ ⦃sha : Hashing⦄ where
  -- A path that belongs into the index has a fresh entry, and any other path has none.
  abbrev pub IndexedAs : Bool → Text → World → Type 0
  IndexedAs true q w = IsFresh q w
  IndexedAs false q w = find_entry q w ≡ none

  -- After a scan that goes through, the index is the Markdown files below the watched paths.
  abbrev pub Mirrors : Indexer → World → Result (Unit {0}) → World → Type 0
  Mirrors i w (ok _) w' =
      (w'.files ≡ w.files) × ((q : Text) → IndexedAs (belongs i.watch w.files q) q w')
  Mirrors i w (err e) w' = Unit

  IsFresh-is_seen :
      (q : Text) (seen : List Text) (w : World)
      → AllFresh seen w
      → is_seen q seen ≡ true
      → IsFresh q w
  IsFresh-is_seen q [] w h e = cc
  IsFresh-is_seen q (p ∷ seen) w (f, h) e = elim (Bool-cases (text_eq q p)) [
    | inl same ↦ subst (λ s. IsFresh s w) (sym ((text_eq_iff q p).0 same)) f
    | inr other ↦ IsFresh-is_seen q seen w h (rw other at e)
  ]

  indexed_as :
      (q : Text) (seen : List Text) (b : Bool) (w w' : World)
      → w'.files ≡ w.files
      → AllFresh seen w
      → find_entry q w' ≡ (if is_seen q seen then find_entry q w else none)
      → is_seen q seen ≡ b
      → IndexedAs b q w'
  indexed_as q seen true w w' files h e b =
      IsFresh-frame q w w' files (e ∙ rw b refl) (IsFresh-is_seen q seen w h b)
  indexed_as q seen false w w' files h e b = e ∙ rw b refl

  Mirrors-Kept :
      (i : Indexer) (w w₁ : World) (r : Result (Unit {0})) (w' : World)
      → w₁.files ≡ w.files
      → AllFresh (collect_roots w.files [] i.watch) w₁
      → Kept (collect_roots w.files [] i.watch) w₁ r w'
      → Mirrors i w r w'
  Mirrors-Kept i w w₁ (err e) w' files fresh h = tt
  Mirrors-Kept i w w₁ (ok _) w' files fresh (files₂, kept) = (
    files₂ ∙ files,
    λ q.
        indexed_as q (collect_roots w.files [] i.watch) (belongs i.watch w.files q) w₁ w' files₂
          fresh (kept q) (is_seen-belongs q w.files i.watch),
  )

  after_scan :
      (i : Indexer) (r : Result (List Text)) (w w₁ : World)
      → Scanned (collect_roots w.files [] i.watch) w r w₁
      → let (r', w') = continue {0, 0} r (λ seen. remove_missing i seen) w₁ in Mirrors i w r' w'
  after_scan i (err e) w w₁ h = tt
  after_scan i (ok seen) w w₁ (files, same, fresh) =
      Mirrors-Kept i w w₁ _ _ files (subst (λ s. AllFresh s w₁) same fresh) (
        subst (λ s. Kept s w₁ (remove_missing i seen w₁).0 (remove_missing i seen w₁).1) same
          (remove_missing_lem i seen w₁))

  -- Over a hash that is never empty, with at least one watched path, and whatever was indexed
  -- before: after a scan that goes through, no file has changed, every Markdown file below a
  -- watched path has an entry that holds the hash of the file's present text, and no other path has
  -- an entry.
  pub scan_once-Mirrors :
      (i : Indexer) (w : World)
      → HasDigits sha
      → i.watch ≢ []
      → let (r, w') = scan_once (some i) w in Mirrors i w r w'
  unfolding scan_once
  scan_once-Mirrors i w digits watching = elim (Bool-cases (is_empty i.watch)) [
    | inl none_watched ↦ absurd (watching (empty_nil i.watch none_watched))
    | inr some_watched ↦ rw some_watched (
        after_scan i (scan_roots i [] i.watch w).0 w (scan_roots i [] i.watch w).1
          (scan_roots_lem i i.watch [] w digits tt))
  ]
