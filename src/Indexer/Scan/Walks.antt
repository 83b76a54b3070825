-- ===== src/Indexer/Scan/Walks.antt =====
-- What a walk over the watched files leaves in the index.
use mouse.Indexer.Scan.{
  index_file, Indexer, Hashing, visit, walk, scan_root, scan_roots, walked, is_markdown,
}
use mouse.Indexer.Scan.Entries.{
  entry_path, IsFresh-frame, IsFresh, IsIndexed, HasDigits, find_entry,
}
use mouse.Indexer.Scan.Indexing.{index_file-IsIndexed}
use mouse.Indexer.Scan.Files.{collect, collect_root, collect_roots}
use mouse.Strings.{trim_space, Unicode}
use mouse.Host.{World, Env}
use mouse.Prelude.{
  ◌++◌, sym, codes, ap, refl, inr, false, text_eq_iff, inl, true, text_eq, arith, Bool-cases, ◌∙◌,
  err, if◌then◌else◌, [], All, Bool, ◌∷◌, ◌≡◌, ok, Result, List, Text,
}
use mouse.Host.Action.{IfOk, wrapped, ◌>>◌, pure, Action, perform, continue}
use mathlib.Core.Path.{subst}
use mouse.Telegram.Sender.Retry.{succeeds}
use mouse.Host.Rows.{Tables}
use mouse.Sqlite.Keyed.{find}

module _ ⦃u : Unicode⦄ ⦃env : Env⦄ ⦃sha : Hashing⦄ where
  -- Every path on this list has a fresh entry.
  abbrev pub AllFresh : List Text → World → Type 0
  AllFresh seen w = All (λ p. IsFresh p w) seen

  IsFresh-again :
      (p path : Text) (w w' : World) (done : Bool)
      → IsIndexed path w w' done
      → IsFresh p w
      → path ≡ p
      → IsFresh p w'
  IsFresh-again p path w w' true x f same = subst (λ q. IsFresh q w') same x.outcome
  IsFresh-again p path w w' false x f same =
      IsFresh-frame p w w' x.files (subst (λ q. find_entry q w' ≡ find_entry q w) same x.outcome) f

  -- A fresh entry stays fresh when a file is indexed, that of the entry or another.
  IsFresh-indexed :
      (p path : Text) (w w' : World) (done : Bool)
      → IsIndexed path w w' done
      → IsFresh p w
      → IsFresh p w'
  IsFresh-indexed p path w w' done x f = elim (Bool-cases (text_eq path p)) [
    | inl same ↦ IsFresh-again p path w w' done x f ((text_eq_iff path p).0 same)
    | inr other ↦ IsFresh-frame p w w' x.files (x.others p (λ e. cc ((text_eq_iff path p).1 e))) f
  ]

  pub AllFresh-frame :
      (seen : List Text) (w w' : World)
      → ((p : Text) → IsFresh p w → IsFresh p w')
      → AllFresh seen w
      → AllFresh seen w'
  AllFresh-frame [] w w' k h = tt
  AllFresh-frame (p ∷ seen) w w' k (f, h) = (k p f, AllFresh-frame seen w w' k h)

  -- What a part of the scan that goes through leaves; `found` is what `seen` then is.
  abbrev pub Scanned : List Text → World → Result (List Text) → World → Type 0
  Scanned found w (ok seen) w' = (w'.files ≡ w.files) × (seen ≡ found) × AllFresh seen w'
  Scanned found w (err e) w' = Unit

  Scanned-from :
      (found : List Text) (w w₁ : World) (r : Result (List Text)) (w' : World)
      → w₁.files ≡ w.files
      → Scanned found w₁ r w'
      → Scanned found w r w'
  Scanned-from found w w₁ (ok seen) w' files (f, s, h) = (f ∙ files, s, h)
  Scanned-from found w w₁ (err e) w' files h = tt

  Scanned-bind :
      (found : List Text) (P : Type 0) (r : Result (Unit {0})) (m : Action (List Text))
      (w w₁ : World)
      → w₁.files ≡ w.files
      → IfOk P r
      → (P → Scanned found w₁ (m w₁).0 (m w₁).1)
      → let (r', w') = continue {0, 0} r (λ _. m) w₁ in Scanned found w r' w'
  Scanned-bind found P (err e) m w w₁ files h k = tt
  Scanned-bind found P (ok _) m w w₁ files h k =
      Scanned-from found w w₁ (m w₁).0 (m w₁).1 files (k h)

  visited :
      (i : Indexer) (path : Text) (seen : List Text) (w : World) (r : Result (Unit {0}))
      (w' : World)
      → IsIndexed path w w' (succeeds r)
      → AllFresh seen w
      → (w'.files ≡ w.files) × IfOk (AllFresh (path ∷ seen) w') r
  visited i path seen w (ok _) w' x h = (
    x.files,
    (x.outcome, AllFresh-frame seen w w' (λ p f. IsFresh-indexed p path w w' true x f) h),
  )
  visited i path seen w (err e) w' x h = (x.files, tt)

  visit_lem :
      (i : Indexer) (path : Text) (seen : List Text) (w : World)
      → HasDigits sha
      → AllFresh seen w
      → let (r, w') = visit i path w in
        (w'.files ≡ w.files) × IfOk (AllFresh (if is_markdown path then path ∷ seen else seen) w') r
  unfolding visit
  visit_lem i path seen w digits h = elim (Bool-cases (is_markdown path)) [
    | inl kept ↦ rw kept (
        visited i path seen w (index_file i path w).0 (index_file i path w).1
          (index_file-IsIndexed i path w digits) h)
    | inr skipped ↦ rw skipped (refl, h)
  ]

  pub AllFresh-same :
      (seen : List Text) (w w' : World)
      → w'.files ≡ w.files
      → w'.db ≡ w.db
      → AllFresh seen w
      → AllFresh seen w'
  AllFresh-same seen w w' files same = AllFresh-frame seen w w' (λ p f.
      IsFresh-frame p w w' files (ap (λ (t : Tables). find entry_path p t.index_entries) same) f)

  -- The walk reads on in its directories.
  reads_on : (w : World) → let (r, w') = perform (λ w. w) w in (w'.files ≡ w.files) × (w'.db ≡ w.db)
  reads_on w = ground arith

  ok_unit : (r : Result (Unit {0})) → IfOk (Unit {0}) r
  ok_unit (ok _) = tt
  ok_unit (err e) = tt

  walk_lem :
      (i : Indexer) (paths seen : List Text) (w : World)
      → HasDigits sha
      → AllFresh seen w
      → Scanned (collect seen paths) w (walk i seen paths w).0 (walk i seen paths w).1
  unfolding walk
  walk_lem i [] seen w digits h =
      let (r, w₁) = perform (λ w. w) w in
      let (files, same) = reads_on w in
      Scanned-bind seen (Unit {0}) r (pure seen) w w₁ files (ok_unit r)
        (λ _. (refl, refl, AllFresh-same seen w w₁ files same h))
  walk_lem i (path ∷ paths) seen w digits h =
      let (r, w₁) = perform (λ w. w) w in
      let (files, same) = reads_on w in
      let found = collect seen (path ∷ paths) in
      let seen₂ = if is_markdown path then path ∷ seen else seen in
      let rest = walk i seen₂ paths in
      let (r₂, w₂) = visit i path w₁ in
      let (files₂, fresh) =
        visit_lem i path seen w₁ digits (AllFresh-same seen w w₁ files same h) in
      Scanned-bind found (Unit {0}) r (visit i path >> rest) w w₁ files (ok_unit r) (λ _.
        Scanned-bind found (AllFresh seen₂ w₂) r₂ rest w₁ w₂ files₂ fresh
          (λ h₂. walk_lem i paths seen₂ w₂ digits h₂))

  wrapped-Scanned :
      (found : List Text) (prefix : Text) (r : Result (List Text)) (w w' : World)
      → Scanned found w r w'
      → Scanned found w (wrapped prefix r) w'
  wrapped-Scanned found prefix (ok seen) w w' h = h
  wrapped-Scanned found prefix (err e) w w' h = tt

  scan_root_lem :
      (i : Indexer) (watched : Text) (seen : List Text) (w : World)
      → HasDigits sha
      → AllFresh seen w
      → let (r, w') = scan_root i seen watched w in
        Scanned (collect_root w.files seen watched) w r w'
  unfolding scan_root
  scan_root_lem i watched seen w digits h = elim (Bool-cases (text_eq (trim_space watched) [])) [
    | inl blank ↦ rw blank (refl, refl, h)
    | inr named ↦ rw named (
        wrapped-Scanned _ (codes "indexer: walk " ++ (trim_space watched ++ codes ": "))
          (walk i seen (walked (trim_space watched) w.files) w).0 w _
          (walk_lem i (walked (trim_space watched) w.files) seen w digits h))
  ]

  after_root :
      (i : Indexer) (roots found : List Text) (r : Result (List Text)) (w w₁ : World)
      → Scanned found w r w₁
      → (AllFresh found w₁
          → Scanned
              (collect_roots w₁.files found roots)
              w₁
              (scan_roots i found roots w₁).0
              (scan_roots i found roots w₁).1)
      → let (r', w') = continue {0, 0} r (λ seen. scan_roots i seen roots) w₁ in
        Scanned (collect_roots w.files found roots) w r' w'
  after_root i roots found (err e) w w₁ h k = tt
  after_root i roots found (ok seen) w w₁ (files, same, h) k =
      subst
        (λ s.
          Scanned (collect_roots w.files found roots) w (scan_roots i s roots w₁).0
            (scan_roots i s roots w₁).1)
        (sym same)
        (Scanned-from (collect_roots w.files found roots) w w₁ _ _ files (
          subst
            (λ f.
              Scanned (collect_roots f found roots) w₁ (scan_roots i found roots w₁).0
                (scan_roots i found roots w₁).1)
            files (k (subst (λ s. AllFresh s w₁) same h))))

  pub scan_roots_lem :
      (i : Indexer) (roots seen : List Text) (w : World)
      → HasDigits sha
      → AllFresh seen w
      → let (r, w') = scan_roots i seen roots w in Scanned (collect_roots w.files seen roots) w r w'
  unfolding scan_roots
  scan_roots_lem i [] seen w digits h = (refl, refl, h)
  scan_roots_lem i (root ∷ roots) seen w digits h =
      after_root i roots (collect_root w.files seen root) _ w _
        (scan_root_lem i root seen w digits h)
        (λ h₂. scan_roots_lem i roots (collect_root w.files seen root) _ digits h₂)
