-- ===== src/Indexer/Scan/Removal.antt =====
-- Which entries a scan removes.
use mouse.Indexer.Scan.{Indexer, Hashing, remove_path, remove_paths, remove_missing}
use mouse.Indexer.Scan.Entries.{find_entry, entry_path}
use mouse.Indexer.Scan.Files.{is_seen}
use mouse.Sqlite.Index.{delete_index_entry, list_index_paths}
use mouse.Strings.{Unicode}
use mouse.Prelude.{
  text_eq_iff, map, refl, ◌∙◌, some, inr, ap, codes, inl, true, false, text_eq, any, Bool-cases,
  none, not, ◌&&◌, [], arith, ◌∷◌, err, if◌then◌else◌, ok, ◌≡◌, Result, Option, Text, List,
}
use mouse.Host.{World, Env}
use mouse.Sqlite.Base.{open_db, nil_db, Db}
use mouse.Host.Rows.{Tables, IndexEntry}
use mouse.Sqlite.Keyed.{find-delete, find, delete}
use mouse.Prelude.Dict.{Dict}
use mouse.Host.Action.{IfOk, log, continue}

-- The entry of `q` once these paths were looked at.
abbrev left : List Text → List Text → Text → World → Option IndexEntry
left seen paths q w = if is_seen q paths && not (is_seen q seen) then none else find_entry q w

same_seen :
    (q path : Text) (seen : List Text)
    → text_eq q path ≡ true
    → any (text_eq q) seen ≡ any (text_eq path) seen
same_seen q path seen h = ap (λ p. any (text_eq p) seen) ((text_eq_iff q path).0 h)

module _ ⦃u : Unicode⦄ ⦃env : Env⦄ ⦃sha : Hashing⦄ where
  -- What a removal that goes through leaves.
  abbrev pub Removed : List Text → List Text → World → Result (Unit {0}) → World → Type 0
  Removed seen paths w (ok _) w' =
      (w'.files ≡ w.files) × ((q : Text) → find_entry q w' ≡ left seen paths q w)
  Removed seen paths w (err e) w' = Unit

  Removed-cons :
      (seen paths : List Text) (path : Text) (w w₁ : World) (r : Result (Unit {0})) (w' : World)
      → w₁.files ≡ w.files
      → ((q : Text) → find_entry q w₁ ≡ left seen (path ∷ []) q w)
      → Removed seen paths w₁ r w'
      → Removed seen (path ∷ paths) w r w'
  Removed-cons seen paths path w w₁ (err e) w' files one h = tt
  Removed-cons seen paths path w w₁ (ok _) w' files one (files₂, rest) =
      (files₂ ∙ files, λ q. rest q ∙ ground (arith, one q))

  delete_lem :
      (d : Db) (path : Text) (w : World)
      → let (r, w') = delete_index_entry d path w in
        IfOk
          ((w'.files ≡ w.files) × (w'.db.index_entries ≡ delete entry_path path w.db.index_entries))
          r
  unfolding delete_index_entry
  delete_lem nil_db path w = tt
  delete_lem open_db path w = ground arith

  gone :
      (seen : List Text) (path : Text) (w w' : World)
      → any (text_eq path) seen ≡ false
      → w'.db.index_entries ≡ delete entry_path path w.db.index_entries
      → (q : Text) → find_entry q w' ≡ left seen (path ∷ []) q w
  gone seen path w w' unseen same q =
      ap (find entry_path q) same
      ∙ find-delete entry_path path q w.db.index_entries
      ∙ ground (arith, unseen, same_seen q path seen, text_eq_iff q path, text_eq_iff path q)

  kept :
      (seen : List Text) (path : Text) (w : World)
      → any (text_eq path) seen ≡ true
      → (q : Text) → find_entry q w ≡ left seen (path ∷ []) q w
  kept seen path w there q = ground (arith, there, same_seen q path seen)

  after_delete :
      (logger : Option Text) (message : Text) (about : Dict Text) (seen : List Text) (path : Text)
      (r : Result (Unit {0})) (w w₁ : World)
      → any (text_eq path) seen ≡ false
      → IfOk
          ((w₁.files ≡ w.files) × (w₁.db.index_entries ≡ delete entry_path path w.db.index_entries))
          r
      → let (r', w') = continue {0, 0} r (λ _. log logger (codes "info") message about) w₁ in
        IfOk ((w'.files ≡ w.files) × ((q : Text) → find_entry q w' ≡ left seen (path ∷ []) q w)) r'
  after_delete logger message about seen path (err e) w w₁ unseen h = tt
  after_delete none message about seen path (ok _) w w₁ unseen (files, same) =
      (files, gone seen path w w₁ unseen same)
  after_delete (some service) message about seen path (ok _) w w₁ unseen (files, same) =
      (files, gone seen path w w₁ unseen same)

  remove_path_lem :
      (i : Indexer) (seen : List Text) (path : Text) (w : World)
      → let (r, w') = remove_path i seen path w in
        IfOk ((w'.files ≡ w.files) × ((q : Text) → find_entry q w' ≡ left seen (path ∷ []) q w)) r
  unfolding remove_path
  remove_path_lem i seen path w = elim (Bool-cases (any (text_eq path) seen)) [
    | inl there ↦ rw there (refl, kept seen path w there)
    | inr unseen ↦ rw unseen (
        after_delete i.logger (codes "removed index entry") ((codes "path", path) ∷ []) seen path
          (delete_index_entry i.db path w).0 w (delete_index_entry i.db path w).1 unseen
          (delete_lem i.db path w))
  ]

  after_one :
      (i : Indexer) (seen paths : List Text) (path : Text) (r : Result (Unit {0})) (w w₁ : World)
      → IfOk ((w₁.files ≡ w.files) × ((q : Text) → find_entry q w₁ ≡ left seen (path ∷ []) q w)) r
      → Removed seen paths w₁ (remove_paths i seen paths w₁).0 (remove_paths i seen paths w₁).1
      → let (r', w') = continue {0, 0} r (λ _. remove_paths i seen paths) w₁ in
        Removed seen (path ∷ paths) w r' w'
  after_one i seen paths path (err e) w w₁ h k = tt
  after_one i seen paths path (ok _) w w₁ (files, one) k =
      Removed-cons seen paths path w w₁ _ _ files one k

  remove_paths_lem :
      (i : Indexer) (seen paths : List Text) (w : World)
      → let (r, w') = remove_paths i seen paths w in Removed seen paths w r w'
  unfolding remove_paths
  remove_paths_lem i seen [] w = (refl, λ q. refl)
  remove_paths_lem i seen (path ∷ paths) w =
      after_one i seen paths path _ w _ (remove_path_lem i seen path w)
        (remove_paths_lem i seen paths _)

  -- The list holds the path of every entry.
  listed :
      (q : Text) (es : List IndexEntry)
      → is_seen q (map entry_path es) ≡ false
      → find entry_path q es ≡ none
  unfolding find
  listed q [] h = refl
  listed q (e ∷ es) h = ground (arith, listed q es, text_eq_iff q e.path, text_eq_iff e.path q)

  abbrev AsList : World → Result (List Text) → Type 0
  AsList w (ok paths) = paths ≡ map entry_path w.db.index_entries
  AsList w (err e) = Unit

  list_lem :
      (d : Db) (w : World)
      → let (r, w') = list_index_paths d w in (w'.files ≡ w.files) × (w'.db ≡ w.db) × AsList w r
  unfolding list_index_paths
  list_lem nil_db w = (refl, refl, tt)
  list_lem open_db w = ground arith

  -- After a removal that goes through, the entries are those whose file was seen.
  abbrev pub Kept : List Text → World → Result (Unit {0}) → World → Type 0
  Kept seen w (ok _) w' =
      (w'.files ≡ w.files)
      × ((q : Text) → find_entry q w' ≡ (if is_seen q seen then find_entry q w else none))
  Kept seen w (err e) w' = Unit

  Kept-Removed :
      (seen paths : List Text) (w w₁ : World) (r : Result (Unit {0})) (w' : World)
      → w₁.files ≡ w.files
      → w₁.db ≡ w.db
      → paths ≡ map entry_path w.db.index_entries
      → Removed seen paths w₁ r w'
      → Kept seen w r w'
  Kept-Removed seen paths w w₁ (err e) w' files same all_paths h = tt
  Kept-Removed seen paths w w₁ (ok _) w' files same all_paths (files₂, h) = (
    files₂ ∙ files,
    λ q.
        let before : find_entry q w₁ ≡ find_entry q w =
          ap (λ (t : Tables). find entry_path q t.index_entries) same in
        let unlisted = listed q w.db.index_entries in
        let here : is_seen q paths ≡ is_seen q (map entry_path w.db.index_entries) =
          ap (is_seen q) all_paths in
        h q ∙ ground (arith, before, unlisted, here),
  )

  after_list :
      (i : Indexer) (seen : List Text) (r : Result (List Text)) (w w₁ : World)
      → w₁.files ≡ w.files
      → w₁.db ≡ w.db
      → AsList w r
      → let (r', w') = continue {0, 0} r (λ paths. remove_paths i seen paths) w₁ in
        Kept seen w r' w'
  after_list i seen (err e) w w₁ files same h = tt
  after_list i seen (ok paths) w w₁ files same h =
      Kept-Removed seen paths w w₁ _ _ files same h (remove_paths_lem i seen paths w₁)

  pub remove_missing_lem :
      (i : Indexer) (seen : List Text) (w : World)
      → let (r, w') = remove_missing i seen w in Kept seen w r w'
  unfolding remove_missing
  remove_missing_lem i seen w =
      let (files, same, all_paths) = list_lem i.db w in after_list i seen _ w _ files same all_paths
