-- ===== src/Indexer/Scan/Files.antt =====
-- Which files a scan sees.
use mouse.Indexer.Scan.{is_below, is_markdown, walked, walk_before}
use mouse.Strings.{trim_space, Unicode}
use mouse.Prelude.Dict.{has, Dict, lookup}
use mouse.Prelude.{
  refl, text_eq_iff, ◌||◌, text_eq, arith, ◌∙◌, ◌∷◌, if◌then◌else◌, any, filter, not, [], ◌&&◌, ◌≡◌,
  map, List, Bool, Text,
}
use mouse.Prelude.Sort.{any-sort_by}

-- `_, ok := seen[path]`
abbrev pub is_seen : Text → List Text → Bool
is_seen q seen = any (text_eq q) seen

is_seen-filter :
    (f : Text → Bool) (q : Text) (xs : List Text) → is_seen q (filter f xs) ≡ (f q && is_seen q xs)
is_seen-filter f q [] = ground arith
is_seen-filter f q (x ∷ xs) = ground (arith, is_seen-filter f q xs, text_eq_iff q x)

is_seen-keys : (q : Text) (files : Dict Text) → is_seen q (map (λ f. f.0) files) ≡ has q files
unfolding lookup
is_seen-keys q [] = refl
is_seen-keys q ((j, v) ∷ files) =
    ground (arith, is_seen-keys q files, text_eq_iff q j, text_eq_iff j q)

-- The walk finds the files below the root, and nothing else.
pub is_seen-walked :
    (root q : Text) (files : Dict Text)
    → is_seen q (walked root files) ≡ (is_below root q && has q files)
unfolding walked
is_seen-walked root q files =
    any-sort_by (text_eq q) walk_before (filter (is_below root) (map (λ f. f.0) files))
    ∙ is_seen-filter (is_below root) q (map (λ f. f.0) files)
    ∙ rw (is_seen-keys q files)

module _ ⦃u : Unicode⦄ where
  -- What a walk over these paths adds to `seen`.
  abbrev pub collect : List Text → List Text → List Text
  collect seen [] = seen
  collect seen (path ∷ paths) = collect (if is_markdown path then path ∷ seen else seen) paths

  abbrev pub collect_root : Dict Text → List Text → Text → List Text
  collect_root files seen watched =
      if text_eq (trim_space watched) []
      then seen
      else collect seen (walked (trim_space watched) files)

  abbrev pub collect_roots : Dict Text → List Text → List Text → List Text
  collect_roots files seen [] = seen
  collect_roots files seen (root ∷ roots) = collect_roots files (collect_root files seen root) roots

  -- A watched path has this file below it.
  abbrev pub watches : Text → Text → Bool
  watches q watched = not (text_eq (trim_space watched) []) && is_below (trim_space watched) q

  -- The files that belong into the index: Markdown files below a watched path.
  abbrev pub belongs : List Text → Dict Text → Text → Bool
  belongs watch files q = is_markdown q && has q files && any (watches q) watch

  is_seen-collect :
      (q : Text) (seen paths : List Text)
      → is_seen q (collect seen paths) ≡ (is_seen q seen || (is_markdown q && is_seen q paths))
  is_seen-collect q seen [] = ground arith
  is_seen-collect q seen (path ∷ paths) =
      is_seen-collect q (if is_markdown path then path ∷ seen else seen) paths
      ∙ ground (arith, text_eq_iff q path)

  is_seen-collect_root :
      (q : Text) (files : Dict Text) (seen : List Text) (watched : Text)
      → is_seen q (collect_root files seen watched)
        ≡ (is_seen q seen || (is_markdown q && has q files && watches q watched))
  is_seen-collect_root q files seen watched = ground (
    arith,
    is_seen-collect q seen (walked (trim_space watched) files),
    is_seen-walked (trim_space watched) q files,
  )

  is_seen-collect_roots :
      (q : Text) (files : Dict Text) (seen watch : List Text)
      → is_seen q (collect_roots files seen watch)
        ≡ (is_seen q seen || (is_markdown q && has q files && any (watches q) watch))
  is_seen-collect_roots q files seen [] = ground arith
  is_seen-collect_roots q files seen (watched ∷ watch) =
      is_seen-collect_roots q files (collect_root files seen watched) watch
      ∙ ground (arith, is_seen-collect_root q files seen watched)

  -- What a scan has seen in the end is what belongs into the index.
  pub is_seen-belongs :
      (q : Text) (files : Dict Text) (watch : List Text)
      → is_seen q (collect_roots files [] watch) ≡ belongs watch files q
  is_seen-belongs q files watch = is_seen-collect_roots q files [] watch ∙ ground arith
