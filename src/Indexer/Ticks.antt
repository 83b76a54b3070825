-- ===== src/Indexer/Ticks.antt =====
-- internal/indexer/indexer.go: the goroutine of `Start`, scan by scan.
use mouse.Effects.{Closed, log-Keeps}
use mouse.Host.{Env, World}
use mouse.Host.Action.{log}
use mouse.Indexer.Scan.{Hashing, Indexer, scan_once}
use mouse.Indexer.Scan.Kept.{IsTold, scan-Keeps}
use mouse.Prelude.{codes, err, ok, some, [], ◌∷◌, Option, Result, Text}
use mouse.Strings.{Unicode}

-- An error of a scan is a warning, if there is a logger.
warn_scan : Option Text → Result (Unit {0}) → World → World
warn_scan logger (ok done) w = w
warn_scan logger (err e) w =
    (log logger (codes "warn") (codes "index scan failed") ((codes "error", e) ∷ []) w).1

module _ ⦃u : Unicode⦄ ⦃env : Env⦄ ⦃sha : Hashing⦄ where
  -- The scan before the ticker: its error is dropped.
  unfoldable pub first_scan : Indexer → World → World
  first_scan i w = (scan_once (some i) w).1

  -- The scan of a tick.
  unfoldable pub tick_scan : Indexer → World → World
  unfolding warn_scan
  tick_scan i w = let (r, w') = scan_once (some i) w in warn_scan i.logger r w'

module _ {ι} {I : World → Type ι} ⦃u : Unicode⦄ ⦃env : Env⦄ ⦃sha : Hashing⦄
    (c : Closed IsTold I) where
  warn_scan-after :
      (logger : Option Text) (r : Result (Unit {0})) (w : World) → I w → I (warn_scan logger r w)
  unfolding warn_scan
  warn_scan-after logger (ok done) w h = h
  warn_scan-after logger (err e) w h = (log-Keeps c logger _ _ _).after w h

  pub first_scan-after : (i : Indexer) (w : World) → I w → I (first_scan i w)
  unfolding first_scan
  first_scan-after i w h = (scan-Keeps c (some i)).after w h

  pub tick_scan-after : (i : Indexer) (w : World) → I w → I (tick_scan i w)
  unfolding tick_scan
  tick_scan-after i w h = warn_scan-after i.logger _ _ ((scan-Keeps c (some i)).after w h)
