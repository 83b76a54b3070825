-- ===== src/Sqlite/Opening.antt =====
-- internal/sqlite/sqlite.go: `Open`, `Close` and `migrate`.
pub mod Kept
use mouse.Sqlite.Base.{Db, nil_db, open_db}
use mouse.Host.{Env}
use mouse.Prelude.{zero, codes, suc, if◌then◌else◌, Text, ℕ}
use mouse.Strings.{is_blank}
use mouse.Host.Action.{wrap, ◌>>◌, fail, perform, pure, Action}

-- The number of statements in `migrate`.
abbrev migrations : ℕ
migrations = 7

module _ ⦃env : Env⦄ where
  -- The loop of `migrate`: every statement leaves what is there, for it creates a table only if there
  -- is none, and the tables of the world are always there.
  run_statements : ℕ → Action (Unit {0})
  run_statements zero = pure tt
  run_statements (suc n) = do wrap (codes "sqlite: migrate: ") (perform (λ w. w)); run_statements n

  -- `migrate`
  migrate : Action (Unit {0})
  unfolding run_statements
  migrate = run_statements migrations

  -- `Open`
  unfoldable pub open_file : Text → Action Db
  unfolding migrate is_blank
  open_file path = if is_blank path then fail (codes "sqlite: path is required") else (do
    wrap (codes "sqlite: create dir: ") (perform (λ w. w))
    wrap (codes "sqlite: open: ") (perform (λ w. w))
    migrate
    pure open_db)

  -- `Close`
  unfoldable pub close : Db → Action (Unit {0})
  close nil_db = pure tt
  close open_db = perform (λ w. w)
