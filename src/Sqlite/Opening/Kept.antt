-- ===== src/Sqlite/Opening/Kept.antt =====
-- internal/sqlite/sqlite.go: what the opening of the database keeps.
use mouse.Host.Rows.{IndexEntry}
use mouse.Host.{Env, World}
use mouse.Effects.{read_on-Keeps, Closed}
use mouse.Sqlite.Opening.{migrations, migrate, run_statements, open_file}
use mouse.Prelude.{zero, codes, suc, Text, ℕ}
use mouse.Host.Keeps.{wrap-Keeps, bind-Keeps, if-Keeps, pure-Keeps, Keeps}
use mouse.Strings.{is_blank}

module _ {ι} {Told : IndexEntry → Type 0} {I : World → Type ι} (c : Closed Told I) ⦃env : Env⦄ where
  run_statements-Keeps : (n : ℕ) → Keeps I (run_statements n)
  unfolding run_statements
  run_statements-Keeps zero = pure-Keeps _
  run_statements-Keeps (suc n) =
      bind-Keeps _ _ (wrap-Keeps (codes "sqlite: migrate: ") _ (read_on-Keeps c))
        λ _. run_statements-Keeps n

  pub open_file-Keeps : (path : Text) → Keeps I (open_file path)
  unfolding open_file migrate
  open_file-Keeps path = if-Keeps (is_blank path) _ _ (pure-Keeps _) (
      bind-Keeps _ _ (wrap-Keeps (codes "sqlite: create dir: ") _ (read_on-Keeps c)) λ _.
        bind-Keeps _ _ (wrap-Keeps (codes "sqlite: open: ") _ (read_on-Keeps c))
          λ _. bind-Keeps _ _ (run_statements-Keeps migrations) λ _. pure-Keeps _)
