-- ===== src/Sqlite/Base.antt =====
-- internal/sqlite/sqlite.go: the handle of the database, and the guards of its methods.
use mouse.Prelude.{ℕ, Bool, true, false, ◌||◌, ◌&&◌, [], ◌∷◌, Text, codes, ltb, ◌==◌, if◌then◌else◌}
use mouse.Prelude.Int.{ℤ, pos, negsuc}
use mouse.Strings.{is_blank}
use mouse.Host.{World}
use mouse.Host.Rows.{Tables}
use mouse.Host.Action.{Action, fail}

-- A `*Db`: nil, or opened.
pub data Db : Type 0 where
  nil_db open_db : Db

-- What a statement writes to the tables.
abbrev pub change_db : (Tables → Tables) → World → World
change_db change w = record w { db = change w.db }

-- `limit <= 0` gives the default.
unfoldable pub or_default : ℕ → ℤ → ℕ
or_default default (pos n) = if n == 0 then default else n
or_default default (negsuc n) = default

-- Texts in the order of their bytes.
unfoldable pub text_ltb : Text → Text → Bool
text_ltb [] [] = false
text_ltb [] (d ∷ ds) = true
text_ltb (c ∷ cs) [] = false
text_ltb (c ∷ cs) (d ∷ ds) = ltb c d || (c == d && text_ltb cs ds)

-- The two guards in front of every method with a key.
unfoldable pub guarded {ℓ} : {A : Type ℓ} → Db → Text → Text → Action A → Action A
unfolding is_blank
guarded nil_db key message body = fail (codes "sqlite: db not initialized")
guarded open_db key message body = if is_blank key then fail message else body
