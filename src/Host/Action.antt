-- ===== src/Host/Action.antt =====
-- Actions on the world that may fail, and the calls that they are made of.
use mouse.Prelude.{ℕ, ◌≡◌, sym, ◌+◌, Option, none, some, [], ◌∷◌, ◌++◌, Text, Result, ok, err}
use mouse.Host.{Exit, List, Dict, Env, World, Reply, Request}

abbrev pub Action {ℓ} : Type ℓ → Type ℓ
Action A = World → Result A × World

module _ {ℓ} {A : Type ℓ} where
  abbrev pub pure : A → Action A
  pure a w = (ok a, w)

  abbrev pub fail : Text → Action A
  fail e w = (err e, w)

  -- The failures of `m`, with `fmt.Errorf("prefix%w", err)` around them.
  abbrev pub wrapped : Text → Result A → Result A
  wrapped prefix (ok a) = ok a
  wrapped prefix (err e) = err (prefix ++ e)

  abbrev pub wrap : Text → Action A → Action A
  wrap prefix m w = let (r, w') = m w in (wrapped prefix r, w')

module _ {ℓ κ} {A : Type ℓ} {B : Type κ} where
  abbrev pub continue : Result A → (A → Action B) → Action B
  continue (ok a) f w = f a w
  continue (err e) f w = (err e, w)

  infixl 5 ◌>>=◌
  abbrev pub ◌>>=◌ : Action A → (A → Action B) → Action B
  ◌>>=◌ m f w = let (r, w') = m w in continue r f w'

infixl 5 ◌>>◌
abbrev pub ◌>>◌ {ℓ κ} : {A : Type ℓ} {B : Type κ} → Action A → Action B → Action B
m >> n = m >>= λ _. n

abbrev pub count_call : World → World
count_call w = record w { calls = w.calls + 1 }

-- A call that does something to the world if it does not fail.
abbrev pub attempt : Option Text → (World → World) → Action (Unit {0})
attempt none effect w = (ok tt, effect (count_call w))
attempt (some e) effect w = (err e, count_call w)

abbrev pub perform : ⦃env : Env⦄ → (World → World) → Action (Unit {0})
perform ⦃env⦄ effect w = attempt (env.fault w.calls) effect w

-- A call that changes the world and returns a value.
abbrev pub update {ℓ} : {A : Type ℓ} ⦃env : Env⦄ → (World → A) → (World → World) → Action A
update ⦃env⦄ read effect w = elim (env.fault w.calls) [
  | none ↦ (ok (read w), effect (count_call w))
  | some e ↦ (err e, count_call w)
]

-- A call that reads.
abbrev pub query {ℓ} : {A : Type ℓ} ⦃env : Env⦄ → (World → A) → Action A
query ⦃env⦄ read w = elim (env.fault w.calls) [
  | none ↦ (ok (read w), count_call w)
  | some e ↦ (err e, count_call w)
]

-- `time.Now().UTC().Format(time.RFC3339Nano)`
abbrev pub timestamp : ⦃env : Env⦄ → Action Text
timestamp ⦃env⦄ w = (ok (env.format_time (env.now w.calls)), count_call w)

-- `Client.Do` and the reading of its body
abbrev pub post : ⦃env : Env⦄ → Request → Action Reply
post ⦃env⦄ r w = (ok (env.reply w.calls), count_call (record w { requests = w.requests ++ r ∷ [] }))

-- `exec.Cmd.Run`
abbrev pub start_process : ⦃env : Env⦄ → List Text → Action Exit
start_process ⦃env⦄ command w =
    (ok (env.exit w.calls), count_call (record w { commands = w.commands ++ command ∷ [] }))

-- `time.Now()`
abbrev pub read_clock : ⦃env : Env⦄ → Action ℕ
read_clock ⦃env⦄ w = (ok (env.now w.calls), count_call w)

-- `logger.Info(message, fields)` and so for the other levels; a nil logger writes nothing. The time
-- of a line and the failures of its writing are not seen by the program, and are left out.
abbrev pub log : Option Text → Text → Text → Dict Text → Action (Unit {0})
log none level message entry_fields w = (ok tt, w)
log (some service) level message entry_fields w = (
  ok tt,
  record w {
    log =
        w.log
        ++ (record {
          level = level;
          service = service;
          message = message;
          log_fields = entry_fields;
        }
            ∷ []);
  },
)

-- What a handler does with an error: it goes on, with the result in hand.
abbrev pub try {ℓ} : {A : Type ℓ} → Action A → Action (Result A)
try m w = let (r, w') = m w in (ok r, w')

-- No call of the system or of the SQL engine fails.
abbrev pub quiet : Env → Env
quiet env = record env { fault = λ k. none }

abbrev pub IsQuiet : Env → Type 0
IsQuiet env = (k : ℕ) → env.fault k ≡ none

pub IsQuiet-quiet : (env : Env) → IsQuiet env → quiet env ≡ env
IsQuiet-quiet env h = λ i. record env { fault = λ k. sym (h k) i }

-- What holds if an action went through.
abbrev pub IfOk {ℓ κ} : {A : Type ℓ} → Type κ → Result A → Type κ
IfOk P (ok _) = P
IfOk P (err e) = Unit

pub IfOk-map {ℓ κ μ} :
    {A : Type ℓ} {P : Type κ} {Q : Type μ} (r : Result A) → (P → Q) → IfOk P r → IfOk Q r
IfOk-map (ok _) f h = f h
IfOk-map (err e) f h = tt
