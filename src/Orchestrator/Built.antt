-- ===== src/Orchestrator/Built.antt =====
-- internal/orchestrator/orchestrator.go: what `New` makes of a configuration.
use mouse.Orchestrator.{llm_config, Orchestrator, new, with_store, with_db, with_sender}
use mouse.Llm
use mouse.Config.{Config}
use mouse.Host.Yields.{IfOk}
use mouse.Strings.{is_blank, Unicode}
use mouse.Host.{World, Env}
use mouse.Telegram.Sender.{Sender, new_sender}
use mouse.Llm.{Client}
use mouse.Sessions.{Store, new_store}
use mouse.Sqlite.Base.{nil_db, open_db, Db}
use mouse.Prelude.{
  refl, inr, inl, ok, codes, err, Bool-cases, some, List, Result, ◌≡◌, Option, Text,
}
use mouse.Host.Yields.{then-Yields, Yields}

module _ ⦃u : Unicode⦄ ⦃env : Env⦄ where
  -- An orchestrator with the settings of a configuration: its session directory, its model, the
  -- open database, and a sender with its bot token and its list of allowed users.
  abbrev pub AsConfigured : Config → Option Text → Orchestrator → Type 0
  AsConfigured cfg logger o = o ≡ record {
    sessions = record { dir = cfg.sessions.dir };
    llm =
        (Llm.new
          (record {
            provider = cfg.llm.provider;
            api_key = cfg.llm.api_key;
            model = cfg.llm.model;
            max_tokens = cfg.llm.max_tokens;
          })
          (some (codes "llm"))).0;
    db = open_db;
    sender = some (record {
      bot_token = cfg.telegram.bot_token;
      allow_from = cfg.telegram.allow_from;
      logger = some (codes "telegram-outbound");
    });
    logger = logger;
  }

  new_store_lem : (dir : Text) → IfOk (λ s. s ≡ record { dir = dir }) (new_store dir)
  unfolding new_store
  new_store_lem dir = elim (Bool-cases (is_blank dir)) [
    | inl blank ↦ rw blank tt
    | inr named ↦ rw named refl
  ]

  new_sender_lem :
      (bot_token : Text) (allow_from : List Text) (logger : Option Text)
      → IfOk
          (λ s. s ≡ record { bot_token = bot_token; allow_from = allow_from; logger = logger })
          (new_sender bot_token allow_from logger)
  unfolding new_sender
  new_sender_lem bot_token allow_from logger = elim (Bool-cases (is_blank bot_token)) [
    | inl blank ↦ rw blank tt
    | inr named ↦ rw named refl
  ]

  with_sender-Yields :
      (P : Orchestrator → Type 0) (store : Store) (client : Client) (logger : Option Text)
      (expected : Sender) (r : Result Sender)
      → P (record {
        sessions = store;
        llm = client;
        db = open_db;
        sender = some expected;
        logger = logger;
      })
      → IfOk (λ s. s ≡ expected) r
      → Yields P (with_sender store client open_db logger r)
  unfolding with_sender
  with_sender-Yields P store client logger expected (err e) h same = record { holds = λ w. tt }
  with_sender-Yields P store client logger expected (ok s) h same = record {
    holds = λ w. rw same h;
  }

  with_db-Yields :
      (cfg : Config) (db : Db) (store : Store) (logger : Option Text)
      → store ≡ record { dir = cfg.sessions.dir }
      → Yields
          (AsConfigured cfg logger)
          (with_db cfg store (Llm.new (llm_config cfg.llm) (some (codes "llm"))).0 db logger)
  unfolding with_db
  with_db-Yields cfg nil_db store logger same = record { holds = λ w. tt }
  with_db-Yields cfg open_db store logger same =
      with_sender-Yields (AsConfigured cfg logger) store _ logger _ _ (rw same refl)
        (new_sender_lem cfg.telegram.bot_token cfg.telegram.allow_from _)

  with_store-Yields :
      (cfg : Config) (db : Db) (logger : Option Text) (r : Result Store)
      → IfOk (λ s. s ≡ record { dir = cfg.sessions.dir }) r
      → Yields (AsConfigured cfg logger) (with_store cfg db logger r)
  unfolding with_store
  with_store-Yields cfg db logger (err e) same = record { holds = λ w. tt }
  with_store-Yields cfg db logger (ok store) same =
      then-Yields (AsConfigured cfg logger) _ _ (λ _. with_db-Yields cfg db store logger same)

  -- An orchestrator that `New` returns has the settings of its configuration.
  pub new-AsConfigured :
      (cfg : Config) (db : Db) (logger : Option Text) (w : World)
      → IfOk (AsConfigured cfg logger) (new cfg db logger w).0
  unfolding new
  new-AsConfigured cfg db logger w =
      (with_store-Yields cfg db logger _ (new_store_lem cfg.sessions.dir)).holds w
