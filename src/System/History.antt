-- ===== src/System/History.antt =====
-- What a running server never takes back.
use mouse.Config.{Config}
use mouse.Cron.Kept.{tick-after}
use mouse.Effects.{Closed}
use mouse.Gateway.{new_server, up, Server}
use mouse.Gateway.Plan.{Matches}
use mouse.Gateway.Routes.{new_server-AsPlanned, AsPlanned}
use mouse.Gateway.Served.{serve-Keeps}
use mouse.Gateway.Settings.{plan}
use mouse.Host.{Env, World}
use mouse.Host.Rows.{IndexEntry}
use mouse.Indexer.Scan.{Hashing}
use mouse.Indexer.Scan.Kept.{IsTold}
use mouse.Indexer.Ticks.{first_scan-after, tick_scan-after}
use mouse.Prelude.{
  append-nil, append_assoc, ap, ok, refl, sym, [], ◌++◌, ◌∷◌, ◌∙◌, ◌≡◌, List, Option, Text,
}
use mouse.Sqlite.CronJobs.{write_cron_job}
use mouse.Sqlite.Index.{write_index_entry}
use mouse.Sqlite.Messages.{insert_message}
use mouse.Strings.{Unicode}
use mouse.System.{running, Reach, Running, Step}
use mathlib.Core.Path.{subst}

-- The later list is the earlier one with more at its end.
abbrev Extends {ℓ} : {A : Type ℓ} → List A → List A → Type ℓ
Extends {A = A} earlier later = (more : List A) × (later ≡ earlier ++ more)

Extends-refl {ℓ} : {A : Type ℓ} (xs : List A) → Extends xs xs
Extends-refl xs = ([], sym (append-nil xs))

Extends-snoc {ℓ} :
    {A : Type ℓ} (earlier later : List A) (x : A)
    → Extends earlier later
    → Extends earlier (later ++ x ∷ [])
Extends-snoc earlier later x (more, same) =
    (more ++ x ∷ [], ap (λ xs. xs ++ x ∷ []) same ∙ append_assoc earlier more (x ∷ []))

-- No message is removed or changed, and no line of the log, no request and no process is forgotten.
pub record Remembers (w w' : World) : Type 0 where
  pub messages : Extends w.db.messages w'.db.messages
  pub log : Extends w.log w'.log
  pub requests : Extends w.requests w'.requests
  pub commands : Extends w.commands w'.commands

Remembers-refl : (w : World) → Remembers w w
Remembers-refl w = record {
  messages = Extends-refl w.db.messages;
  log = Extends-refl w.log;
  requests = Extends-refl w.requests;
  commands = Extends-refl w.commands;
}

-- The effects that touch none of the four.
same_lists :
    (w w₁ w₂ : World)
    → w₂.db.messages ≡ w₁.db.messages
    → w₂.log ≡ w₁.log
    → w₂.requests ≡ w₁.requests
    → w₂.commands ≡ w₁.commands
    → Remembers w w₁
    → Remembers w w₂
same_lists w w₁ w₂ a b c d h = record {
  messages = subst (Extends w.db.messages) (sym a) h.messages;
  log = subst (Extends w.log) (sym b) h.log;
  requests = subst (Extends w.requests) (sym c) h.requests;
  commands = subst (Extends w.commands) (sym d) h.commands;
}

Closed-Remembers : (Told : IndexEntry → Type 0) (w : World) → Closed Told (Remembers w)
unfolding insert_message write_cron_job write_index_entry
Closed-Remembers Told w = record {
  called = λ w₁. same_lists w w₁ _ refl refl refl refl;
  logged = λ w₁ e h. record {
    messages = h.messages;
    log = Extends-snoc w.log w₁.log e h.log;
    requests = h.requests;
    commands = h.commands;
  };
  sent = λ w₁ r h. record {
    messages = h.messages;
    log = h.log;
    requests = Extends-snoc w.requests w₁.requests r h.requests;
    commands = h.commands;
  };
  created = λ w₁ path. same_lists w w₁ _ refl refl refl refl;
  appended = λ w₁ path text. same_lists w w₁ _ refl refl refl refl;
  messaged = λ w₁ session_id role content stamp h. record {
    messages = Extends-snoc w.db.messages w₁.db.messages _ h.messages;
    log = h.log;
    requests = h.requests;
    commands = h.commands;
  };
  indexed = λ w₁ e told. same_lists w w₁ _ refl refl refl refl;
  unindexed = λ w₁ path. same_lists w w₁ _ refl refl refl refl;
  scheduled = λ w₁ row. same_lists w w₁ _ refl refl refl refl;
}

started-Remembers :
    (w w₁ : World) (command : List Text)
    → Remembers w w₁
    → Remembers w (record w₁ { commands = w₁.commands ++ command ∷ [] })
started-Remembers w w₁ command h = record {
  messages = h.messages;
  log = h.log;
  requests = h.requests;
  commands = Extends-snoc w.commands w₁.commands command h.commands;
}

module _ ⦃u : Unicode⦄ ⦃env : Env⦄ ⦃sha : Hashing⦄ (cfg : Config) where
  -- The routes of the configuration, and what was there at the start.
  record Follows (start : World) (st : Running) : Type 0 where
    routes : Matches (plan cfg) st.server.routes
    remembers : Remembers start st.world

  Step-Follows :
      {st st' : Running} (start : World) → Step st st' → Follows start st → Follows start st'
  Step-Follows start (Step.served st r) h = record {
    routes = h.routes;
    remembers =
        (serve-Keeps (Closed-Remembers IsTold start) (started-Remembers start) cfg st.server r
            h.routes).after
          st.world h.remembers;
  }
  Step-Follows start (Step.ticked st s jobs order on p) h = record {
    routes = h.routes;
    remembers = tick-after (Closed-Remembers IsTold start) s order st.world h.remembers;
  }
  Step-Follows start (Step.indexing st i made) h = record {
    routes = h.routes;
    remembers = first_scan-after (Closed-Remembers IsTold start) i st.world h.remembers;
  }
  Step-Follows start (Step.scanned st i made) h = record {
    routes = h.routes;
    remembers = tick_scan-after (Closed-Remembers IsTold start) i st.world h.remembers;
  }
  Step-Follows start (Step.edited st files) h = record {
    routes = h.routes;
    remembers = same_lists start st.world _ refl refl refl refl h.remembers;
  }

  Reach-Follows :
      {start st : Running} → Reach start st → Follows start.world start → Follows start.world st
  Reach-Follows Reach.here h = h
  Reach-Follows {start} (Reach.next before step) h =
      Step-Follows start.world step (Reach-Follows before h)

  -- In a server that `NewServer` returned, from any world and whatever happens, the table of
  -- messages, the log, the requests sent and the processes started only grow at their ends: nothing
  -- in them is removed, changed or moved.
  pub Reach-Remembers :
      (logger : Option Text) (w₀ : World) (s : Server) (w : World) (st : Running)
      → (new_server cfg logger w₀).0 ≡ ok (up s)
      → Reach (running s w) st
      → Remembers w st.world
  Reach-Remembers logger w₀ s w st started reached =
      (Reach-Follows reached (record {
        routes = (subst (AsPlanned cfg) started (new_server-AsPlanned cfg logger w₀)).0;
        remembers = Remembers-refl w;
      })).remembers
