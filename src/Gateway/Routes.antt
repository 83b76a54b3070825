-- ===== src/Gateway/Routes.antt =====
-- internal/gateway/gateway.go: `NewServer` registers what the configuration calls for.
use mouse.Gateway.Plan.{
  Refused, panics-Progress, paths, register-Progress, repeats, Matches, Progress, Planned,
}
use mouse.Gateway.Settings.{
  webhook_route, tools_route, reindex_route, webhook_on, index_routes, plan_webhook, planned,
  plan_tools, plan_index, search_route, fixed_plan, plan,
}
use mouse.Config.{Config}
use mouse.Sandbox.{Runner, SandboxConfig, new as new_runner}
use mouse.Indexer.Scan.{new as new_indexer}
use mouse.Prelude.{
  arith, codes, ◌⊎◌, sym, append_assoc, err, append-nil, Result, ok, is_empty, not, if◌then◌else◌,
  text_eq, none, some, refl, true, false, [], ◌∷◌, Option, Bool, ◌≡◌, ◌++◌, Text, List,
}
use mouse.Gateway.{
  panics, up, unless_panic, Boot, new_server, fixed_routes, register_index, add_index, add_reindex,
  webhook_handler, tool_handler, or_logged, add_tools, logged_failure, add_webhook, Route, register,
}
use mouse.Prelude.Dict.{insert, Dict}
use mouse.Strings.{Unicode}
use mouse.Host.Yields.{IfOk}
use mouse.Host.{World, Env}
use mouse.Indexer.Scan.{Indexer}
use mouse.Host.Action.{Action, pure, continue}
use mouse.Sqlite.Base.{open_db, nil_db, Db}
use mathlib.Core.Path.{subst}
use mouse.Orchestrator.{Orchestrator, new as new_orchestrator}
use mouse.Orchestrator.Built.{new-AsConfigured, AsConfigured}

module _ ⦃u : Unicode⦄ ⦃env : Env⦄ where
  -- A step of the registration that follows its part of the plan.
  abbrev Follows : List Planned → List Planned → Result (Option (Dict Route)) → Type 0
  Follows ps qs (ok o) = Progress (ps ++ qs) o
  Follows ps qs (err e) = Unit

  kept : (ps : List Planned) (o : Option (Dict Route)) → Progress ps o → Progress (ps ++ []) o
  kept ps o h = rw append-nil h

  registered-Follows {ℓ} :
      {A : Type ℓ} (ps : List Planned) (p : Planned) (routes : Dict Route) (make : A → Route)
      (r : Result A) (w : World)
      → ((a : A) → r ≡ ok a → p.serves (make a))
      → Progress ps (some routes)
      → Follows ps (p ∷ []) (continue r (λ a. pure (register p.path (make a) routes)) w).0
  registered-Follows ps p routes make (err e) w f h = tt
  registered-Follows ps p routes make (ok a) w f h =
      register-Progress ps p (make a) routes (f a refl) h

  -- A step that is taken only if the configuration turns it on.
  when-Follows :
      (on : Bool) (ps qs : List Planned) (routes : Dict Route) (m : Action (Option (Dict Route)))
      (w : World)
      → Follows ps qs (m w).0
      → Progress ps (some routes)
      → Follows ps (planned on qs) ((if on then m else pure (some routes)) w).0
  when-Follows true ps qs routes m w f h = f
  when-Follows false ps qs routes m w f h = kept ps (some routes) h

  logged_ok {ℓ} :
      {A : Type ℓ} (logger : Option Text) (message : Text) (r : Result A) (w : World) (a : A)
      → (logged_failure logger message r w).0 ≡ ok a
      → r ≡ ok a
  unfolding logged_failure
  logged_ok logger message (ok b) w a e = e
  logged_ok logger message (err b) w a e = e

  built :
      (cfg : Config) (db : Db) (logger service : Option Text) (message : Text) (w : World)
      (o : Orchestrator)
      → (logged_failure logger message
          (new_orchestrator cfg db service w).0
          (new_orchestrator cfg db service w).1).0
        ≡ ok o
      → AsConfigured cfg service o
  built cfg db logger service message w o e =
      subst (λ r. IfOk (AsConfigured cfg service) r) (logged_ok logger message _ _ o e)
        (new-AsConfigured cfg db service w)

  add_webhook-Follows :
      (cfg : Config) (db : Db) (logger : Option Text) (routes : Dict Route) (w : World)
      (ps : List Planned)
      → Progress ps (some routes)
      → Follows ps (plan_webhook cfg) (add_webhook cfg db logger routes w).0
  unfolding add_webhook or_logged webhook_handler
  add_webhook-Follows cfg db logger routes w ps h =
      when-Follows (webhook_on cfg) ps (webhook_route cfg ∷ []) routes _ w
        (registered-Follows ps (webhook_route cfg) routes _ _ _
          (λ o e. (o, built cfg db logger _ _ w o e, refl)) h)
        h

  new_runner_cfg :
      (cfg : SandboxConfig) (runner : Runner) → new_runner cfg ≡ ok runner → runner.cfg ≡ cfg
  unfolding new_runner
  new_runner_cfg cfg runner e = ground arith

  add_tools-Follows :
      (cfg : Config) (logger : Option Text) (routes : Dict Route) (w : World) (ps : List Planned)
      → Progress ps (some routes)
      → Follows ps (plan_tools cfg) (add_tools cfg logger routes w).0
  unfolding add_tools or_logged tool_handler
  add_tools-Follows cfg logger routes w ps h =
      when-Follows cfg.sandbox.enabled ps (tools_route cfg ∷ []) routes _ w
        (registered-Follows ps (tools_route cfg) routes _ _ _
          (λ runner e.
            let made = logged_ok logger _ (new_runner cfg.sandbox) w runner e in
            (runner, made, new_runner_cfg cfg.sandbox runner made, refl))
          h)
        h

  second-Progress :
      (cfg : Config) (ps : List Planned) (i : Indexer) (o : Option (Dict Route))
      → i ≡ record { watch = cfg.index.watch_paths; db = open_db; logger = some (codes "indexer") }
      → Progress (ps ++ search_route cfg ∷ []) o
      → Progress (ps ++ index_routes cfg) (add_reindex i o)
  unfolding add_reindex
  second-Progress cfg ps i none e h =
      rw (← append_assoc ps (search_route cfg ∷ []) (reindex_route cfg ∷ []))
        (panics-Progress (ps ++ search_route cfg ∷ []) (reindex_route cfg ∷ []) h)
  second-Progress cfg ps i (some routes) e h =
      rw (← append_assoc ps (search_route cfg ∷ []) (reindex_route cfg ∷ [])) (
        register-Progress (ps ++ search_route cfg ∷ []) (reindex_route cfg) _ routes (i, e, refl) h)

  -- The two routes of the index are registered together.
  both-Follows :
      (cfg : Config) (ps : List Planned) (routes : Dict Route) (r : Result Indexer) (w : World)
      → ((i : Indexer)
          → r ≡ ok i
          → i ≡ record {
            watch = cfg.index.watch_paths;
            db = open_db;
            logger = some (codes "indexer");
          })
      → Progress ps (some routes)
      → Follows ps (index_routes cfg) (continue r (λ i. pure (register_index i routes)) w).0
  unfolding register_index
  both-Follows cfg ps routes (err e) w f h = tt
  both-Follows cfg ps routes (ok i) w f h =
      second-Progress cfg ps i _ (f i refl)
        (register-Progress ps (search_route cfg) _ routes (i, f i refl, refl) h)

  new_indexer_lem :
      (watch : List Text) (db : Db) (logger : Option Text) (i : Indexer)
      → new_indexer watch db logger ≡ ok i
      → i ≡ record { watch = watch; db = open_db; logger = logger }
  unfolding new_indexer
  new_indexer_lem watch nil_db logger i e = cc
  new_indexer_lem watch open_db logger i e = cc

  add_index-Follows :
      (cfg : Config) (db : Db) (logger : Option Text) (routes : Dict Route) (w : World)
      (ps : List Planned)
      → Progress ps (some routes)
      → Follows ps (plan_index cfg) (add_index cfg db logger routes w).0
  unfolding add_index or_logged
  add_index-Follows cfg db logger routes w ps h =
      when-Follows (not (is_empty cfg.index.watch_paths)) ps (index_routes cfg) routes _ w
        (both-Follows cfg ps routes _ _
          (λ i e. new_indexer_lem _ db _ i (logged_ok logger _ _ w i e)) h)
        h

  -- What the whole plan makes of a server.
  abbrev pub AsPlanned : Config → Result Boot → Type 0
  AsPlanned cfg (ok (up s)) = Matches (plan cfg) s.routes × (repeats (paths (plan cfg)) ≡ false)
  AsPlanned cfg (ok panics) = (repeats (paths (plan cfg)) ≡ true) ⊎ Refused (paths (plan cfg))
  AsPlanned cfg (err e) = Unit

  -- A registration that panics ends the start, and another goes on.
  unless_panic-AsPlanned :
      (cfg : Config) (ps qs rest : List Planned) (r : Result (Option (Dict Route))) (w : World)
      (next : Dict Route → Action Boot)
      → (ps ++ qs) ++ rest ≡ plan cfg
      → Follows ps qs r
      → ((routes : Dict Route)
          → Progress (ps ++ qs) (some routes)
          → (w : World) → AsPlanned cfg (next routes w).0)
      → AsPlanned cfg (continue r (λ o. unless_panic o next) w).0
  unfolding unless_panic
  unless_panic-AsPlanned cfg ps qs rest (err e) w next same h f = tt
  unless_panic-AsPlanned cfg ps qs rest (ok none) w next same h f =
      subst (λ all. Progress all none) same (panics-Progress (ps ++ qs) rest h)
  unless_panic-AsPlanned cfg ps qs rest (ok (some routes)) w next same h f = f routes h w

  with_scheduler-AsPlanned {ℓ} :
      {A : Type ℓ} (cfg : Config) (r : Result A) (w : World) (next : A → Action Boot)
      → ((a : A) (w : World) → AsPlanned cfg (next a w).0)
      → AsPlanned cfg (continue r next w).0
  with_scheduler-AsPlanned cfg (err e) w next f = tt
  with_scheduler-AsPlanned cfg (ok a) w next f = f a w

  fixed_routes-Progress : Progress fixed_plan (some fixed_routes)
  unfolding fixed_routes insert text_eq
  fixed_routes-Progress = ((refl, refl, (refl, refl, tt)), refl)

  -- A server that starts has exactly the routes that its configuration calls for, each with the
  -- settings of the configuration: health and approvals always, the webhook if Telegram is on and a
  -- path is set, the tools if the sandbox is on, and the two routes of the index if a path is
  -- watched, and no path is among them twice. If the registration panics, a path is among them
  -- twice, or the mux refuses one of them where it has those in front of it.
  pub new_server-AsPlanned :
      (cfg : Config) (logger : Option Text) (w : World) → AsPlanned cfg (new_server cfg logger w).0
  unfolding new_server
  new_server-AsPlanned cfg logger w = with_scheduler-AsPlanned cfg _ _ _ λ db w₁.
      unless_panic-AsPlanned cfg fixed_plan (plan_webhook cfg) (plan_tools cfg ++ plan_index cfg) _
        _ _ (sym (append_assoc (fixed_plan ++ plan_webhook cfg) (plan_tools cfg) (plan_index cfg)))
        (add_webhook-Follows cfg db logger fixed_routes w₁ fixed_plan fixed_routes-Progress)
        λ routes₁ h₁ w₂.
          unless_panic-AsPlanned cfg (fixed_plan ++ plan_webhook cfg) (plan_tools cfg)
            (plan_index cfg) _ _ _ refl
            (add_tools-Follows cfg logger routes₁ w₂ (fixed_plan ++ plan_webhook cfg) h₁)
            λ routes₂ h₂ w₃. with_scheduler-AsPlanned cfg _ _ _ λ scheduler w₄.
              unless_panic-AsPlanned cfg ((fixed_plan ++ plan_webhook cfg) ++ plan_tools cfg)
                (plan_index cfg) [] _ _ _ (append-nil _)
                (add_index-Follows cfg db logger routes₂ w₄
                  ((fixed_plan ++ plan_webhook cfg) ++ plan_tools cfg) h₂)
                λ routes₃ h₃ w₅. h₃
