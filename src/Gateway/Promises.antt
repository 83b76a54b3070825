-- ===== src/Gateway/Promises.antt =====
-- What every registered route promises, if the routes of a plan do.
use mouse.Config.{Config}
use mouse.Strings.{Unicode}
use mouse.Host.{Env}
use mouse.Gateway.{index_reindex, index_search, Route}
use mouse.Prelude.{
  codes, none, some, false, Bool, text_eq_iff, inr, is_empty, not, text_eq, Bool-cases, ◌∙◌, Option,
  refl, [], ◌∷◌, inl, ◌++◌, true, ◌≡◌, Text, List,
}
use mouse.Gateway.Settings.{
  IsIndex, IsToolRun, IsWebhook, IsApprovals, IsHealth, index_routes, tools_route, webhook_route,
  webhook_on, plan_index, plan_tools, plan_webhook, fixed_plan, plan, planned,
}
use mouse.Gateway.Plan.{Matches, Planned}
use mouse.Prelude.Dict.{Dict, lookup}
use mathlib.Core.Path.{subst}

module _ {ι} ⦃u : Unicode⦄ ⦃env : Env⦄ (cfg : Config) (B : Text → Route → Type ι) where
  -- A promise of every route that the configuration can call for.
  pub record Routewise : Type ι where
    pub health : (path : Text) (route : Route) → IsHealth route → B path route
    pub approvals : (path : Text) (route : Route) → IsApprovals route → B path route
    pub webhook : (path : Text) (route : Route) → IsWebhook cfg route → B path route
    pub tool_run :
        (route : Route)
        → cfg.sandbox.enabled ≡ true
        → IsToolRun cfg route
        → B (codes "/tools/run") route
    pub search : (path : Text) (route : Route) → IsIndex cfg index_search route → B path route
    pub reindex : (path : Text) (route : Route) → IsIndex cfg index_reindex route → B path route

  -- What a part of the plan promises, for all that is registered for it.
  abbrev Promises : List Planned → Type ι
  Promises [] = Unit
  Promises (p ∷ ps) = ((route : Route) → p.serves route → B p.path route) × Promises ps

  Promises-append : (ps qs : List Planned) → Promises ps → Promises qs → Promises (ps ++ qs)
  Promises-append [] qs h k = k
  Promises-append (p ∷ ps) qs (f, h) k = (f, Promises-append ps qs h k)

  planned-Promises :
      (on : Bool) (ps : List Planned) → (on ≡ true → Promises ps) → Promises (planned on ps)
  planned-Promises true ps f = f refl
  planned-Promises false ps f = tt

  plan-Promises : Routewise → Promises (plan cfg)
  plan-Promises b =
      Promises-append ((fixed_plan ++ plan_webhook cfg) ++ plan_tools cfg) (plan_index cfg)
        (Promises-append (fixed_plan ++ plan_webhook cfg) (plan_tools cfg)
          (Promises-append fixed_plan (plan_webhook cfg) (b.health _, (b.approvals _, tt))
            (planned-Promises (webhook_on cfg) (webhook_route cfg ∷ []) (λ on. (b.webhook _, tt))))
          (planned-Promises cfg.sandbox.enabled (tools_route cfg ∷ [])
            (λ on. ((λ route. b.tool_run route on), tt))))
        (planned-Promises (not (is_empty cfg.index.watch_paths)) (index_routes cfg)
          (λ on. (b.search _, (b.reindex _, tt))))

  abbrev pub OfFound : Text → Option Route → Type ι
  OfFound path none = Unit
  OfFound path (some route) = B path route

  lookup-OfFound :
      (path : Text) (ps : List Planned) (routes : Dict Route)
      → Promises ps
      → Matches ps routes
      → OfFound path (lookup path routes)
  unfolding lookup
  lookup-OfFound path [] [] f m = tt
  lookup-OfFound path [] (_ ∷ routes) f m = elim m [ ]
  lookup-OfFound path (p ∷ ps) [] f m = elim m [ ]
  lookup-OfFound path (p ∷ ps) ((other, route) ∷ routes) (f, fs) (e, s, m) =
      elim (Bool-cases (text_eq other path)) [
        | inl here ↦
            rw here (subst (λ q. B q route) (e ∙ (text_eq_iff other path).0 here) (f route s))
        | inr there ↦ rw there (lookup-OfFound path ps routes fs m)
      ]

  pub found-OfFound :
      (path : Text) (routes : Dict Route)
      → Routewise
      → Matches (plan cfg) routes
      → OfFound path (lookup path routes)
  found-OfFound path routes b m = lookup-OfFound path (plan cfg) routes (plan-Promises b) m
