-- ===== src/Gateway/Commands.antt =====
-- internal/gateway/gateway.go: which requests to the server start a process.
use mouse.Gateway.Requests.{
  index_reindex-Behaves, index_search-Behaves, tool_run-Behaves, webhook-Behaves, approvals-Behaves,
  health-Behaves, RunsPermitted, Behaves,
}
use mouse.Config.{Config}
use mouse.Strings.{Unicode}
use mouse.Host.{World, Env}
use mouse.Gateway.{panics, Boot, up, new_server, Server, serve_found, serve, Route, HttpRequest}
use mouse.Indexer.Scan.{Hashing}
use mouse.Prelude.{none, some, err, Result, Option, refl, ok, inl, Text}
use mouse.Gateway.Settings.{plan}
use mouse.Gateway.Plan.{Matches}
use mouse.Prelude.Dict.{lookup}
use mouse.Gateway.Routes.{new_server-AsPlanned, AsPlanned}
use mouse.Gateway.Promises.{found-OfFound, OfFound, Routewise}

-- What holds of the server, if one started.
abbrev pub IfUp : (Server → Type 0) → Result Boot → Type 0
IfUp P (ok (up s)) = P s
IfUp P (ok panics) = Unit
IfUp P (err e) = Unit

module _ ⦃u : Unicode⦄ ⦃env : Env⦄ ⦃sha : Hashing⦄ where
  behaving : (cfg : Config) → Routewise cfg (Behaves cfg)
  behaving cfg = record {
    health = λ path route made. rw made (health-Behaves cfg path);
    approvals = λ path route made. rw made (approvals-Behaves cfg path _);
    webhook = webhook-Behaves cfg;
    tool_run = tool_run-Behaves cfg;
    search = index_search-Behaves cfg;
    reindex = index_reindex-Behaves cfg;
  }

  found_commands :
      (cfg : Config) (r : HttpRequest) (w : World) (found : Option Route)
      → OfFound cfg (Behaves cfg) r.path found
      → RunsPermitted cfg r w (serve_found found r w).1
  unfolding serve_found
  found_commands cfg r w none h = inl refl
  found_commands cfg r w (some route) h = h r refl w

  pub serve_commands :
      (cfg : Config) (s : Server) (r : HttpRequest) (w : World)
      → Matches (plan cfg) s.routes
      → RunsPermitted cfg r w (serve s r w).1
  unfolding serve
  serve_commands cfg s r w m =
      found_commands cfg r w (lookup r.path s.routes)
        (found-OfFound cfg (Behaves cfg) r.path s.routes (behaving cfg) m)

  started_up :
      (cfg : Config) (r : HttpRequest) (w : World) (booted : Result Boot)
      → AsPlanned cfg booted
      → IfUp (λ s. RunsPermitted cfg r w (serve s r w).1) booted
  started_up cfg r w (ok (up s)) h = serve_commands cfg s r w h.0
  started_up cfg r w (ok panics) h = tt
  started_up cfg r w (err e) h = tt

  -- In a server that `NewServer` returns, whatever a request holds and whatever fails while it is
  -- served, either no process is started, or the sandbox is on and the request is a POST to
  -- /tools/run of a JSON body with a tool that the configured policy allows, and then exactly one
  -- is started: `docker` with the configured arguments and the request's command.
  pub serve-RunsPermitted :
      (cfg : Config) (logger : Option Text) (w₀ : World) (r : HttpRequest) (w : World)
      → IfUp (λ s. RunsPermitted cfg r w (serve s r w).1) (new_server cfg logger w₀).0
  serve-RunsPermitted cfg logger w₀ r w =
      started_up cfg r w (new_server cfg logger w₀).0 (new_server-AsPlanned cfg logger w₀)
