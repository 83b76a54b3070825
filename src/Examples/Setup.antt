-- ===== src/Examples/Setup.antt =====
-- The theorems on the configuration, the routes and the approvals, on one configuration.

use mouse.Examples.Index.{whole}
use mouse.Examples.{ascii, machine, world}
use mouse.Config.{load, validate, Outside, Config}
use mouse.Examples.Gates.{docker}
use mouse.Approvals.Answers.{serve_http-Answered, approved, Answered}
use mouse.Gateway.Routes.{new_server-AsPlanned, AsPlanned}
use mouse.Config.Checks.{validate_iff, IsValid, load-AsValid, AsValid}
use mouse.Prelude.{err, false, ◌↔◌, ok, some, ◌∷◌, none, true, ◌≡◌, [], codes}
use mouse.Gateway.{serve, HttpRequest, new_server}
use mouse.Prelude.Int.{pos}
use mouse.Approvals.{serve_http}
use mouse.Gateway.Commands.{IfUp, serve-RunsPermitted}
use mouse.Gateway.Requests.{RunsPermitted}
use mouse.Host.{World}
use mouse.Start.Outcomes.{start-AsStarted, AsStarted}
use mouse.Start.{start}

-- The telegram and sandbox sections are on, and two paths are watched.
abbrev pub config : Config
config = record {
  app = record { name = codes "mouse"; workspace = codes "/srv"; timezone = codes "UTC" };
  telegram = record {
    enabled = true;
    webhook = record {
      enabled = true;
      public_url = codes "https://example.org";
      path = codes "/telegram";
      secret = codes "S";
    };
    bot_token = codes "T";
    allow_from = codes "@ann" ∷ [];
    groups = record { allow = []; require_mention = true };
  };
  llm = record {
    provider = codes "anthropic";
    api_key = codes "K";
    model = codes "M";
    max_tokens = pos 1024;
  };
  sessions = record {
    store = codes "markdown";
    dir = codes "${workspace}/sessions";
    max_history_messages = pos 20;
  };
  memory = record { store = codes "markdown"; dir = codes "${workspace}/memory"; auto_sync = true };
  index = record { sqlite_path = codes "/srv/db"; watch_paths = codes "${workspace}/notes" ∷ [] };
  sandbox = record {
    enabled = true;
    docker = docker;
    tools = record { allow = codes "ls" ∷ []; deny = [] };
  };
  cron = record { enabled = false; jobs = [] };
}

validate_iff_example : (validate config ≡ ok tt) ↔ IsValid config
validate_iff_example = validate_iff config

-- An environment without variables, in which every text reads as the configuration above.
abbrev outside : Outside
outside = record { getenv = λ key. []; decode_yaml = λ text. ok config }

abbrev set_up : World
set_up = record world { files = (codes "/etc/mouse.yaml", codes "app:") ∷ [] }

load-AsValid_example : AsValid (load outside (codes "/etc/mouse.yaml") set_up).0
load-AsValid_example = load-AsValid outside (codes "/etc/mouse.yaml") set_up

start-AsStarted_example :
    AsStarted outside
      (codes "/etc/mouse.yaml")
      false
      set_up
      (start outside (codes "/etc/mouse.yaml") (codes ":8080") false set_up).0
start-AsStarted_example =
    start-AsStarted outside (codes "/etc/mouse.yaml") (codes ":8080") false set_up

serve_http-Answered_example :
    Answered
      (codes "approvals")
      world
      (approved (codes "POST") (some (codes " 7 ")))
      (serve_http (some (codes "approvals")) (codes "POST") (some (codes " 7 ")) world)
serve_http-Answered_example =
    serve_http-Answered (codes "approvals") (codes "POST") (some (codes " 7 ")) world

new_server-AsPlanned_example : AsPlanned config (new_server config none world).0
new_server-AsPlanned_example = new_server-AsPlanned config none world

-- A request for a tool that the policy allows.
abbrev pub ls_request : HttpRequest
ls_request = record {
  path = codes "/tools/run";
  method = codes "POST";
  secret = [];
  remote = [];
  update = err [];
  tool = some (record { tool = codes "ls"; command = codes "ls" ∷ [] });
  approval = none;
  query = [];
  raw_limit = [];
}

serve-RunsPermitted_example :
    IfUp
      (λ s. RunsPermitted config ls_request world (serve s ls_request world).1)
      (new_server config none world).0
serve-RunsPermitted_example = serve-RunsPermitted config none world ls_request world
