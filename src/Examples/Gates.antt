-- ===== src/Examples/Gates.antt =====
-- The theorems on the webhook, the allow list, the tools and the sandbox, on a small machine.
use mouse.Tools.Handler.{serve_http as tool_http, ToolRequest}
use mouse.Telegram.Handler.{serve_http, Config, WebhookRequest, Processor}
use mouse.Sandbox.{build_docker_args, Runner, DockerConfig}
use mouse.Sandbox.Args.{asked}
use mouse.Examples.{ascii, machine, world, someone, update_of}
use mouse.Telegram.Handler.Gate.{serve_http-Handled, with_processor, admitted, Handled}
use mouse.Tools.Handler.Safety.{serve_http_commands, started, configured}
use mouse.Prelude.{
  ◌⊎◌, false, refl, ◌||◌, ◌&&◌, text_eq, not, ◌++◌, any, [], ◌≡◌, ◌+◌, none, some, ok, Text, ◌∷◌,
  true, List, codes,
}
use mouse.Telegram.Allow.{is_allowed_user_lem, user_name, item_name, is_allowed_user}
use mouse.Tools.Policy.{normalize, new_policy, allowed, Policy}
use mouse.Sandbox.Args.{read-build_docker_args, unset}
use mouse.Examples.Docker.{reader}
use mouse.Tools.Policy.Laws.{allowed-new_policy, all_blank, mentions}
use mouse.Strings.Decimal.{format_int}
use mouse.Strings.{has_prefix}
use mouse.Telegram.Webhook.{set_webhook}
use mouse.Telegram.Sender.Retry.{delivered, succeeds}
use mouse.Telegram.Webhook.Calls.{Asks, set_webhook_lem, has_address}
use mouse.Host.{Request}

abbrev webhook : Config
webhook = record { allow_from = codes "5" ∷ []; secret_token = codes "S"; require_webhook = true }

-- A processor that answers every update.
abbrev echo : Processor
echo update w = ((codes "7", ok tt), record w { calls = w.calls + 1 })

abbrev delivery : WebhookRequest
delivery = record {
  method = codes "POST";
  secret = codes "S";
  remote = codes "127.0.0.1";
  body = ok (ok (update_of (codes "hi")));
}

serve_http-Handled_example :
    Handled echo world
      (admitted webhook delivery)
      (serve_http (with_processor webhook (codes "telegram") echo world) delivery world)
serve_http-Handled_example = serve_http-Handled webhook (codes "telegram") echo world delivery

is_allowed_user_lem_example : is_allowed_user (codes " @ANN " ∷ []) (some someone) ≡ (
    any (λ item. text_eq (item_name item) (format_int someone.id)) (codes " @ANN " ∷ [])
    || (not (text_eq (user_name someone) [])
        && any (λ item. text_eq (item_name item) (user_name someone)) (codes " @ANN " ∷ [])))
is_allowed_user_lem_example = is_allowed_user_lem (codes " @ANN " ∷ []) someone

allowed-new_policy_example :
    allowed (some (new_policy (codes "Bash" ∷ []) (codes "rm" ∷ []))) (codes " bash") ≡ (
      not (text_eq (normalize (codes " bash")) [])
      && not (mentions (codes "rm" ∷ []) (normalize (codes " bash")))
      && (all_blank (codes "Bash" ∷ [])
          || mentions (codes "Bash" ∷ []) (normalize (codes " bash"))))
allowed-new_policy_example =
    allowed-new_policy (codes "Bash" ∷ []) (codes "rm" ∷ []) (codes " bash")

abbrev bash_only : Policy
bash_only = new_policy (codes "bash" ∷ []) []

abbrev pub docker : DockerConfig
docker = record {
  image = codes "debian";
  workdir = codes "/work";
  binds = codes "/a:/a" ∷ [];
  read_only_root = true;
  network = [];
  tmpfs = codes "/tmp" ∷ [];
}

read-build_docker_args_example :
    (words : List Text) × (build_docker_args docker (codes "--network" ∷ codes "host" ∷ [])
      ≡ codes "run" ∷ words)
    × (reader.read unset words
        ≡ (asked docker, docker.image ∷ (codes "--network" ∷ codes "host" ∷ [])))
read-build_docker_args_example =
    read-build_docker_args reader docker (codes "--network" ∷ codes "host" ∷ [])
      (unfold has_prefix in refl)

abbrev pub runner : Runner
runner = record {
  cfg = record {
    enabled = true;
    docker = docker;
    tools = record { allow = codes "bash" ∷ []; deny = [] };
  };
}

abbrev tool_request : ToolRequest
tool_request = record { tool = codes "bash"; command = codes "ls" ∷ [] }

serve_http_commands_example :
    (tool_http
      (configured bash_only runner none)
      (codes "POST")
      (some tool_request)
      world).1.commands
    ≡ world.commands ++ started bash_only runner (codes "POST") (some tool_request)
serve_http_commands_example =
    serve_http_commands bash_only runner none (codes "POST") (some tool_request) world

set_webhook_lem_example :
    let (r, w') =
      set_webhook (codes "T") (codes "https://a/") (codes "/hook") (codes "S") none world in
    ((succeeds r ≡ false) × (w'.requests ≡ world.requests))
    ⊎ ((has_address (codes "T") (codes "https://a/") (codes "/hook") ≡ true)
        × (succeeds r ≡ delivered (machine.reply (world.calls + 1)))
        × ((request : Request) × Asks
              (codes "T")
              (codes "https://a/")
              (codes "/hook")
              (codes "S")
              request
            × (w'.requests ≡ world.requests ++ request ∷ [])))
set_webhook_lem_example =
    set_webhook_lem (codes "T") (codes "https://a/") (codes "/hook") (codes "S") none world
