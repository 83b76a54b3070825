-- ===== src/Start.antt =====
-- cmd/mouse/main.go, and SetFile of internal/logging/logging.go: the start of the program.
pub mod Outcomes
use mouse.Gateway.{panics, up, new_server, Boot, Server}
use mouse.Prelude.{◌∷◌, ◌++◌, codes, some, Bool, [], ◌&&◌, if◌then◌else◌, Option, Text, text_eq}
use mouse.Strings.{Unicode}
use mouse.Telegram.Webhook.{set_webhook}
use mouse.Sessions.{change_files, create_file}
use mouse.Host.{Env}
use mouse.Host.Action.{perform, wrap, log, ◌>>=◌, pure, ◌>>◌, Action}
use mouse.Config.{Config, Outside, ensure_runtime_dirs, load}

-- How far `main` gets, if it does not exit with an error: to the end of `-check`, to a server that
-- listens, or to a registration that panics.
pub data Started : Type 0 where
  checked : Started
  serving : Server → Started
  crashed : Started

-- `SetFile`; the lines that are written to the file are not kept
set_file : ⦃env : Env⦄ → Text → Action (Unit {0})
unfolding create_file text_eq
set_file path = if text_eq path [] then pure tt else (do
  wrap (codes "log mkdir: ") (perform (λ w. w))
  wrap (codes "log open: ") (perform (change_files (create_file path))))

set_up_log : ⦃env : Env⦄ → Config → Action (Unit {0})
unfolding set_file text_eq
set_up_log cfg =
    if text_eq cfg.app.workspace []
    then pure tt
    else wrap (codes "log setup error: ") (set_file (cfg.app.workspace ++ codes "/logs/mouse.log"))

register_webhook : ⦃env : Env⦄ → Config → Action (Unit {0})
unfolding set_webhook
register_webhook cfg =
    if cfg.telegram.enabled && cfg.telegram.webhook.enabled
    then wrap (codes "webhook error: ") (
        set_webhook cfg.telegram.bot_token cfg.telegram.webhook.public_url cfg.telegram.webhook.path
          cfg.telegram.webhook.secret (some (codes "telegram-webhook")))
    else pure tt

-- The server is about to listen, or the start panicked.
announce : Text → Boot → Action Started
announce addr panics = pure crashed
announce addr (up s) = do
  log (some (codes "mouse")) (codes "info") (codes "gateway starting") ((codes "addr", addr) ∷ [])
  pure (serving s)

module _ ⦃u : Unicode⦄ ⦃env : Env⦄ where
  serve_configured : Config → Text → Action Started
  unfolding new_server announce
  serve_configured cfg addr = do
    booted ← wrap (codes "gateway error: ") (new_server cfg (some (codes "mouse")))
    announce addr booted

  -- `main` behind the checks
  boot : Config → Text → Action Started
  unfolding set_up_log register_webhook serve_configured
  boot cfg addr = do set_up_log cfg; register_webhook cfg; serve_configured cfg addr

  -- What follows `Load`.
  prepare : Text → Bool → Config → Action Started
  unfolding ensure_runtime_dirs boot
  prepare addr check_only cfg = do
    wrap (codes "runtime dirs error: ") (ensure_runtime_dirs cfg)
    if check_only then pure checked else boot cfg addr

  -- `main`, with its three flags; an error is what it prints before it exits with 1
  unfoldable pub start : Outside → Text → Text → Bool → Action Started
  unfolding load prepare
  start out path addr check_only = do
    cfg ← wrap (codes "config error: ") (load out path)
    prepare addr check_only cfg
