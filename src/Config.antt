-- ===== src/Config.antt =====
-- internal/config/config.go: the configuration, its expansion and its checks. The sections that other
-- packages take whole (sandbox, cron jobs) are declared with those.

pub mod Expand
pub mod Checks
use mouse.Sandbox.{SandboxConfig}
use mouse.Strings.{trim_space, trim_prefix, has_prefix}
use mouse.Prelude.{
  some, none, zero, ok, map, is_empty, suc, ◌∷◌, ◌++◌, codes, Option, not, ℕ, [], if◌then◌else◌,
  err, Result, Text, List, text_eq, Bool,
}
use mouse.Host.{Env}
use mouse.Prelude.Int.{ℤ}
use mouse.Prelude.Dict.{lookup}
use mouse.Host.Action.{fail, query, perform, ◌>>◌, wrap, pure, ◌>>=◌, Action}
use mouse.Cron.{CronConfig, CronJob}
use mouse.Strings.Paths.{directory}

pub record WebhookConfig : Type 0 where
  pub enabled : Bool
  pub public_url : Text
  pub path : Text
  pub secret : Text

pub record TelegramGroups : Type 0 where
  pub allow : List Text
  pub require_mention : Bool

pub record TelegramConfig : Type 0 where
  pub enabled : Bool
  pub webhook : WebhookConfig
  pub bot_token : Text
  pub allow_from : List Text
  pub groups : TelegramGroups

pub record AppConfig : Type 0 where
  pub name : Text
  pub workspace : Text
  pub timezone : Text

pub record LlmConfig : Type 0 where
  pub provider : Text
  pub api_key : Text
  pub model : Text
  pub max_tokens : ℤ

pub record SessionsConfig : Type 0 where
  pub store : Text
  pub dir : Text
  pub max_history_messages : ℤ

pub record MemoryConfig : Type 0 where
  pub store : Text
  pub dir : Text
  pub auto_sync : Bool

-- `IndexConfig`, with the paths of its `WatchConfig`; the vector section is read nowhere
pub record IndexConfig : Type 0 where
  pub sqlite_path : Text
  pub watch_paths : List Text

pub record Config : Type 0 where
  pub app : AppConfig
  pub telegram : TelegramConfig
  pub llm : LlmConfig
  pub sessions : SessionsConfig
  pub memory : MemoryConfig
  pub index : IndexConfig
  pub sandbox : SandboxConfig
  pub cron : CronConfig

-- What is outside the program: the process's environment, and `yaml.Unmarshal`.
pub record Outside : Type 0 where
  pub getenv : Text → Text
  pub decode_yaml : Text → Result Config

abbrev token : Text
token = codes "${app.workspace}"

-- `strings.ReplaceAll` of the token, from left to right; `skip` characters belong to one that was
-- replaced.
unfoldable pub replace_token : Text → ℕ → Text → Text
unfolding has_prefix
replace_token by skip [] = []
replace_token by (suc skip) (c ∷ s) = replace_token by skip s
replace_token by zero (c ∷ s) =
    let here = has_prefix (c ∷ s) token in
    let rest = replace_token by (if here then 15 else 0) s in if here then by ++ rest else c ∷ rest

-- `expandWorkspace`
unfoldable pub expand_workspace : Text → Text → Text
unfolding replace_token
expand_workspace value workspace = replace_token workspace 0 value

-- `expandEnvValue`
unfoldable pub expand_env_value : Outside → Text → Text
unfolding has_prefix trim_prefix trim_space text_eq
expand_env_value out value =
    if has_prefix value (codes "env:")
    then (let key = trim_space (trim_prefix value (codes "env:")) in
        if text_eq key [] then [] else out.getenv key)
    else value

-- `expandEnv`
unfoldable pub expand_env : Outside → Config → Config
unfolding expand_env_value
expand_env out c = record c {
  telegram = record c.telegram {
    bot_token = expand_env_value out c.telegram.bot_token;
    webhook = record c.telegram.webhook { secret = expand_env_value out c.telegram.webhook.secret };
  };
  llm = record c.llm { api_key = expand_env_value out c.llm.api_key };
}

-- `expandWorkspaceRefs`
unfoldable pub expand_workspace_refs : Config → Config
unfolding expand_workspace text_eq
expand_workspace_refs c =
    let expand = λ (value : Text). expand_workspace value c.app.workspace in
    if text_eq c.app.workspace [] then c else record c {
      sessions = record c.sessions { dir = expand c.sessions.dir };
      memory = record c.memory { dir = expand c.memory.dir };
      index = record {
        sqlite_path = expand c.index.sqlite_path;
        watch_paths = map expand c.index.watch_paths;
      };
      sandbox = record c.sandbox {
        docker = record c.sandbox.docker { binds = map expand c.sandbox.docker.binds };
      };
    }

abbrev pub Checked : Type 0
Checked = Result (Unit {0})

-- `if … { return errors.New(message) }`, and what follows
abbrev reject_if : Bool → Text → Checked → Checked
reject_if bad message rest = if bad then err message else rest

-- The checks of the sections, in the order of `Validate`.
unfoldable pub check_sandbox : SandboxConfig → Checked
unfolding text_eq
check_sandbox s =
    if s.enabled
    then reject_if (text_eq s.docker.image [])
        (codes "config: sandbox.docker.image is required when sandbox is enabled")
        (reject_if (is_empty s.docker.binds)
          (codes "config: sandbox.docker.binds must include workspace bind") (ok tt))
    else ok tt

-- `%q` quotes the store's name; the quotes are written without escapes.
unfoldable pub check_stores : Config → Checked
unfolding check_sandbox text_eq
check_stores c =
    reject_if (not (text_eq c.sessions.store (codes "markdown")))
      (codes "config: sessions.store must be markdown, got \"" ++ (c.sessions.store ++ codes "\""))
      (reject_if (not (text_eq c.memory.store (codes "markdown")))
        (codes "config: memory.store must be markdown, got \"" ++ (c.memory.store ++ codes "\""))
        (check_sandbox c.sandbox))

unfoldable pub check_webhook : WebhookConfig → Checked → Checked
unfolding text_eq
check_webhook h rest =
    if h.enabled
    then reject_if (text_eq h.path [])
        (codes "config: telegram.webhook.path is required when webhook is enabled")
        (reject_if (text_eq h.public_url [])
          (codes "config: telegram.webhook.public_url is required when webhook is enabled") rest)
    else rest

unfoldable pub check_telegram : TelegramConfig → Checked → Checked
unfolding check_webhook text_eq
check_telegram t rest =
    if t.enabled
    then reject_if (text_eq t.bot_token [])
        (codes "config: telegram.bot_token is required when telegram.enabled is true")
        (reject_if (is_empty t.allow_from)
          (codes "config: telegram.allow_from must include at least one sender")
          (check_webhook t.webhook rest))
    else rest

-- `Validate`
unfoldable pub validate : Config → Checked
unfolding check_telegram check_stores text_eq
validate c = reject_if (text_eq c.app.name []) (codes "config: app.name is required") (
    reject_if (text_eq c.app.workspace []) (codes "config: app.workspace is required")
      (check_telegram c.telegram (check_stores c)))

module _ ⦃env : Env⦄ where
  -- `Load` behind the reading of the file.
  expand_and_check : Outside → Result Config → Result Config
  unfolding expand_env expand_workspace_refs validate
  expand_and_check out (err e) = err (codes "parse config: " ++ e)
  expand_and_check out (ok raw) =
      let c = expand_workspace_refs (expand_env out raw) in
      elim (validate c) [ ok _ ↦ ok c | err e ↦ err e ]

  parse_config : Outside → Option Text → Action Config
  unfolding expand_and_check
  parse_config out none w = (err (codes "read config: "), w)
  parse_config out (some text) w = (expand_and_check out (out.decode_yaml text), w)

  -- `Load`; a path that names no file is an error whose text is left out
  unfoldable pub load : Outside → Text → Action Config
  unfolding parse_config lookup
  load out path = do
    raw ← wrap (codes "read config: ") (query (λ w. lookup path w.files))
    parse_config out raw

  -- The loop of `EnsureRuntimeDirs`; a directory is no part of the world
  make_dirs : List Text → Action (Unit {0})
  unfolding text_eq
  make_dirs [] = pure tt
  make_dirs (dir ∷ dirs) = do
    if text_eq dir []
        then pure tt
        else wrap (codes "create dir " ++ (dir ++ codes ": ")) (perform (λ w. w))
    make_dirs dirs

  -- `EnsureRuntimeDirs`
  unfoldable pub ensure_runtime_dirs : Config → Action (Unit {0})
  unfolding make_dirs directory
  ensure_runtime_dirs c =
      make_dirs
        (c.app.workspace ∷ c.sessions.dir ∷ c.memory.dir ∷ directory c.index.sqlite_path ∷ [])
