-- ===== src/Sandbox.antt =====
-- internal/sandbox/runner.go: commands run in a Docker container.
pub mod Args
use mouse.Prelude.{
  ℕ, is_empty, ◌-◌, Bool, true, false, Option, none, some, List, [], ◌∷◌, ◌++◌, Text, codes,
  text_eq, if◌then◌else◌, Result, ok, err,
}
use mouse.Prelude.Int.{ℤ, pos, negsuc}
use mouse.Strings.{trim_space, is_blank}
use mouse.Host.{Env, Exit, exited, interrupted, not_run}
use mouse.Host.Action.{Action, pure, fail, ◌>>=◌, read_clock, start_process}

-- `DockerConfig` of internal/config/config.go
pub record DockerConfig : Type 0 where
  pub image : Text
  pub workdir : Text
  pub binds : List Text
  pub read_only_root : Bool
  pub network : Text
  pub tmpfs : List Text

-- `ToolPolicy` of internal/config/config.go
pub record ToolPolicy : Type 0 where
  pub allow : List Text
  pub deny : List Text

-- `SandboxConfig` of internal/config/config.go
pub record SandboxConfig : Type 0 where
  pub enabled : Bool
  pub docker : DockerConfig
  pub tools : ToolPolicy

pub record Runner : Type 0 where
  pub cfg : SandboxConfig

pub record RunResult : Type 0 where
  pub command : List Text
  pub stdout : Text
  pub stderr : Text
  pub exit_code : ℤ
  pub duration : ℕ

-- `New`
unfoldable pub new : SandboxConfig → Result Runner
unfolding is_blank
new cfg =
    if cfg.enabled
    then (if is_blank cfg.docker.image
        then err (codes "sandbox: docker image is required")
        else if is_empty cfg.docker.binds
        then err (codes "sandbox: docker binds are required")
        else ok (record { cfg = cfg }))
    else err (codes "sandbox: disabled")

-- One flag with its value for each item that is not blank: the loops over Binds and Tmpfs.
unfoldable pub flag_each : Text → List Text → List Text
unfolding trim_space text_eq
flag_each flag [] = []
flag_each flag (item ∷ items) =
    let trimmed = trim_space item in
    let rest = flag_each flag items in if text_eq trimmed [] then rest else flag ∷ trimmed ∷ rest

unfoldable pub network_of : Text → Text
unfolding trim_space text_eq
network_of network =
    let trimmed = trim_space network in if text_eq trimmed [] then codes "none" else trimmed

unfoldable pub workdir_args : Text → List Text
unfolding trim_space text_eq
workdir_args workdir =
    let trimmed = trim_space workdir in if text_eq trimmed [] then [] else codes "-w" ∷ trimmed ∷ []

-- What stands before the image: `args` up to the last two appends.
unfoldable pub docker_options : DockerConfig → List Text
unfolding flag_each network_of workdir_args
docker_options cfg =
    codes "run"
    ∷ codes "--rm"
    ∷ ((if cfg.read_only_root then codes "--read-only" ∷ [] else [])
        ++ (codes "--network"
            ∷ network_of cfg.network
            ∷ (workdir_args cfg.workdir
                ++ (flag_each (codes "-v") cfg.binds ++ flag_each (codes "--tmpfs") cfg.tmpfs))))

-- `buildDockerArgs`
unfoldable pub build_docker_args : DockerConfig → List Text → List Text
unfolding docker_options
build_docker_args cfg command = docker_options cfg ++ (cfg.image ∷ command)

-- `exitCode`, of the error that `Run` returned
unfoldable pub exit_code_of : Exit → ℤ
exit_code_of (exited code out errs) = code
exit_code_of (interrupted e out errs) = negsuc 0
exit_code_of (not_run e out errs) = negsuc 0

abbrev stdout_of : Exit → Text
stdout_of (exited code out errs) = out
stdout_of (interrupted e out errs) = out
stdout_of (not_run e out errs) = out

abbrev stderr_of : Exit → Text
stderr_of (exited code out errs) = errs
stderr_of (interrupted e out errs) = errs
stderr_of (not_run e out errs) = errs

-- The error that `Run` of this package returns beside its result.
abbrev error_of : Exit → Option Text
error_of (exited code out errs) = none
error_of (interrupted e out errs) = some e
error_of (not_run e out errs) = some (codes "sandbox: command failed: " ++ e)

-- A result comes back beside the error too: the handler logs it.
abbrev pub Ran : Type 0
Ran = RunResult × Option Text

abbrev no_result : RunResult
no_result = record { command = []; stdout = []; stderr = []; exit_code = pos 0; duration = 0 }

module _ ⦃env : Env⦄ where
  -- `Run`; `none` is a nil runner
  unfoldable pub run : Option Runner → List Text → Action Ran
  unfolding build_docker_args exit_code_of
  run none command = pure (no_result, some (codes "sandbox: runner is nil"))
  run (some r) [] = pure (no_result, some (codes "sandbox: command is required"))
  run (some r) (c ∷ cs) = do
    let args = build_docker_args r.cfg.docker (c ∷ cs)
    start ← read_clock
    ended ← start_process (codes "docker" ∷ args)
    finish ← read_clock
    let result : RunResult = record {
      command = codes "docker" ∷ args;
      stdout = stdout_of ended;
      stderr = stderr_of ended;
      exit_code = exit_code_of ended;
      duration = finish - start;
    }
    pure (result, error_of ended)
