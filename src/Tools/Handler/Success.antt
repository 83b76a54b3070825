-- ===== src/Tools/Handler/Success.antt =====
-- internal/tools/handler.go: which requests are told that their command was a success.
use mouse.Host.{Env, World}
use mouse.Host.Action.{pure, ◌>>◌, ◌>>=◌, log}
use mouse.Host.Http.{
  status_forbidden, status_bad_request, status_internal_error, method_post, status_ok,
}
use mouse.Prelude.{
  sym, arith, codes, err, false, if◌then◌else◌, inl, inr, is_empty, none, not, ok, refl, some,
  text_eq, true, [], ◌&&◌, ◌∙◌, ◌∷◌, ◌≡◌, ◌↔◌, Bool-cases, List, Option, Result, Text,
}
use mouse.Prelude.Int.{negsuc, pos, ℤ}
use mouse.Sandbox.{RunResult, run, Ran, Runner}
use mouse.Strings.{trim_space, Unicode}
use mouse.Tools.Handler.{
  milliseconds, Response, log_success, write_error, log_failure, exit_zero, log_denied, report,
  serve_decoded, serve_http, serve_tool, Answer, Handler,
}
use mouse.Tools.Handler.Safety.{configured, not_blank}
use mouse.Tools.Policy.{allowed, Policy}
use mouse.Prelude.Dict.{Dict}

-- The answer is 200 with a payload that says that the command was a success.
abbrev pub TellsSuccess : Result Answer → Type 0
TellsSuccess (ok (code, some payload)) = (code ≡ status_ok) × (payload.is_ok ≡ true)
TellsSuccess (ok (code, none)) = ⊥
TellsSuccess (err e) = ⊥

-- The process exited with 0.
abbrev pub RunsWell : Result Ran → Type 0
RunsWell (ok (result, none)) = result.exit_code ≡ pos 0
RunsWell (ok (result, some e)) = ⊥
RunsWell (err e) = ⊥

exit_zero_iff : (code : ℤ) → (exit_zero code ≡ true) ↔ (code ≡ pos 0)
unfolding exit_zero
exit_zero_iff (pos n) = ground arith
exit_zero_iff (negsuc n) = ground arith

-- A line in the log changes no answer.
log_then :
    (logger : Option Text) (level message : Text) (about : Dict Text) (a : Answer) (w : World)
    → ((log logger level message about >> pure a) w).0 ≡ ok a
log_then none level message about a w = refl
log_then (some service) level message about a w = refl

bad_ne : status_bad_request ≡ status_ok → ⊥
bad_ne e = omega arith

forbidden_ne : status_forbidden ≡ status_ok → ⊥
forbidden_ne e = omega arith

ok_ne : status_internal_error ≡ status_ok → ⊥
ok_ne e = omega arith

true-ne-false : true ≡ false → ⊥
true-ne-false e = ground arith

module _ ⦃u : Unicode⦄ ⦃env : Env⦄ where
  report-failed :
      (h : Handler) (tool : Text) (result : RunResult) (e : Text) (w : World)
      → (report h tool (result, some e) w).0 ≡ ok (write_error status_internal_error e)
  unfolding report log_failure
  report-failed h tool result e w = log_then h.logger _ _ _ _ w

  -- The payload of a process that ended by itself.
  abbrev payload : RunResult → Response
  payload result = record {
    is_ok = exit_zero result.exit_code;
    stdout = result.stdout;
    stderr = result.stderr;
    exit_code = result.exit_code;
    duration_ms = milliseconds result.duration;
    error = [];
  }

  report-ended :
      (h : Handler) (tool : Text) (result : RunResult) (w : World)
      → (report h tool (result, none) w).0 ≡ ok (status_ok, some (payload result))
  unfolding report log_success log_failure
  report-ended h tool result w = elim (Bool-cases (exit_zero result.exit_code)) [
    | inl good ↦ rw good (log_then h.logger _ _ _ _ w)
    | inr bad ↦ rw bad (log_then h.logger _ _ _ _ w)
  ]

  report-TellsSuccess :
      (h : Handler) (tool : Text) (ran : Ran) (w : World)
      → TellsSuccess (report h tool ran w).0 ↔ RunsWell (ok ran)
  unfolding write_error
  report-TellsSuccess h tool (result, some e) w =
      rw (report-failed h tool result e w) ((λ told. absurd (ok_ne told.0)), (λ well. absurd well))
  report-TellsSuccess h tool (result, none) w =
      let iff = exit_zero_iff result.exit_code in
      rw (report-ended h tool result w) ((λ told. iff.0 told.1), (λ well. (refl, iff.1 well)))

  run-TellsSuccess :
      (h : Handler) (tool : Text) (r : Runner) (c : Text) (cs : List Text) (w : World)
      → TellsSuccess ((run (some r) (c ∷ cs) >>= report h tool) w).0
        ↔ RunsWell (run (some r) (c ∷ cs) w).0
  unfolding run
  run-TellsSuccess h tool r c cs w = report-TellsSuccess h tool _ _

  -- The policy's answer for the tool as it stands and for the trimmed one.
  denied_too :
      (p : Policy) (tool : Text)
      → (not (text_eq (trim_space tool) []) && allowed (some p) (trim_space tool)) ≡ false
      → (allowed (some p) tool ≡ true)
      → ⊥
  denied_too p tool denied fine = true-ne-false (sym fine ∙ sym (not_blank p tool) ∙ denied)

  -- Behind the guards.
  command-TellsSuccess :
      (p : Policy) (r : Runner) (logger : Option Text) (tool : Text) (command : List Text)
      (w : World)
      → (allowed (some p) tool ≡ true)
      → TellsSuccess
          ((if is_empty command
              then pure (write_error status_bad_request (codes "command is required"))
              else (run (some r) command >>= report (configured p r logger) (trim_space tool)))
            w).0
        ↔ ((allowed (some p) tool ≡ true) × RunsWell (run (some r) command w).0)
  unfolding run write_error
  command-TellsSuccess p r logger tool [] w fine =
      ((λ told. absurd (bad_ne told.0)), (λ well. absurd well.1))
  command-TellsSuccess p r logger tool (c ∷ cs) w fine =
      let iff = run-TellsSuccess (configured p r logger) (trim_space tool) r c cs w in
      ((λ told. (fine, iff.0 told)), (λ well. iff.1 well.1))

  -- In a handler with a policy and a runner, the answer to a POST of a tool and a command is 200
  -- with a payload that says that the command was a success exactly if the policy allows the tool,
  -- there is a command and the process that is started for it exits with 0.
  pub serve_http-TellsSuccess :
      (p : Policy) (r : Runner) (logger : Option Text) (tool : Text) (command : List Text)
      (w : World)
      → TellsSuccess
          (serve_http
            (configured p r logger)
            method_post
            (some (record { tool = tool; command = command }))
            w).0
        ↔ ((allowed (some p) tool ≡ true) × RunsWell (run (some r) command w).0)
  unfolding serve_http serve_decoded serve_tool log_denied write_error text_eq
  serve_http-TellsSuccess p r logger tool command w =
      elim (Bool-cases (text_eq (trim_space tool) [])) [
        | inl blank ↦ rw blank (
          (λ told. absurd (bad_ne told.0)),
          (λ well. absurd (denied_too p tool (rw blank refl) well.0)),
        )
        | inr named ↦ elim (Bool-cases (allowed (some p) (trim_space tool))) [
          | inr denied ↦
              rw (named, denied, log_then logger _ _ _ _ w)
                (
                  (λ told. absurd (forbidden_ne told.0)),
                  (λ well. absurd (denied_too p tool (rw (named, denied) refl) well.0)),
                )
          | inl fine ↦
              rw (named, fine)
                (command-TellsSuccess p r logger tool command w
                  (sym (not_blank p tool) ∙ rw (named, fine) refl))
        ]
      ]
