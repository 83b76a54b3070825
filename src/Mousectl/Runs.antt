-- ===== src/Mousectl/Runs.antt =====
-- cmd/mousectl/main.go with internal/tools/handler.go: `mousectl run` against the handler of the
-- server.
use mouse.Host.{Env, World}
use mouse.Host.Http.{method_post, status_ok}
use mouse.Mousectl.Calls.{answered, unreached, Answer as Reply, Call, Flags, Remote, ResultResponse}
use mouse.Mousectl.Output.{run_answered, run_result}
use mouse.Mousectl.{run_call, run_cmd}
use mouse.Prelude.{
  arith, err, false, inl, inr, is_empty, none, ok, refl, some, true, [], ◌∷◌, ◌≡◌, ◌↔◌, Bool-cases,
  List, Option, Result, Text, ℕ,
}
use mouse.Prelude.Int.{pos}
use mouse.Sandbox.{run, Runner}
use mouse.Strings.{Unicode}
use mouse.Tools.Handler.{serve_http, Answer, Response}
use mouse.Tools.Handler.Safety.{configured}
use mouse.Tools.Handler.Success.{serve_http-TellsSuccess, RunsWell, TellsSuccess}
use mouse.Tools.Policy.{allowed, Policy}

-- The handler's answer as the client gets it: `encode` writes the payload as JSON.
abbrev pub respond : (Response → Text) → Result Answer → Reply
respond encode (ok (code, some payload)) = answered code (encode payload)
respond encode (ok (code, none)) = answered code []
respond encode (err e) = unreached e

-- The payload in the client's words.
abbrev pub result_of : Response → ResultResponse
result_of payload = record {
  is_ok = payload.is_ok;
  stdout = payload.stdout;
  stderr = payload.stderr;
  exit_code = payload.exit_code;
  duration_ms = pos payload.duration_ms;
  error = payload.error;
}

misuse : ◌≡◌ {A = ℕ} 2 0 → ⊥
misuse e = omega arith

is_empty-nil : (xs : List Text) → is_empty xs ≡ true → xs ≡ []
is_empty-nil [] h = refl
is_empty-nil (x ∷ xs) h = ground arith

module _ ⦃remote : Remote⦄ where
  -- The client succeeds exactly if the answer tells of success.
  result-TellsSuccess :
      (call : Call) (code : ℕ) (payload : Response)
      → ((run_result call code (result_of payload)).status ≡ 0)
        ↔ ((code ≡ status_ok) × (payload.is_ok ≡ true))
  unfolding run_result
  result-TellsSuccess call code payload = ground arith

  client-TellsSuccess :
      (encode : Response → Text) (call : Call) (a : Result Answer)
      → ((payload : Response) → remote.decode_result (encode payload) ≡ result_of payload)
      → (remote.decode_result []).is_ok ≡ false
      → ((run_answered call (respond encode a)).status ≡ 0) ↔ TellsSuccess a
  unfolding run_answered run_result
  client-TellsSuccess encode call (ok (code, some payload)) wired empty =
      rw (wired payload) (result-TellsSuccess call code payload)
  client-TellsSuccess encode call (ok (code, none)) wired empty = ground arith
  client-TellsSuccess encode call (err e) wired empty = ((λ e. omega arith), (λ told. absurd told))

  -- Over a connection that brings the request's tool and command to a handler with a policy and a
  -- runner, and its answer back: `mousectl run` exits with 0 exactly if the policy allows the tool
  -- and there is a command, whose process the handler starts and sees exit with 0.
  pub run_cmd-RunsWell :
      ⦃u : Unicode⦄ ⦃env : Env⦄ (encode : Response → Text) (f : Flags) (p : Policy) (r : Runner)
      (logger : Option Text) (w : World)
      → ((payload : Response) → remote.decode_result (encode payload) ≡ result_of payload)
      → (remote.decode_result []).is_ok ≡ false
      → remote.answer (run_call f)
        ≡ respond encode
            (serve_http
              (configured p r logger)
              method_post
              (some (record { tool = f.tool; command = f.args }))
              w).0
      → ((run_cmd f).status ≡ 0)
        ↔ ((allowed (some p) f.tool ≡ true) × RunsWell (run (some r) f.args w).0)
  unfolding run_cmd run
  run_cmd-RunsWell encode f p r logger w wired empty brought = elim (Bool-cases (is_empty f.args)) [
    | inl nothing ↦
        rw (nothing, is_empty-nil f.args nothing)
          ((λ e. absurd (misuse e)), (λ well. absurd well.1))
    | inr asked ↦
        rw (asked, brought)
          (let client = client-TellsSuccess encode (run_call f) _ wired empty in
            let server = serve_http-TellsSuccess p r logger f.tool f.args w in
            ((λ done. server.0 (client.0 done)), (λ well. client.1 (server.1 well))))
  ]
