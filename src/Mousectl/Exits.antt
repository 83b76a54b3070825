-- ===== src/Mousectl/Exits.antt =====
-- cmd/mousectl/main.go: what the exit status of a command tells.
use mouse.Host.Http.{status_ok}
use mouse.Mousectl.Calls.{answered, parsed, unreached, Answer, Call, Flags, Outcome, Remote}
use mouse.Mousectl.Output.{confirmed, run_answered, run_result, search_answered, status_answered}
use mouse.Mousectl.{
  approve_args, approve_cmd, command, defaults, dispatch, main, on_flags, reindex_cmd, run_cmd,
  search_cmd, status_cmd,
}
use mouse.Prelude.{
  if◌then◌else◌, arith, codes, false, inl, inr, is_empty, none, refl, some, text_eq, true, [], ◌==◌,
  ◌∷◌, ◌≡◌, ◌≢◌, ◌⊎◌, Bool, Bool-cases, List, Option, Text, ℕ, ==_iff,
}

module _ ⦃remote : Remote⦄ where
  -- What a body says of the request: for `run`, whether the command was a success.
  abbrev pub success : Text → Text → Bool
  success name body = if text_eq name (codes "run") then (remote.decode_result body).is_ok else true

  module _ (good : Text → Bool) where
    -- There was a request, and it was answered with 200 and a good body.
    abbrev Confirmed : Option Call → Type 0
    Confirmed none = ⊥
    Confirmed (some call) =
        (body : Text) × (remote.answer call ≡ answered status_ok body) × (good body ≡ true)

    -- There was a request, and it was not.
    abbrev Denied : Option Call → Type 0
    Denied none = ⊥
    Denied (some call) =
        ((e : Text) × (remote.answer call ≡ unreached e))
        ⊎ ((code : ℕ) × (body : Text) × (remote.answer call ≡ answered code body)
            × ((code ≢ status_ok) ⊎ (good body ≡ false)))

    -- Success if it was, failure if it was not, or a misuse before anything is sent.
    abbrev pub IsHonest : Outcome → Type 0
    IsHonest o =
        ((o.status ≡ 0) × (o.complaint ≡ []) × Confirmed o.sent)
        ⊎ ((o.status ≡ 1) × (o.out ≡ []) × Denied o.sent)
        ⊎ ((o.status ≡ 2) × (o.out ≡ []) × (o.sent ≡ none))

  not_ok : (code : ℕ) → (code == status_ok) ≡ false → code ≢ status_ok
  not_ok code h = ground arith

  status-IsHonest :
      (call : Call) (a : Answer)
      → remote.answer call ≡ a
      → IsHonest (λ body. true) (status_answered call a)
  unfolding status_answered
  status-IsHonest call (unreached e) h = inr (inl (refl, refl, inl (e, h)))
  status-IsHonest call (answered code body) h = elim (Bool-cases (code == status_ok)) [
    | inl good ↦ rw good (inl (refl, refl, (body, rw ((==_iff code status_ok).0 good) at h, refl)))
    | inr bad ↦ rw bad (inr (inl (refl, refl, inr (code, body, h, inl (not_ok code bad)))))
  ]

  confirmed-IsHonest :
      (name : Text) (call : Call) (a : Answer)
      → remote.answer call ≡ a
      → IsHonest (λ body. true) (confirmed name call a)
  unfolding confirmed
  confirmed-IsHonest name call (unreached e) h = inr (inl (refl, refl, inl (e, h)))
  confirmed-IsHonest name call (answered code body) h = elim (Bool-cases (code == status_ok)) [
    | inl good ↦ rw good (inl (refl, refl, (body, rw ((==_iff code status_ok).0 good) at h, refl)))
    | inr bad ↦ rw bad (inr (inl (refl, refl, inr (code, body, h, inl (not_ok code bad)))))
  ]

  search-IsHonest :
      (call : Call) (a : Answer)
      → remote.answer call ≡ a
      → IsHonest (λ body. true) (search_answered call a)
  unfolding search_answered
  search-IsHonest call (unreached e) h = inr (inl (refl, refl, inl (e, h)))
  search-IsHonest call (answered code body) h = elim (Bool-cases (code == status_ok)) [
    | inl good ↦ rw good (inl (refl, refl, (body, rw ((==_iff code status_ok).0 good) at h, refl)))
    | inr bad ↦ rw bad (inr (inl (refl, refl, inr (code, body, h, inl (not_ok code bad)))))
  ]

  run-IsHonest :
      (call : Call) (a : Answer)
      → remote.answer call ≡ a
      → IsHonest (λ body. (remote.decode_result body).is_ok) (run_answered call a)
  unfolding run_answered run_result
  run-IsHonest call (unreached e) h = inr (inl (refl, refl, inl (e, h)))
  run-IsHonest call (answered code body) h = elim (Bool-cases (code == status_ok)) [
    | inr bad ↦ rw bad (inr (inl (refl, refl, inr (code, body, h, inl (not_ok code bad)))))
    | inl good ↦ elim (Bool-cases (remote.decode_result body).is_ok) [
      | inl ran ↦
          rw (good, ran) (inl (refl, refl, (body, rw ((==_iff code status_ok).0 good) at h, ran)))
      | inr broke ↦ rw (good, broke) (inr (inl (refl, refl, inr (code, body, h, inr broke))))
    ]
  ]

  approve-IsHonest : (f : Flags) (args : List Text) → IsHonest (λ body. true) (approve_args f args)
  unfolding approve_args
  approve-IsHonest f [] = inr (inr (refl, refl, refl))
  approve-IsHonest f (id ∷ more) = confirmed-IsHonest (codes "approve") _ _ refl

  run_cmd-IsHonest : (f : Flags) → IsHonest (λ body. (remote.decode_result body).is_ok) (run_cmd f)
  unfolding run_cmd
  run_cmd-IsHonest f = elim (Bool-cases (is_empty f.args)) [
    | inl nothing ↦ rw nothing (inr (inr (refl, refl, refl)))
    | inr asked ↦ rw asked (run-IsHonest _ _ refl)
  ]

  search_cmd-IsHonest : (f : Flags) → IsHonest (λ body. true) (search_cmd f)
  unfolding search_cmd
  search_cmd-IsHonest f = elim (Bool-cases (text_eq f.query [])) [
    | inl nothing ↦ rw nothing (inr (inr (refl, refl, refl)))
    | inr asked ↦ rw asked (search-IsHonest _ _ refl)
  ]

  -- The commands that talk to the server, in the order of `main`.
  abbrev pub IsRemote : Text → Type 0
  IsRemote name =
      (name ≡ codes "status")
      ⊎ (name ≡ codes "run")
      ⊎ (name ≡ codes "reindex")
      ⊎ (name ≡ codes "search")
      ⊎ (name ≡ codes "approve")

  -- A command that talks to the server, on flags that can be read: it exits with 0 if it sent a
  -- request that was answered with 200 and, for `run`, with a body that tells of success, and then
  -- it complains of nothing; with 1 if it sent a request that was not answered so, and then it
  -- prints nothing as a result; or with 2, and then it sent nothing and prints nothing as a result.
  pub main-IsHonest :
      (name : Text) (rest : List Text) (f : Flags)
      → IsRemote name
      → remote.parse name defaults rest ≡ parsed f
      → IsHonest (success name) (main (name ∷ rest))
  unfolding main dispatch command on_flags status_cmd reindex_cmd approve_cmd text_eq
  main-IsHonest name rest f (inl e) read = rw (e, rw e at read) (status-IsHonest _ _ refl)
  main-IsHonest name rest f (inr (inl e)) read = rw (e, rw e at read) (run_cmd-IsHonest f)
  main-IsHonest name rest f (inr (inr (inl e))) read =
      rw (e, rw e at read) (confirmed-IsHonest (codes "reindex") _ _ refl)
  main-IsHonest name rest f (inr (inr (inr (inl e)))) read =
      rw (e, rw e at read) (search_cmd-IsHonest f)
  main-IsHonest name rest f (inr (inr (inr (inr e)))) read =
      rw (e, rw e at read) (approve-IsHonest f f.args)
