-- ===== src/Cron/Runs.antt =====
-- What a run of a job leaves alone.
use mouse.Cron.{Scheduler, Job, run_job, run_prompt, step, or_log, job_error}
use mouse.Prelude.{
  codes, inr, inl, [], refl, none, ok, text_eq, err, some, Bool-cases, ℕ, Result, arith, ap, Option,
  ◌≡◌, ◌∙◌, ◌≢◌, Text,
}
use mouse.Strings.{trim_space, Unicode}
use mouse.Host.{World, Env}
use mouse.Sqlite.Messages.{select_messages, append_session_message}
use mouse.Sessions.{append, or_unknown, session_path, Store}
use mouse.Sqlite.Base.{open_db, nil_db, Db}
use mouse.Prelude.Dict.{Dict, lookup}
use mouse.Host.Action.{log, Action}
use mouse.Llm.Replies.{complete_prompt_frame}
use mouse.Sqlite.Messages.Laws.{select-append_ne}
use mouse.Sessions.Files.{append_frame}
use mouse.Llm.{complete_prompt}

-- Between two worlds no file but this one changed, and no session's messages but this one's.
pub record Beside (path sid : Text) (w w' : World) : Type 0 where
  pub files : (q : Text) → path ≢ q → lookup q w'.files ≡ lookup q w.files
  pub messages :
      (s' : Text) (n : ℕ) → sid ≢ s' → select_messages s' n w'.db ≡ select_messages s' n w.db

module _ (path sid : Text) where
  Beside-trans : (a b c : World) → Beside path sid a b → Beside path sid b c → Beside path sid a c
  Beside-trans a b c f g = record {
    files = λ q ne. g.files q ne ∙ f.files q ne;
    messages = λ s' n ne. g.messages s' n ne ∙ f.messages s' n ne;
  }

  Beside-same : (a b : World) → b.files ≡ a.files → b.db ≡ a.db → Beside path sid a b
  Beside-same a b e d = record {
    files = λ q ne. ap (lookup q) e;
    messages = λ s' n ne. ap (select_messages s' n) d;
  }

module _ ⦃u : Unicode⦄ ⦃env : Env⦄ where
  log-Beside :
      (path sid : Text) (logger : Option Text) (level message : Text) (about : Dict Text)
      (w : World)
      → Beside path sid w (log logger level message about w).1
  log-Beside path sid none level message about w = Beside-same path sid w w refl refl
  log-Beside path sid (some service) level message about w = Beside-same path sid w _ refl refl

  or_log-Beside {ℓ} :
      {A : Type ℓ} (path sid : Text) (logger : Option Text) (message : Text) (job : Job)
      (more : A → Action (Unit {0})) (r : Result A) (w w₁ : World)
      → Beside path sid w w₁
      → ((a : A) (w₂ : World) → Beside path sid w₂ (more a w₂).1)
      → Beside path sid w (or_log logger message job more r w₁).1
  unfolding or_log job_error
  or_log-Beside path sid logger message job more (err e) w w₁ f g =
      Beside-trans path sid w w₁ _ f (log-Beside path sid logger _ _ _ w₁)
  or_log-Beside path sid logger message job more (ok a) w w₁ f g =
      Beside-trans path sid w w₁ _ f (g a w₁)

  step-Beside {ℓ} :
      {A : Type ℓ} (path sid : Text) (logger : Option Text) (message : Text) (job : Job)
      (m : Action A) (more : A → Action (Unit {0})) (w : World)
      → ((w₁ : World) → Beside path sid w₁ (m w₁).1)
      → ((a : A) (w₂ : World) → Beside path sid w₂ (more a w₂).1)
      → Beside path sid w (step logger message job m more w).1
  unfolding step
  step-Beside path sid logger message job m more w f g =
      or_log-Beside path sid logger message job more (m w).0 w (m w).1 (f w) g

  append-Beside :
      (s : Store) (id role content : Text) (w : World)
      → Beside (session_path s (or_unknown id)) id w (append s id role content w).1
  append-Beside s id role content w =
      let (files, db, _, _) = append_frame s id role content w in
      record { files = files; messages = λ s' n ne. ap (select_messages s' n) db }

  table-Beside :
      (path : Text) (d : Db) (id role content : Text) (w : World)
      → Beside path id w (append_session_message d id role content w).1
  unfolding append_session_message
  table-Beside path nil_db id role content w = Beside-same path id w w refl refl
  table-Beside path open_db id role content w = record {
    files = λ q ne. ap (lookup q) (ground arith);
    messages = λ s' n ne. select-append_ne id s' role content n w ne;
  }

  run_prompt-Beside :
      (s : Scheduler) (job : Job) (prompt : Text) (w : World)
      → Beside
          (session_path s.sessions (or_unknown job.session))
          job.session
          w
          (run_prompt s job prompt w).1
  unfolding run_prompt
  run_prompt-Beside s job prompt w =
      let sid = job.session in
      let path = session_path s.sessions (or_unknown sid) in
      step-Beside path sid _ _ job (append s.sessions sid (codes "system") prompt) _ w
        (append-Beside s.sessions sid _ _)
        λ _ w₁.
          step-Beside path sid _ _ job (append_session_message s.db sid (codes "system") prompt) _
            w₁ (table-Beside path s.db sid _ _)
            λ _ w₂.
              step-Beside path sid _ _ job (complete_prompt s.llm prompt) _ w₂
                (λ w₃.
                  let (files, db) = complete_prompt_frame s.llm prompt w₃ in
                  Beside-same path sid w₃ _ files db)
                λ response w₃.
                  step-Beside path sid _ _ job (append s.sessions sid (codes "assistant") response)
                    _ w₃ (append-Beside s.sessions sid _ _)
                    λ _ w₄.
                      step-Beside path sid _ _ job
                        (append_session_message s.db sid (codes "assistant") response) _ w₄
                        (table-Beside path s.db sid _ _) λ _ w₅. log-Beside path sid _ _ _ _ w₅

  -- Whatever fails, a run of a job changes no file but the transcript of its session, and no
  -- session's messages but those of its own.
  pub run_job-Beside :
      (s : Scheduler) (job : Job) (w : World)
      → Beside (session_path s.sessions (or_unknown job.session)) job.session w (run_job s job w).1
  unfolding run_job
  run_job-Beside s job w = elim (Bool-cases (text_eq (trim_space job.prompt) [])) [
    | inl blank ↦ rw blank (Beside-same _ _ w w refl refl)
    | inr said ↦ rw said (run_prompt-Beside s job (trim_space job.prompt) w)
  ]
