-- ===== src/Config/Checks.antt =====
-- What `Validate` accepts.
use mouse.Config.{
  parse_config, expand_env, expand_workspace_refs, Checked, expand_and_check, Config, validate,
  load, Outside,
}
use mouse.Prelude.{
  ◌⊎◌, false, none, some, Option, err, Text, Result, refl, text_eq_iff, ◌∷◌, arith, codes, ◌↔◌,
  true, ok, [], is_empty, List, ◌≡◌, ◌≢◌,
}
use mouse.Host.{World, Env}
use mouse.Host.Action.{continue}

-- What a configuration needs: a name and a workspace; for Telegram a token and a sender, and for its
-- webhook a path and a URL; Markdown stores; for the sandbox an image and a bind.
pub record IsValid (c : Config) : Type 0 where
  pub named : c.app.name ≢ []
  pub placed : c.app.workspace ≢ []
  pub has_token : (c.telegram.enabled ≡ false) ⊎ (c.telegram.bot_token ≢ [])
  pub has_sender : (c.telegram.enabled ≡ false) ⊎ (c.telegram.allow_from ≢ [])
  pub has_path :
      (c.telegram.enabled ≡ false)
      ⊎ (c.telegram.webhook.enabled ≡ false)
      ⊎ (c.telegram.webhook.path ≢ [])
  pub has_url :
      (c.telegram.enabled ≡ false)
      ⊎ (c.telegram.webhook.enabled ≡ false)
      ⊎ (c.telegram.webhook.public_url ≢ [])
  pub sessions_store : c.sessions.store ≡ codes "markdown"
  pub memory_store : c.memory.store ≡ codes "markdown"
  pub has_image : (c.sandbox.enabled ≡ false) ⊎ (c.sandbox.docker.image ≢ [])
  pub has_bind : (c.sandbox.enabled ≡ false) ⊎ (c.sandbox.docker.binds ≢ [])

empty_iff {ℓ} : {A : Type ℓ} (xs : List A) → (is_empty xs ≡ true) ↔ (xs ≡ [])
empty_iff [] = (λ _. refl, λ _. refl)
empty_iff (x ∷ xs) = (λ e. cc, λ e. cc)

-- Validation accepts exactly the configurations with a name and a workspace, Markdown stores, and
-- for each section that is on what it needs: a token and a sender for Telegram, a path and a public
-- address for its webhook, an image and a bind for the sandbox.
pub validate_iff : (c : Config) → (validate c ≡ ok tt) ↔ IsValid c
unfolding validate
validate_iff c = ground (
  arith,
  text_eq_iff c.app.name [],
  text_eq_iff c.app.workspace [],
  text_eq_iff c.telegram.bot_token [],
  empty_iff c.telegram.allow_from,
  text_eq_iff c.telegram.webhook.path [],
  text_eq_iff c.telegram.webhook.public_url [],
  text_eq_iff c.sessions.store (codes "markdown"),
  text_eq_iff c.memory.store (codes "markdown"),
  text_eq_iff c.sandbox.docker.image [],
  empty_iff c.sandbox.docker.binds,
)

-- What comes back from `Load` is valid.
abbrev pub AsValid : Result Config → Type 0
AsValid (ok c) = IsValid c
AsValid (err e) = Unit

module _ ⦃env : Env⦄ where
  checked :
      (c : Config) (r : Checked) → validate c ≡ r → AsValid (elim r [ ok _ ↦ ok c | err e ↦ err e ])
  checked c (ok _) h = (validate_iff c).0 h
  checked c (err e) h = tt

  expand_and_check-AsValid : (out : Outside) (r : Result Config) → AsValid (expand_and_check out r)
  unfolding expand_and_check
  expand_and_check-AsValid out (err e) = tt
  expand_and_check-AsValid out (ok raw) =
      checked (expand_workspace_refs (expand_env out raw))
        (validate (expand_workspace_refs (expand_env out raw))) refl

  after_reading :
      (out : Outside) (r : Result (Option Text)) (w : World)
      → AsValid (continue {0, 0} r (parse_config out) w).0
  unfolding parse_config
  after_reading out (err e) w = tt
  after_reading out (ok none) w = tt
  after_reading out (ok (some text)) w = expand_and_check-AsValid out (out.decode_yaml text)

  -- A configuration that is loaded from a file is valid, after its references are expanded,
  -- whatever the file holds and whatever the environment gives.
  pub load-AsValid : (out : Outside) (path : Text) (w : World) → AsValid (load out path w).0
  unfolding load
  load-AsValid out path w = after_reading out _ _
