-- ===== src/Telegram/Webhook/Calls.antt =====
-- What setting the webhook asks of Telegram.
use mouse.Telegram.Webhook.{
  set_webhook, call_webhook, read_webhook_reply, webhook_url, webhook_request,
}
use mouse.Host.{set_webhook_body, answered, cut_off, unreached, World, Request, Reply, Env}
use mouse.Prelude.{
  if◌then◌else◌, ◌==◌, codes, All, ℕ, inr, inl, arith, Option-cases, [], Bool-cases, ◌∷◌, ◌++◌,
  refl, ◌+◌, none, some, ◌⊎◌, false, true, ◌&&◌, ◌≡◌, not, Bool, Text, Option,
}
use mouse.Prelude.Dict.{Dict}
use mouse.Host.Action.{count_call, post, log}
use mouse.Telegram.Sender.Retry.{delivered, succeeds}
use mouse.Strings.{trim_right, is_blank}
use mouse.Telegram.Sender.{is_success}
use mouse.Strings.Trim.{trim_right-last, trim_right-split}

module _ ⦃env : Env⦄ where
  log_lem :
      (logger : Option Text) (level message : Text) (about : Dict Text) (w : World)
      → let (r, w') = log logger level message about w in
        (succeeds r ≡ true) × (w'.requests ≡ w.requests)
  log_lem none level message about w = (refl, refl)
  log_lem (some service) level message about w = (refl, refl)

  read_webhook_reply_lem :
      (logger : Option Text) (url : Text) (reply : Reply) (w : World)
      → let (r, w') = read_webhook_reply logger url reply w in
        (succeeds r ≡ delivered reply) × (w'.requests ≡ w.requests)
  unfolding read_webhook_reply
  read_webhook_reply_lem logger url (unreached e) w = (refl, refl)
  read_webhook_reply_lem logger url (cut_off status e) w = (refl, refl)
  read_webhook_reply_lem logger url (answered status reply_body) w =
      elim (Bool-cases (is_success status)) [
        | inl fine ↦ rw fine (log_lem logger _ _ _ w)
        | inr refused ↦ rw refused (refl, refl)
      ]

  call_webhook_lem :
      (logger : Option Text) (url : Text) (request : Request) (w : World)
      → let (r, w') = call_webhook logger url request w in
        ((succeeds r ≡ false) × (w'.requests ≡ w.requests))
        ⊎ ((succeeds r ≡ delivered (env.reply (w.calls + 1)))
            × (w'.requests ≡ w.requests ++ request ∷ []))
  unfolding call_webhook
  call_webhook_lem logger url request w = elim (Option-cases (env.fault w.calls)) [
    | inl fine ↦ rw fine (
        inr (
          read_webhook_reply_lem logger url (env.reply (w.calls + 1))
            (post request (count_call w)).1))
    | inr (e, failed) ↦ rw failed (inl (refl, refl))
  ]

  -- The three texts that must not be blank.
  abbrev pub has_address : Text → Text → Text → Bool
  has_address token public_url path =
      not (is_blank token) && not (is_blank public_url) && not (is_blank path)

  set_webhook_sends :
      (token public_url path secret : Text) (logger : Option Text) (w : World)
      → let (r, w') = set_webhook token public_url path secret logger w in
        ((succeeds r ≡ false) × (w'.requests ≡ w.requests))
        ⊎ ((has_address token public_url path ≡ true)
            × (succeeds r ≡ delivered (env.reply (w.calls + 1)))
            × (w'.requests ≡ w.requests ++ webhook_request token public_url path secret ∷ []))
  unfolding set_webhook
  set_webhook_sends token public_url path secret logger w = ground (
    arith,
    call_webhook_lem logger (webhook_url public_url path)
        (webhook_request token public_url path secret) w,
  )

  only_slashes : (s : Text) → All (λ c. c == b'/' ≡ true) s → All (λ c. c ≡ b'/') s
  only_slashes [] h = tt
  only_slashes (c ∷ s) (first, rest) = (ground arith, only_slashes s rest)

  -- The request for this token, public URL, path and secret: it goes to the bot of the token, and
  -- names the public URL without the slashes at its end, followed by the path, and the secret
  -- unless it is blank.
  abbrev pub Asks : Text → Text → Text → Text → Request → Type 0
  Asks token public_url path secret request =
      (base : Text) × (slashes : Text) × (public_url ≡ base ++ slashes)
      × All (λ c. c ≡ b'/') slashes
      × ¬ ((front : Text) × (base ≡ front ++ b'/' ∷ []))
      × (request.url ≡ codes "https://api.telegram.org/bot" ++ (token ++ codes "/setWebhook"))
      × (request.body
          ≡ set_webhook_body (base ++ path) (if is_blank secret then none else some secret))

  webhook_request-Asks :
      (token public_url path secret : Text)
      → Asks token public_url path secret (webhook_request token public_url path secret)
  webhook_request-Asks token public_url path secret =
      let slash : ℕ → Bool = λ c. c == b'/' in
      let (slashes, split, only) = trim_right-split slash public_url in
      (
        trim_right slash public_url,
        slashes,
        split,
        only_slashes slashes only,
        (λ (front, ends). trim_right-last slash public_url front b'/' (ground arith) ends),
        refl,
        refl,
      )

  -- `SetWebhook` sends nothing and fails, or has a token, a public URL and a path that are not
  -- blank, sends one request, and succeeds exactly if that is answered with a success. The request
  -- goes to the bot of the token, and names the public URL without the slashes at its end, followed
  -- by the path, and the secret unless it is blank.
  pub set_webhook_lem :
      (token public_url path secret : Text) (logger : Option Text) (w : World)
      → let (r, w') = set_webhook token public_url path secret logger w in
        ((succeeds r ≡ false) × (w'.requests ≡ w.requests))
        ⊎ ((has_address token public_url path ≡ true)
            × (succeeds r ≡ delivered (env.reply (w.calls + 1)))
            × ((request : Request) × Asks token public_url path secret request
                × (w'.requests ≡ w.requests ++ request ∷ [])))
  set_webhook_lem token public_url path secret logger w =
      elim (set_webhook_sends token public_url path secret logger w) [
        | inl nothing ↦ inl nothing
        | inr (addressed, outcome, sent) ↦
            let asked = webhook_request-Asks token public_url path secret in
            inr (addressed, outcome, (_, asked, sent))
      ]
