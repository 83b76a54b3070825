-- ===== src/Telegram/Sender/Kept.antt =====
-- internal/telegram/sender.go: what the sending of a message keeps.
use mouse.Effects.{post-Keeps, read_on-Keeps, log-Keeps, Closed}
use mouse.Host.Keeps.{try-Keeps, Keeps, bind-Keeps, pure-Keeps, wrap-Keeps, if-Keeps}
use mouse.Telegram.Sender.{
  zero_id, last_error, report_failure, send_built, try_again, send_url, attempt_error, Sender,
  do_request, try_once, send_twice, send_message_to,
}
use mouse.Host.{World, send_message, Request, Env}
use mouse.Strings.{trim_space, Unicode}
use mouse.Prelude.Int.{pos, ℤ}
use mouse.Prelude.{◌∷◌, ◌++◌, ok, [], err, codes, none, text_eq, Result, some, not, Text, ℕ, Option}
use mouse.Telegram.Allow.{is_allowed_user, User}
use mouse.Host.Rows.{IndexEntry}
use mouse.Host.Action.{post, perform, wrap, try}
use mouse.Prelude.Dict.{Dict}
use mouse.Strings.Decimal.{format_int}

module _ {ι} {Told : IndexEntry → Type 0} {I : World → Type ι} (c : Closed Told I) ⦃env : Env⦄ where
  send_built-Keeps : (r : Request) (built : Result (Unit {0})) → Keeps I (send_built r built)
  unfolding send_built
  send_built-Keeps r (err e) = pure-Keeps _
  send_built-Keeps r (ok _) =
      bind-Keeps (post r) _ (post-Keeps c r) λ reply. pure-Keeps (ok (attempt_error reply))

  report_failure-Keeps :
      (s : Sender) (n : ℕ) (failed : Option (Text × Dict Text))
      → Keeps I (report_failure s n failed)
  unfolding report_failure
  report_failure-Keeps s n none = pure-Keeps _
  report_failure-Keeps s n (some (e, what)) =
      bind-Keeps _ _
        (log-Keeps c s.logger (codes "error") (codes "telegram send failed")
          (what ++ (codes "attempt", format_int (pos n)) ∷ []))
        λ _. pure-Keeps _

  try_once-Keeps : (s : Sender) (r : Request) (n : ℕ) → Keeps I (try_once s r n)
  unfolding try_once do_request
  try_once-Keeps s r n =
      bind-Keeps (do_request s r) _
        (bind-Keeps (try (wrap (codes "telegram: build request: ") (perform (λ w. w)))) _
          (try-Keeps _ (wrap-Keeps (codes "telegram: build request: ") _ (read_on-Keeps c)))
          (send_built-Keeps r))
        (report_failure-Keeps s n)

  last_error-Keeps : (e : Option Text) → Keeps I (last_error e)
  unfolding last_error
  last_error-Keeps none = pure-Keeps _
  last_error-Keeps (some e) = pure-Keeps _

  try_again-Keeps : (s : Sender) (r : Request) (first : Option Text) → Keeps I (try_again s r first)
  unfolding try_again
  try_again-Keeps s r none = pure-Keeps _
  try_again-Keeps s r (some _) =
      bind-Keeps (try_once s r 2) _ (try_once-Keeps s r 2) last_error-Keeps

  pub send_message_to-Keeps :
      ⦃u : Unicode⦄ (s : Sender) (chat_id : ℤ) (user : Option User) (text : Text)
      → Keeps I (send_message_to s chat_id user text)
  unfolding send_message_to send_twice
  send_message_to-Keeps s chat_id user text =
      let r : Request = record {
        url = send_url s.bot_token;
        body = send_message chat_id (trim_space text);
      } in
      if-Keeps (not (is_allowed_user s.allow_from user)) _ _ (pure-Keeps _) (
        if-Keeps (text_eq (trim_space text) []) _ _ (pure-Keeps _) (
          if-Keeps (zero_id chat_id) _ _ (pure-Keeps _)
            (bind-Keeps (try_once s r 1) _ (try_once-Keeps s r 1) (try_again-Keeps s r))))
