-- ===== src/Approvals.antt =====
-- internal/approvals/handler.go: POST /approvals/submit
pub mod Answers
pub mod Kept
use mouse.Prelude.{
  true, ◌∷◌, [], codes, none, not, if◌then◌else◌, ℕ, false, some, Option, Text, text_eq, Bool,
}
use mouse.Strings.{trim_space}
use mouse.Host.Action.{log, ◌>>◌, pure, Action}
use mouse.Host.Http.{status_ok, status_bad_request, status_method_not_allowed, method_post}

pub record Response : Type 0 where
  pub is_ok : Bool
  pub error : Text

abbrev refusal : Text → Option Response
refusal message = some (record { is_ok = false; error = message })

-- `ServeHTTP` behind the decoding, on the trimmed id.
submit : Option Text → Text → Action (ℕ × Option Response)
unfolding text_eq
submit logger id =
    if text_eq id [] then pure (status_bad_request, refusal (codes "id is required")) else (do
      log logger (codes "info") (codes "approval received") ((codes "id", id) ∷ [])
      pure (status_ok, some (record { is_ok = true; error = [] })))

decoded : Option Text → Option Text → Action (ℕ × Option Response)
unfolding submit trim_space
decoded logger none = pure (status_bad_request, refusal (codes "invalid json"))
decoded logger (some raw) = submit logger (trim_space raw)

-- `ServeHTTP`; the body is `none` if it is no JSON of the right form, and else the `id` in it
unfoldable pub serve_http : Option Text → Text → Option Text → Action (ℕ × Option Response)
unfolding decoded text_eq
serve_http logger method body =
    if not (text_eq method method_post)
    then pure (status_method_not_allowed, none)
    else decoded logger body
