-- ===== src/Approvals/Kept.antt =====
-- internal/approvals/handler.go: what an approval keeps.
use mouse.Host.Rows.{IndexEntry}
use mouse.Host.{World}
use mouse.Effects.{log-Keeps, Closed}
use mouse.Approvals.{submit, decoded, serve_http}
use mouse.Prelude.{none, [], text_eq, not, some, Text, Option}
use mouse.Host.Keeps.{bind-Keeps, if-Keeps, pure-Keeps, Keeps}
use mouse.Host.Http.{method_post}
use mouse.Strings.{trim_space}

module _ {ι} {Told : IndexEntry → Type 0} {I : World → Type ι} (c : Closed Told I) where
  decoded-Keeps : (logger body : Option Text) → Keeps I (decoded logger body)
  unfolding decoded submit
  decoded-Keeps logger none = pure-Keeps _
  decoded-Keeps logger (some raw) =
      if-Keeps (text_eq (trim_space raw) []) _ _ (pure-Keeps _)
        (bind-Keeps _ _ (log-Keeps c logger _ _ _) λ _. pure-Keeps _)

  pub serve_http-Keeps :
      (logger : Option Text) (method : Text) (body : Option Text)
      → Keeps I (serve_http logger method body)
  unfolding serve_http
  serve_http-Keeps logger method body =
      if-Keeps (not (text_eq method method_post)) _ _ (pure-Keeps _) (decoded-Keeps logger body)
