-- ===== src/Approvals/Answers.antt =====
-- What becomes of an approval.
use mouse.Approvals.{serve_http, Response}
use mouse.Prelude.{
  refl, true, none, inr, ◌++◌, not, arith, ◌<◌, inl, ◌≤◌, ◌&&◌, ok, [], ◌≡◌, text_eq, ◌∷◌,
  Bool-cases, if◌then◌else◌, ℕ, Result, some, codes, Option, Text,
}
use mouse.Host.{LogEntry, World}
use mouse.Host.Http.{status_ok, method_post}
use mouse.Strings.{trim_space, is_blank}

-- The id that a request approves, if it does.
abbrev pub approved : Text → Option Text → Option Text
approved method none = none
approved method (some raw) =
    if text_eq method method_post && not (is_blank raw) then some (trim_space raw) else none

abbrev pub line_of : Text → Text → LogEntry
line_of service id = record {
  level = codes "info";
  service = service;
  message = codes "approval received";
  log_fields = (codes "id", id) ∷ [];
}

-- With a logger: a request with an id writes one line with it and is answered with 200; any other is
-- answered with an error of the client. Nothing else changes in either case.
abbrev pub Answered : Text → World → Option Text → Result (ℕ × Option Response) × World → Type 0
Answered service w none (r, w') =
    (w' ≡ w)
    × ((status : ℕ) × (reply : Option Response) × (r ≡ ok (status, reply))
        × (400 ≤ status)
        × (status < 500))
Answered service w (some id) (r, w') =
    (w' ≡ record w { log = w.log ++ line_of service id ∷ [] })
    × (r ≡ ok (status_ok, some (record { is_ok = true; error = [] })))

-- With a logger, a POST request with an id that is not blank is answered with 200 and writes one
-- line with the trimmed id to the log, and any other request is answered with a status from 400 to
-- 499 and changes nothing.
pub serve_http-Answered :
    (service method : Text) (body : Option Text) (w : World)
    → Answered service w (approved method body) (serve_http (some service) method body w)
unfolding serve_http is_blank
serve_http-Answered service method none w = elim (Bool-cases (text_eq method method_post)) [
  | inl post ↦ rw post (refl, (_, _, refl, omega arith, omega arith))
  | inr other ↦ rw other (refl, (_, _, refl, omega arith, omega arith))
]
serve_http-Answered service method (some raw) w = elim (Bool-cases (text_eq method method_post)) [
  | inr other ↦ rw other (refl, (_, _, refl, omega arith, omega arith))
  | inl post ↦ elim (Bool-cases (text_eq (trim_space raw) [])) [
    | inl blank ↦ rw (post, blank) (refl, (_, _, refl, omega arith, omega arith))
    | inr named ↦ rw (post, named) (refl, refl)
  ]
]
