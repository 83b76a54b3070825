-- ===== src/Host/Http.antt =====
-- Requests that the handlers get, and what they answer.
use mouse.Prelude.{ℕ, Text, codes}

-- The status codes of net/http that the program uses.
abbrev pub status_ok : ℕ
status_ok = 200

abbrev pub status_bad_request : ℕ
status_bad_request = 400

abbrev pub status_unauthorized : ℕ
status_unauthorized = 401

abbrev pub status_forbidden : ℕ
status_forbidden = 403

abbrev pub status_method_not_allowed : ℕ
status_method_not_allowed = 405

abbrev pub status_internal_error : ℕ
status_internal_error = 500

abbrev pub status_unavailable : ℕ
status_unavailable = 503

-- http.MethodGet, http.MethodPost
abbrev pub method_get : Text
method_get = codes "GET"

abbrev pub method_post : Text
method_post = codes "POST"
