-- ===== src/Indexer/Handlers.antt =====
-- internal/indexer/handler.go: GET /index/search and POST /index/reindex.
pub mod Answers
pub mod Kept
use mouse.Indexer.Scan.{Indexer, Hashing, scan_once}
use mouse.Indexer.Search.{Match, search}
use mouse.Prelude.{
  ok, ◌∷◌, is_none, codes, none, not, err, ◌==◌, [], some, Result, if◌then◌else◌, Text, text_eq,
  List, ℕ, Option,
}
use mouse.Strings.Decimal.{atoi}
use mouse.Strings.{Unicode}
use mouse.Prelude.Int.{negsuc, pos, ℤ}
use mouse.Host.{Env}
use mouse.Host.Action.{try, ◌>>=◌, pure, log, ◌>>◌, Action}
use mouse.Host.Http.{
  status_ok, status_bad_request, status_unavailable, status_internal_error,
  status_method_not_allowed, method_post, method_get,
}

-- The JSON that is written: the matches, an error, or `{"ok": true}`.
pub data Payload : Type 0 where
  matches : List Match → Payload
  failure : Text → Payload
  done : Payload

abbrev pub Answer : Type 0
Answer = ℕ × Option Payload

-- `writeError`
unfoldable pub write_error : ℕ → Text → Answer
write_error status message = (status, some (failure message))

abbrev positive_or_5 : Option ℤ → ℤ
positive_or_5 none = pos 5
positive_or_5 (some (pos n)) = if n == 0 then pos 5 else pos n
positive_or_5 (some (negsuc n)) = pos 5

-- The limit that a request asks for; one that is no positive number is taken for 5.
unfoldable pub limit_of : Text → ℤ
unfolding atoi text_eq
limit_of raw = if text_eq raw [] then pos 5 else positive_or_5 (atoi raw)

-- What follows `Search` and `ScanOnce`.
finish {ℓ} : {A : Type ℓ} → Option Text → Text → Text → (A → Answer) → Result A → Action Answer
finish logger message reply show (err e) = do
  log logger (codes "error") message ((codes "error", e) ∷ [])
  pure (write_error status_internal_error reply)
finish logger message reply show (ok a) = pure (show a)

module _ ⦃u : Unicode⦄ ⦃env : Env⦄ where
  -- `Handler.ServeHTTP`, with the parameters `q` and `limit` of the URL
  unfoldable pub serve_search : Option Indexer → Option Text → Text → Text → Text → Action Answer
  unfolding finish limit_of text_eq write_error
  serve_search i logger method query raw_limit =
      if not (text_eq method method_get)
      then pure (status_method_not_allowed, none)
      else if is_none i
      then pure (write_error status_unavailable (codes "indexer not configured"))
      else if text_eq query []
      then pure (write_error status_bad_request (codes "q is required"))
      else (do
        result ← try (search i query (limit_of raw_limit))
        finish logger (codes "index search failed") (codes "search failed")
            (λ found. (status_ok, some (matches found))) result)

module _ ⦃u : Unicode⦄ ⦃env : Env⦄ ⦃sha : Hashing⦄ where
  -- `ReindexHandler.ServeHTTP`
  unfoldable pub serve_reindex : Option Indexer → Option Text → Text → Action Answer
  unfolding finish text_eq write_error
  serve_reindex i logger method =
      if not (text_eq method method_post)
      then pure (status_method_not_allowed, none)
      else if is_none i
      then pure (write_error status_unavailable (codes "indexer not configured"))
      else (do
        result ← try (scan_once i)
        finish logger (codes "index reindex failed") (codes "reindex failed")
            (λ _. (status_ok, some done)) result)
