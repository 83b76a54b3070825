-- ===== src/Host.antt =====
-- The machine and the services that the program talks to, and the state that its actions change.
--
-- A call of the operating system, of the SQL engine or of an HTTP server is numbered, and `Env` says
-- how call number k ends, so a statement for every `Env` covers every pattern of failures. What was
-- written before a failure stays written: an action returns the new world beside its error.
pub mod Rows
pub mod Action
pub mod Http
pub mod Keeps
pub mod Yields
pub mod Proceeds
use mouse.Prelude.{Bool, Result, ℕ, Option, List, Text}
use mouse.Prelude.Int.{ℤ}
use mouse.Prelude.Dict.{Dict}
use Rows.{Tables}

-- How an HTTP request ends: `Client.Do` fails, the body cannot be read, or there is an answer.
pub data Reply : Type 0 where
  unreached : Text → Reply
  cut_off : ℕ → Text → Reply
  answered : ℕ → Text → Reply

-- How a process ends: it exits with a code (0 is success), the context ends it, or it does not run.
-- The texts are its stdout and stderr, or the error.
pub data Exit : Type 0 where
  exited : ℤ → Text → Text → Exit
  interrupted : Text → Text → Text → Exit
  not_run : Text → Text → Text → Exit

-- `contentBlock` and `messagesResponse` of internal/llm/llm.go
pub record ContentBlock : Type 0 where
  pub block_type : Text
  pub text : Text

pub record MessagesResponse : Type 0 where
  pub content : List ContentBlock
  pub stop_reason : Text

pub record Env : Type 0 where
  -- the error of the k-th call of the system or of the SQL engine, if it fails
  pub fault : ℕ → Option Text
  -- how the k-th call ends, if it is an HTTP request
  pub reply : ℕ → Reply
  -- how the k-th call ends, if it runs a process
  pub exit : ℕ → Exit
  -- `time.Now().UTC()` as the k-th call reads it, in nanoseconds since Go's zero time
  pub now : ℕ → ℕ
  -- `json.Unmarshal` of a body into `messagesResponse`
  pub decode_messages : Text → Result MessagesResponse
  -- `Format(time.RFC3339Nano)`
  pub format_time : ℕ → Text
  -- does the mux of net/http panic at this pattern, which is not one of those it has already:
  -- because it is no pattern, or because it is in conflict with one of them?
  pub refuses : List Text → Text → Bool

-- One line of the log; `service` is the logger's.
pub record LogEntry : Type 0 where
  pub level : Text
  pub service : Text
  pub message : Text
  pub log_fields : Dict Text

-- The JSON bodies that the program posts, before they are encoded.
pub data Payload : Type 0 where
  send_message : ℤ → Text → Payload
  complete : Text → ℤ → Text → Payload
  set_webhook_body : Text → Option Text → Payload

pub record Request : Type 0 where
  pub url : Text
  pub body : Payload

pub record World : Type 0 where
  -- the files by their paths
  pub files : Dict Text
  pub db : Tables
  pub log : List LogEntry
  -- the requests sent, in order
  pub requests : List Request
  -- the processes started, in order: the program and its arguments
  pub commands : List (List Text)
  -- the number of the next call
  pub calls : ℕ
