-- ===== src/Llm/Kept.antt =====
-- internal/llm/llm.go: what a question to the model keeps.
use mouse.Effects.{log-Keeps, post-Keeps, read_on-Keeps, Closed}
use mouse.Host.Keeps.{Keeps, bind-Keeps, pure-Keeps, wrap-Keeps, if-Keeps}
use mouse.Strings.{trim_space, Unicode}
use mouse.Host.{MessagesResponse, World, complete, answered, cut_off, unreached, Reply, Env}
use mouse.Llm.{
  found_text, messages_url, anthropic, noop, choose_text, Client, read_reply, complete_prompt,
}
use mouse.Prelude.{◌++◌, none, ok, some, err, Result, codes, Option, Text}
use mouse.Host.Action.{post, perform}
use mouse.Host.Rows.{IndexEntry}
use mouse.Telegram.Sender.{is_success}
use mouse.Strings.Decimal.{format_int}
use mouse.Prelude.Int.{pos}

module _ {ι} {Told : IndexEntry → Type 0} {I : World → Type ι} (c : Closed Told I) ⦃u : Unicode⦄
    ⦃env : Env⦄ where
  found_text-Keeps :
      (logger : Option Text) (parsed : MessagesResponse) (text : Option Text)
      → Keeps I (found_text logger parsed text)
  unfolding found_text
  found_text-Keeps logger parsed (some text) = pure-Keeps _
  found_text-Keeps logger parsed none = bind-Keeps _ _ (log-Keeps c logger _ _ _) λ _. pure-Keeps _

  choose_text-Keeps :
      (logger : Option Text) (parsed : Result MessagesResponse)
      → Keeps I (choose_text logger parsed)
  unfolding choose_text
  choose_text-Keeps logger (err e) = pure-Keeps _
  choose_text-Keeps logger (ok parsed) = found_text-Keeps logger parsed _

  read_reply-Keeps : (logger : Option Text) (reply : Reply) → Keeps I (read_reply logger reply)
  unfolding read_reply
  read_reply-Keeps logger (unreached e) = pure-Keeps _
  read_reply-Keeps logger (cut_off status e) = pure-Keeps _
  read_reply-Keeps logger (answered status body) =
      if-Keeps (is_success status) _ _ (choose_text-Keeps logger (env.decode_messages body)) (
        pure-Keeps (
          err (codes "llm: http " ++ (format_int (pos status) ++ (codes ": " ++ trim_space body)))))

  pub complete_prompt-Keeps : (c : Client) (prompt : Text) → Keeps I (complete_prompt c prompt)
  unfolding complete_prompt
  complete_prompt-Keeps (noop reason) prompt = pure-Keeps _
  complete_prompt-Keeps (anthropic key model max_tokens logger) prompt =
      bind-Keeps _ _ (wrap-Keeps (codes "llm: request: ") (perform (λ w. w)) (read_on-Keeps c)) λ _.
        bind-Keeps (post (record { url = messages_url; body = complete model max_tokens prompt })) _
          (post-Keeps c _) λ reply. read_reply-Keeps logger reply
