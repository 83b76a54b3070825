-- ===== src/Llm/Replies.antt =====
-- What `Complete` returns.
use mouse.Host.{
  Request, cut_off, unreached, Reply, answered, complete, MessagesResponse, World, ContentBlock,
  Env,
}
use mouse.Llm.{read_reply, anthropic, noop, Client, complete_prompt, first_text}
use mouse.Prelude.{
  ◌<◌, ◌≤◌, text_eq_iff, not, ◌&&◌, ◌∙◌, text_eq, sym, codes, Bool-cases, All, ap, refl, inr, inl,
  Option, err, Result, Option-cases, ◌+◌, ◌++◌, [], ℕ, ◌∷◌, false, arith, some, ok, ◌≡◌, Text, List,
}
use mouse.Strings.{is_blank}
use mouse.Prelude.Int.{ℤ}

module _ ⦃env : Env⦄ where
  -- `Complete` changes neither files nor tables.
  pub complete_prompt_frame :
      (c : Client) (prompt : Text) (w : World)
      → let w' = (complete_prompt c prompt w).1 in (w'.files ≡ w.files) × (w'.db ≡ w.db)
  unfolding complete_prompt
  complete_prompt_frame (noop reason) prompt w = ground arith
  complete_prompt_frame (anthropic key model max_tokens logger) prompt w = ground arith

  -- A block of text that is not blank.
  abbrev pub IsText : ContentBlock → Type 0
  IsText block = (block.block_type ≡ codes "text") × (is_blank block.text ≡ false)

  -- The first such block of a list, with its text.
  abbrev pub Starts : List ContentBlock → Text → Type 0
  Starts blocks t =
      (before : List ContentBlock) × (block : ContentBlock) × (after : List ContentBlock) × (blocks
        ≡ before ++ block ∷ after)
      × All (λ (b : ContentBlock). ¬ (IsText b)) before
      × IsText block
      × (block.text ≡ t)

  later-Starts :
      (block : ContentBlock) (blocks : List ContentBlock) (t : Text)
      → ¬ (IsText block)
      → Starts blocks t
      → Starts (block ∷ blocks) t
  later-Starts block blocks t other (before, found, after, split, none_before, is_text, same) = (
    block ∷ before,
    found,
    after,
    ap (λ bs. block ∷ bs) split,
    (other, none_before),
    is_text,
    same,
  )

  first_text_lem :
      (blocks : List ContentBlock) (t : Text) → first_text blocks ≡ some t → Starts blocks t
  unfolding first_text
  first_text_lem [] t h = cc
  first_text_lem (block ∷ blocks) t h =
      elim (Bool-cases (text_eq block.block_type (codes "text") && not (is_blank block.text))) [
        | inl chosen ↦
            let named = (text_eq_iff block.block_type (codes "text")).0 (ground arith) in
            let full : is_blank block.text ≡ false = ground arith in
            let same : block.text ≡ t = cc in ([], block, blocks, refl, tt, (named, full), same)
        | inr other ↦
            later-Starts block blocks t
              (λ is_text. ground (arith, (text_eq_iff block.block_type (codes "text")).1))
              (first_text_lem blocks t (rw other at h))
      ]

  Starts-full : (blocks : List ContentBlock) (t : Text) → Starts blocks t → is_blank t ≡ false
  Starts-full blocks t (before, block, after, split, others, is_text, same) =
      ap is_blank (sym same) ∙ is_text.1

  abbrev parsed_of : Result MessagesResponse → MessagesResponse
  parsed_of (ok parsed) = parsed
  parsed_of (err e) = record { content = []; stop_reason = [] }

  -- Where a completion comes from: the first text of a successful answer.
  abbrev pub Answers : Reply → Text → Type 0
  Answers reply t =
      (status : ℕ) × (reply_body : Text) × (parsed : MessagesResponse) × (reply
        ≡ answered status reply_body)
      × ((200 ≤ status) × (status < 300))
      × (env.decode_messages reply_body ≡ ok parsed)
      × Starts parsed.content t

  read_reply-ok :
      (logger : Option Text) (reply : Reply) (t : Text) (w w' : World)
      → read_reply logger reply w ≡ (ok t, w')
      → Answers reply t × (w'.requests ≡ w.requests)
  unfolding read_reply
  read_reply-ok logger (unreached e) t w w' h = cc
  read_reply-ok logger (cut_off status e) t w w' h = cc
  read_reply-ok logger (answered status body) t w w' h = (
    (
      status,
      body,
      parsed_of (env.decode_messages body),
      refl,
      ground arith,
      ground arith,
      first_text_lem (parsed_of (env.decode_messages body)).content t (ground arith),
    ),
    ground arith,
  )

  -- One request more was sent: to the messages of Anthropic, for the client's model and this prompt.
  abbrev pub Asked : Client → Text → List Request → List Request → Type 0
  Asked c prompt before after =
      (key : Text) × (model : Text) × (max_tokens : ℤ) × (logger : Option Text) × (c
        ≡ anthropic key model max_tokens logger)
      × (after
          ≡ before
            ++ (record {
              url = codes "https://api.anthropic.com/v1/messages";
              body = complete model max_tokens prompt;
            })
              ∷ [])

  -- A text that `Complete` returns is not blank. It is that of the first block of a successful
  -- answer whose type is "text" and whose text is not blank, and the answer is the one to the one
  -- request that was sent, for the client's model and this prompt.
  pub complete_prompt-ok :
      (c : Client) (prompt t : Text) (w w' : World)
      → complete_prompt c prompt w ≡ (ok t, w')
      → (is_blank t ≡ false)
        × Answers (env.reply (w.calls + 1)) t
        × Asked c prompt w.requests w'.requests
  unfolding complete_prompt
  complete_prompt-ok (noop reason) prompt t w w' h = cc
  complete_prompt-ok (anthropic key model max_tokens logger) prompt t w w' h =
      elim (Option-cases (env.fault w.calls)) [
        | inl fine ↦
            let (answer, same) =
              read_reply-ok logger (env.reply (w.calls + 1)) t _ w' (rw fine at h) in
            let (status, reply_body, parsed, came, good, decoded, first) = answer in
            (
              Starts-full parsed.content t first,
              answer,
              (key, model, max_tokens, logger, refl, same),
            )
        | inr (e, failed) ↦ absurd (ground arith)
      ]
