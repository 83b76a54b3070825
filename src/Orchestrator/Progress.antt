-- ===== src/Orchestrator/Progress.antt =====
-- A turn of the conversation, from the message to the answer: how far it gets whatever fails.
use mouse.Strings.{to_lower, Unicode}
use mouse.Prelude.{
  inr, append_assoc, ◌∙◌, inl, ap, refl, ◌+◌, ◌≤◌, length, ◌++◌, true, take, map, arith, [], ◌≡◌,
  ◌∷◌, ℕ, false, codes, Bool, List, Text,
}
use mouse.Host.{World}
use mouse.Prelude.Dict.{has}
use mouse.Host.Rows.{Tables}
use mouse.Orchestrator.Grown.{Grown-trans, view, Grown, rows_of, Said, Row, Grown-frame}
use mouse.Orchestrator.Turns.{Kept}

-- The two messages of a turn, as entries of the file and as rows of the table.
abbrev pub said_texts : Text → Text → List (Text × Text)
said_texts text response = (codes "user", text) ∷ (codes "assistant", response) ∷ []

abbrev pub turn_rows : ⦃u : Unicode⦄ → Text → Text → Text → List Row
turn_rows sid text response =
    (sid, to_lower (codes "user"), text) ∷ (sid, to_lower (codes "assistant"), response) ∷ []

-- Between two worlds a turn wrote the first `entries` of its messages to the file and the first
-- `rows` of them to the table. The table is never ahead of the file, and at most one message behind.
pub record Progress ⦃u : Unicode⦄ (path sid text : Text) (w w' : World) (done : Bool) : Type 0 where
  pub response : Text
  pub said : List Said
  pub rows : ℕ
  pub grown : Grown path sid said w w'
  pub in_order : map (λ s. (s.role, s.content)) said ≡ take (length said) (said_texts text response)
  pub stored : rows_of w' ≡ rows_of w ++ take rows (turn_rows sid text response)
  pub not_ahead : rows ≤ length said
  pub not_behind : length said ≤ rows + 1
  pub complete : done ≡ true → rows ≡ 2

module _ ⦃u : Unicode⦄ (path sid text : Text) (w : World) where
  abbrev pub user_said : Text → Said
  user_said stamp = record { stamp = stamp; role = codes "user"; content = text }

  abbrev pub AfterUser : World → Text → Type 0
  AfterUser w' stamp =
      Grown path sid (user_said stamp ∷ []) w w'
      × (has path w'.files ≡ true)
      × (rows_of w' ≡ rows_of w ++ (sid, to_lower (codes "user"), text) ∷ [])

  -- The turn stops behind the user's message.
  pub stop_at_user :
      (stamp : Text) (w' : World) → AfterUser w' stamp → Progress path sid text w w' false
  stop_at_user stamp w' (g, there, rows) = record {
    response = [];
    said = user_said stamp ∷ [];
    rows = 1;
    grown = g;
    in_order = refl;
    stored = rows;
    not_ahead = omega arith;
    not_behind = omega arith;
    complete = λ e. cc;
  }

  -- The assistant's message was kept, or was not.
  pub with_assistant :
      (stamp response : Text) (w₁ w₂ w₃ : World) (done : Bool)
      → AfterUser w₁ stamp
      → w₂.files ≡ w₁.files
      → rows_of w₂ ≡ rows_of w₁
      → Kept path sid (codes "assistant") response w₂ w₃ done
      → Progress path sid text w w₃ done
  with_assistant stamp response w₁ w₂ w₃ done (g, there, rows) files same kept =
      let g₂ = Grown-frame path sid _ w w₁ w₂ g files in
      let there₂ : has path w₂.files ≡ true = rw files there in
      elim kept [
        | inl (stamp₂, kept_both, h, _, row₂) ↦ record {
          response = response;
          said =
              user_said stamp
              ∷ (record { stamp = stamp₂; role = codes "assistant"; content = response })
              ∷ [];
          rows = 2;
          grown = Grown-trans path sid _ _ w w₂ w₃ g₂ there₂ h;
          in_order = refl;
          stored = row₂ ∙ rw (same, rows) (append_assoc (rows_of w) _ _);
          not_ahead = omega arith;
          not_behind = omega arith;
          complete = λ _. refl;
        }
        | inr (inl (stamp₂, failed, h, row₂)) ↦ record {
          response = response;
          said =
              user_said stamp
              ∷ (record { stamp = stamp₂; role = codes "assistant"; content = response })
              ∷ [];
          rows = 1;
          grown = Grown-trans path sid _ _ w w₂ w₃ g₂ there₂ h;
          in_order = refl;
          stored = row₂ ∙ same ∙ rows;
          not_ahead = omega arith;
          not_behind = omega arith;
          complete = λ e. cc;
        }
        | inr (inr (failed, h, row₂)) ↦ record {
          response = response;
          said = user_said stamp ∷ [];
          rows = 1;
          grown = Grown-trans path sid _ _ w w₂ w₃ g₂ there₂ h;
          in_order = refl;
          stored = row₂ ∙ same ∙ rows;
          not_ahead = omega arith;
          not_behind = omega arith;
          complete = λ e. cc;
        }
      ]

  pub Progress-frame :
      (w₁ w₂ : World) (done done' : Bool)
      → Progress path sid text w w₁ done
      → w₂.files ≡ w₁.files
      → w₂.db ≡ w₁.db
      → (done' ≡ true → done ≡ true)
      → Progress path sid text w w₂ done'
  Progress-frame w₁ w₂ done done' p files db only = record {
    response = p.response;
    said = p.said;
    rows = p.rows;
    grown = Grown-frame path sid p.said w w₁ w₂ p.grown files;
    in_order = p.in_order;
    stored = ap (λ (t : Tables). map view t.messages) db ∙ p.stored;
    not_ahead = p.not_ahead;
    not_behind = p.not_behind;
    complete = λ e. p.complete (only e);
  }
