-- ===== src/Orchestrator/Grown.antt =====
-- What a turn adds to a session's file and to the table of messages.
use mouse.Host.{World}
use mouse.Host.Rows.{SessionMessage}
use mouse.Prelude.{
  inr, err, inl, append-nil, refl, ok, false, ◌∙◌, Bool-cases, [], append_assoc, true, ap,
  if◌then◌else◌, map, ◌++◌, ◌∷◌, ◌≡◌, List, Bool, Result, Text,
}
use mouse.Strings.{Unicode}
use mouse.Prelude.Dict.{has}
use mouse.Sessions.{header, entry, content_of}
use mouse.Sessions.Files.{lead, Appended}
use mouse.Telegram.Sender.Retry.{succeeds}

-- One entry of a session file.
pub record Said : Type 0 where
  pub stamp : Text
  pub role : Text
  pub content : Text

abbrev pub body : ⦃u : Unicode⦄ → List Said → Text
body [] = []
body (s ∷ said) = entry s.stamp s.role s.content ++ body said

-- The file has these entries more, behind a header only if there was no file.
pub record Grown ⦃u : Unicode⦄ (path session_id : Text) (said : List Said) (w w' : World)
    : Type 0 where
  pub titled : Bool
  pub text :
      content_of path w'.files
      ≡ content_of path w.files ++ ((if titled then header session_id else []) ++ body said)
  pub no_title : has path w.files ≡ true → titled ≡ false

-- The rows of the table, without their ids and times.
abbrev pub Row : Type 0
Row = Text × Text × Text

abbrev pub rows_of : World → List Row
rows_of w = map (λ m. (m.session_id, m.role, m.content)) w.db.messages

body-append : ⦃u : Unicode⦄ (xs ys : List Said) → body (xs ++ ys) ≡ body xs ++ body ys
body-append [] ys = refl
body-append (x ∷ xs) ys = rw (body-append xs ys) (simp append_assoc)

module _ ⦃u : Unicode⦄ (path session_id : Text) where
  pub Grown-trans :
      (xs ys : List Said) (a b c : World)
      → Grown path session_id xs a b
      → has path b.files ≡ true
      → Grown path session_id ys b c
      → Grown path session_id (xs ++ ys) a c
  Grown-trans xs ys a b c g there h = record {
    titled = g.titled;
    text = h.text ∙ rw (h.no_title there, g.text, body-append) (simp append_assoc);
    no_title = g.no_title;
  }

  -- The file stayed as it was.
  pub Grown-frame :
      (xs : List Said) (a b c : World)
      → Grown path session_id xs a b
      → c.files ≡ b.files
      → Grown path session_id xs a c
  Grown-frame xs a b c g e = record {
    titled = g.titled;
    text = ap (content_of path) e ∙ g.text;
    no_title = g.no_title;
  }

  -- How the file can look after an attempt to add an entry.
  abbrev pub Added : Text → Text → Text → World → World → Bool → Type 0
  Added stamp role content w w' true =
      Grown path session_id (record { stamp = stamp; role = role; content = content } ∷ []) w w'
      × (has path w'.files ≡ true)
  Added stamp role content w w' false = Grown path session_id [] w w'

  led :
      (w w' : World) (tail : List Said)
      → content_of path w'.files ≡ content_of path w.files ++ (lead path session_id w ++ body tail)
      → Grown path session_id tail w w'
  led w w' tail h = elim (Bool-cases (has path w.files)) [
    | inl old ↦ record { titled = false; text = rw old at h; no_title = λ _. refl }
    | inr new ↦ record { titled = true; text = rw new at h; no_title = λ there. cc }
  ]

  pub Appended-Added :
      (stamp role content : Text) (w : World) (r : Result Text) (w' : World)
      → Appended path session_id role content stamp w r w'
      → Added stamp role content w w' (succeeds r)
  Appended-Added stamp role content w (ok p) w' (_, text, there) = (
    led w w' (record { stamp = stamp; role = role; content = content } ∷ []) (rw append-nil text),
    there,
  )
  Appended-Added stamp role content w (err e) w' (inl same) = record {
    titled = false;
    text = rw append-nil same;
    no_title = λ _. refl;
  }
  Appended-Added stamp role content w (err e) w' (inr titled) = led w w' [] (rw append-nil titled)

abbrev pub view : SessionMessage → Row
view m = (m.session_id, m.role, m.content)
