-- ===== src/Orchestrator/Turns.antt =====
-- How far a turn gets: what the session's file and the table of messages hold after it.
use mathlib.Core.List.{map-append}
use mouse.Sqlite.Messages.{insert_message, append_session_message, or_user as table_role}
use mouse.Prelude.{
  codes, ℕ, arith, err, inr, inl, ok, ◌⊎◌, Result, false, refl, [], ◌∙◌, ap, true, Bool, ◌∷◌, map,
  ◌++◌, ◌≡◌, Text,
}
use mouse.Host.{Env, World}
use mouse.Strings.{is_blank, to_lower, Unicode}
use mouse.Prelude.Dict.{has}
use mouse.Sessions.{session_path, append}
use mouse.Telegram.Sender.Retry.{succeeds}
use mouse.Sessions.Files.{append_frame, append-Appended}
use mouse.Host.Rows.{Tables}
use mouse.Orchestrator.{Orchestrator, keep, mirror}
use mouse.Sqlite.Base.{Db, open_db}
use mouse.Sqlite.Messages.Laws.{append_cases}
use mouse.Host.Action.{wrapped, pure, continue}
use mouse.Orchestrator.Grown.{Grown-frame, Grown, rows_of, Row, view, Added, Appended-Added}

-- What `keep` leaves: the message in both stores, in the file alone, or in neither.
abbrev pub Kept : ⦃u : Unicode⦄ → Text → Text → Text → Text → World → World → Bool → Type 0
Kept path session_id role content w w' done =
    ((stamp : Text) × (done ≡ true)
      × Grown path session_id (record { stamp = stamp; role = role; content = content } ∷ []) w w'
      × (has path w'.files ≡ true)
      × (rows_of w' ≡ rows_of w ++ (session_id, to_lower role, content) ∷ []))
    ⊎ ((stamp : Text) × (done ≡ false)
        × Grown path session_id (record { stamp = stamp; role = role; content = content } ∷ []) w w'
        × (rows_of w' ≡ rows_of w))
    ⊎ ((done ≡ false) × Grown path session_id [] w w' × (rows_of w' ≡ rows_of w))

module _ ⦃u : Unicode⦄ ⦃env : Env⦄ where
  abbrev pub row : Text → Text → Text → Row
  row session_id role content = (session_id, to_lower (table_role role), content)

  append_session_message_files :
      (d : Db) (session_id role content : Text) (w : World)
      → (append_session_message d session_id role content w).1.files ≡ w.files
  unfolding append_session_message
  append_session_message_files d session_id role content w = ground arith

  after_all : (r : Result ℕ) (w : World) → (continue {0, 0} r (λ _. pure tt) w).1 ≡ w
  after_all (ok id) w = refl
  after_all (err e) w = refl

  mirror_world :
      (session_id role content : Text) (w : World)
      → (mirror open_db session_id role content w).1
        ≡ (append_session_message open_db session_id role content w).1
  unfolding mirror
  mirror_world session_id role content w = after_all _ _

  mirror_files :
      (session_id role content : Text) (w : World)
      → (mirror open_db session_id role content w).1.files ≡ w.files
  mirror_files session_id role content w =
      rw mirror_world (append_session_message_files open_db session_id role content w)

  rows-insert :
      (session_id role content at : Text) (t t' : Tables)
      → t' ≡ insert_message session_id role content at t
      → map view t'.messages ≡ map view t.messages ++ (session_id, role, content) ∷ []
  unfolding insert_message
  rows-insert session_id role content at t t' e =
      ap (λ (t : Tables). map view t.messages) e ∙ map-append view t.messages _

  -- The table has the message, or it is as it was and an error came back.
  mirror_rows :
      (session_id role content : Text) (w : World)
      → let (r, w') = mirror open_db session_id role content w in
        ((succeeds r ≡ true) × (rows_of w' ≡ rows_of w ++ row session_id role content ∷ []))
        ⊎ ((succeeds r ≡ false) × (rows_of w' ≡ rows_of w))
  unfolding mirror
  mirror_rows session_id role content w = elim (append_cases session_id role content w) [
    | inl (done, written) ↦ inl (
      ground arith,
      ap rows_of (mirror_world session_id role content w)
          ∙ rows-insert session_id _ content _ w.db _ written,
    )
    | inr (e, failed, same) ↦ inr (
      ground arith,
      ap rows_of (mirror_world session_id role content w)
          ∙ ap (λ (t : Tables). map view t.messages) same,
    )
  ]

  Kept-mirror :
      (path stamp sid role content : Text) (w w' : World)
      → w'.db ≡ w.db
      → Grown path sid (record { stamp = stamp; role = role; content = content } ∷ []) w w'
      → has path w'.files ≡ true
      → table_role role ≡ role
      → Kept path sid role content w
          (mirror open_db sid role content w').1
          (succeeds (mirror open_db sid role content w').0)
  Kept-mirror path stamp sid role content w w' same g there named =
      let files = mirror_files sid role content w' in
      let grown = Grown-frame path sid _ w w' _ g files in
      let before = ap (λ (t : Tables). map view t.messages) same in
      elim (mirror_rows sid role content w') [
        | inl (done, rows) ↦ inl (stamp, done, grown, rw files there, rows ∙ rw (before, named))
        | inr (failed, rows) ↦ inr (inl (stamp, failed, grown, rows ∙ before))
      ]

  after_append :
      (path stamp sid role content prefix : Text) (w : World) (r : Result Text) (w' : World)
      → w'.db ≡ w.db
      → Added path sid stamp role content w w' (succeeds r)
      → table_role role ≡ role
      → let (r', w₁) =
          continue {0, 0} (wrapped prefix r) (λ _. mirror open_db sid role content) w' in
        Kept path sid role content w w₁ (succeeds r')
  after_append path stamp sid role content prefix w (ok p) w' same (g, there) named =
      Kept-mirror path stamp sid role content w w' same g there named
  after_append path stamp sid role content prefix w (err e) w' same g named =
      inr (inr (refl, g, ap (λ (t : Tables). map view t.messages) same))

  pub keep_lem :
      (o : Orchestrator) (sid role content : Text) (w : World)
      → o.db ≡ open_db
      → is_blank sid ≡ false
      → is_blank role ≡ false
      → let (r, w') = keep o sid role content w in
        Kept (session_path o.sessions sid) sid role content w w' (succeeds r)
  unfolding keep
  keep_lem o sid role content w opened named whose =
      let (stamp, appended) = append-Appended o.sessions sid role content w in
      let (other, same, logged, asked) = append_frame o.sessions sid role content w in
      rw opened (
        after_append (session_path o.sessions sid) stamp sid role content
          (codes "append " ++ (role ++ codes " message: ")) w
          (append o.sessions sid role content w).0 (append o.sessions sid role content w).1 same
          (Appended-Added (session_path o.sessions sid) sid stamp role content w _ _
            (rw (named, whose) at appended))
          (rw whose))
