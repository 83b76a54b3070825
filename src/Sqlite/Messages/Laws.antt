-- ===== src/Sqlite/Messages/Laws.antt =====
-- Messages come back newest first, and sessions do not see one another's messages.
use mathlib.Core.List.{reverse-append}
use mathlib.Core.Path.{sym, subst}
use mouse.Prelude.{
  text_eq_iff, Option-cases, ℕ, zero, suc, ◌+◌, ◌≡◌, refl, ap, ◌∙◌, ◌≢◌, ◌⊎◌, inl, inr, Bool, true,
  false, List, [], ◌∷◌, ◌++◌, arith, Text, codes, text_eq, text_eq_refl, text_eq_ne, if◌then◌else◌,
  Bool-cases, filter, filter-append, take, reverse, append-nil, ok, err,
}
use mouse.Prelude.Int.{ℤ, pos}
use mouse.Strings.{Unicode, to_lower, is_blank}
use mouse.Host.{Env, World}
use mouse.Host.Rows.{SessionMessage, Tables}
use mouse.Host.Action.{quiet, IsQuiet, IsQuiet-quiet}
use mouse.Sqlite.Base.{nil_db, Db, open_db, or_default}
use mouse.Sqlite.Messages.{
  of_session, insert_message, select_messages, delete_messages, append_session_message,
  list_session_messages, delete_session, or_user,
}
use mouse.Sqlite.Messages.Order.{
  IsOrdered, insert_message-IsOrdered, delete_messages-IsOrdered, select_messages_lem,
}

filter-none :
    (p q : SessionMessage → Bool) (ms : List SessionMessage)
    → ((m : SessionMessage) → p m ≡ true → q m ≡ false)
    → filter p (filter q ms) ≡ []
filter-none p q [] h = refl
filter-none p q (m ∷ ms) h = ground (arith, h m, filter-none p q ms h)

filter-sub :
    (p q : SessionMessage → Bool) (ms : List SessionMessage)
    → ((m : SessionMessage) → p m ≡ true → q m ≡ true)
    → filter p (filter q ms) ≡ filter p ms
filter-sub p q [] h = refl
filter-sub p q (m ∷ ms) h = ground (arith, h m, filter-sub p q ms h)

select-insert :
    (s r c at : Text) (n : ℕ) (t : Tables)
    → IsOrdered t
    → select_messages s (suc n) (insert_message s r c at t)
      ≡ (record { id = t.next_id; session_id = s; role = r; content = c; created_at = at })
        ∷ take n (reverse (filter (of_session s) t.messages))
select-insert s r c at n t h =
    select_messages_lem s (suc n) _ (insert_message-IsOrdered s r c at t h)
    ∙ unfold insert_message in rw (filter-append, text_eq_refl, reverse-append)

select-insert_ne :
    (s s' r c at : Text) (n : ℕ) (t : Tables)
    → s ≢ s'
    → select_messages s' n (insert_message s r c at t) ≡ select_messages s' n t
unfolding select_messages insert_message
select-insert_ne s s' r c at n t ne = rw filter-append (rw (text_eq_ne s s' ne) (rw append-nil))

-- The row that `AppendSessionMessage` writes at the time of call k.
abbrev pub stored : ⦃u : Unicode⦄ → Env → Text → Text → Text → World → SessionMessage
stored env s role content w = record {
  id = w.db.next_id;
  session_id = s;
  role = to_lower (or_user role);
  content = content;
  created_at = env.format_time (env.now w.calls);
}

module _ ⦃u : Unicode⦄ ⦃env : Env⦄ (s role content : Text) (w : World) where
  -- It writes its row or nothing, and nothing else.
  pub append_cases :
      let (r, w') = append_session_message open_db s role content w in
      ((r ≡ ok w.db.next_id)
        × (w'.db
            ≡ insert_message s
                (to_lower (or_user role))
                content
                (env.format_time (env.now w.calls))
                w.db))
      ⊎ ((e : Text) × (r ≡ err e) × (w'.db ≡ w.db))
  unfolding append_session_message
  append_cases = elim (Bool-cases (is_blank s)) [
    | inl blank ↦ inr (codes "sqlite: session id is required", ground arith, ground arith)
    | inr named ↦ elim (Option-cases (env.fault (w.calls + 1))) [
      | inl none_failed ↦ inl (ground arith, ground arith)
      | inr (e, failed) ↦
          inr (codes "sqlite: insert session message: " ++ e, ground arith, ground arith)
    ]
  ]

list-eq :
    (env : Env) (s : Text) (limit : ℤ) (w : World)
    → (list_session_messages ⦃env = quiet env⦄ open_db s limit w).0
      ≡ ok (select_messages s (or_default 100 limit) w.db)
unfolding list_session_messages
list-eq env s limit w = refl

or_default-suc : (d n : ℕ) → or_default d (pos (suc n)) ≡ suc n
unfolding or_default
or_default-suc d n = ground arith

-- If the messages stand in the order of their ids, below the next id, they do so after one more is
-- appended, however the statement ends.
pub append-IsOrdered :
    ⦃u : Unicode⦄ ⦃env : Env⦄ (d : Db) (s role content : Text) (w : World)
    → IsOrdered w.db
    → IsOrdered (append_session_message d s role content w).1.db
unfolding append_session_message
append-IsOrdered nil_db s role content w h = h
append-IsOrdered open_db s role content w h = elim (append_cases s role content w) [
  | inl (_, written) ↦ subst IsOrdered (sym written) (insert_message-IsOrdered s _ content _ w.db h)
  | inr (_, _, same) ↦ subst IsOrdered (sym same) h
]

pub delete-IsOrdered :
    ⦃env : Env⦄ (d : Db) (s : Text) (w : World)
    → IsOrdered w.db
    → IsOrdered (delete_session d s w).1.db
unfolding delete_session
delete-IsOrdered nil_db s w h = h
delete-IsOrdered ⦃env⦄ open_db s w h = elim (Bool-cases (is_blank s)) [
  | inl blank ↦ rw blank h
  | inr named ↦ elim (Option-cases (env.fault w.calls)) [
    | inl fine ↦ rw (named, fine) (delete_messages-IsOrdered s w.db h)
    | inr (e, failed) ↦ rw (named, failed) h
  ]
]

module _ ⦃u : Unicode⦄ where
  list-append_quiet :
      (env : Env) (s role content : Text) (n : ℕ) (w : World)
      → IsOrdered w.db
      → is_blank s ≡ false
      → (list_session_messages ⦃env = quiet env⦄ open_db s
          (pos (suc n))
          (append_session_message ⦃env = quiet env⦄ open_db s role content w).1).0
        ≡ ok (stored env s role content w ∷ take n (reverse (filter (of_session s) w.db.messages)))
  unfolding append_session_message
  list-append_quiet env s role content n w h b =
      list-eq env s (pos (suc n)) _
      ∙ rw (or_default-suc 100 n) (rw b (ap ok (select-insert s _ content _ n w.db h)))

  -- With no failing call, a table in order, a session id that is not blank and a positive limit: a
  -- message that was appended is listed first, and the older ones of its session follow it from the
  -- newest to the oldest.
  pub list-append :
      (env : Env) (s role content : Text) (n : ℕ) (w : World)
      → IsQuiet env
      → IsOrdered w.db
      → is_blank s ≡ false
      → (list_session_messages ⦃env = env⦄ open_db s
          (pos (suc n))
          (append_session_message ⦃env = env⦄ open_db s role content w).1).0
        ≡ ok (stored env s role content w ∷ take n (reverse (filter (of_session s) w.db.messages)))
  list-append env s role content n w q h b =
      subst
        (λ (e : Env).
          (list_session_messages ⦃env = e⦄ open_db s (pos (suc n))
            (append_session_message ⦃env = e⦄ open_db s role content w).1).0
          ≡ ok (
              stored env s role content w ∷ take n (reverse (filter (of_session s) w.db.messages))))
        (IsQuiet-quiet env q) (list-append_quiet env s role content n w h b)

  -- Whatever happens to a message of one session, the messages of another stay as they were.
  pub select-append_ne :
      ⦃env : Env⦄ (s s' role content : Text) (n : ℕ) (w : World)
      → s ≢ s'
      → select_messages s' n (append_session_message open_db s role content w).1.db
        ≡ select_messages s' n w.db
  select-append_ne s s' role content n w ne = elim (append_cases s role content w) [
    | inl (_, written) ↦
        ap (select_messages s' n) written ∙ select-insert_ne s s' _ content _ n w.db ne
    | inr (_, _, same) ↦ ap (select_messages s' n) same
  ]

take_nil : (n : ℕ) → take {A = SessionMessage} n [] ≡ []
take_nil zero = refl
take_nil (suc n) = refl

-- A session that was deleted has no message, and every other session has its messages.
pub select-delete :
    (s s' : Text) (n : ℕ) (t : Tables)
    → select_messages s' n (delete_messages s t)
      ≡ (if text_eq s s' then [] else select_messages s' n t)
unfolding select_messages delete_messages
select-delete s s' n t = elim (Bool-cases (text_eq s s')) [
  | inl same ↦ rw same (
      let e : s ≡ s' = (text_eq_iff s s').0 same in
      rw
        (filter-none (of_session s') (λ m. if of_session s m then false else true) t.messages
          (λ m h. rw e (ground arith)))
        (take_nil n))
  | inr other ↦ rw other (
      rw (
        filter-sub (of_session s') (λ m. if of_session s m then false else true) t.messages
          (λ m h.
            ground
              (arith, text_eq_iff m.session_id s, text_eq_iff m.session_id s', text_eq_iff s s'))))
]
