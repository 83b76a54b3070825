-- ===== src/Sqlite/Messages/Order.antt =====
-- The order of the messages in their table.
use mouse.Prelude.{
  ℕ, ◌+◌, ◌<◌, ◌≡◌, ap, inl, inr, Bool, true, List, [], ◌∷◌, ◌++◌, arith, Text, Bool-cases, filter,
  take, reverse, All, All-append,
}
use mouse.Prelude.Sort.{IsReversed, sort_by-IsReversed}
use mouse.Host.Rows.{SessionMessage, Tables}
use mouse.Sqlite.Messages.{newer, of_session, insert_message, select_messages, delete_messages}

abbrev pub Ascending : List SessionMessage → Type 0
Ascending [] = Unit
Ascending (m ∷ ms) = All (λ n. m.id < n.id) ms × Ascending ms

-- Ids rise in the order of insertion, and the next one is above them all.
pub record IsOrdered (t : Tables) : Type 0 where
  pub ascending : Ascending t.messages
  pub below : All (λ m. m.id < t.next_id) t.messages

below_suc : (n : ℕ) (ms : List SessionMessage) → All (λ m. m.id < n) ms → All (λ m. m.id < n + 1) ms
below_suc n [] h = tt
below_suc n (m ∷ ms) (h, hs) = (omega arith, below_suc n ms hs)

Ascending-snoc :
    (ms : List SessionMessage) (m : SessionMessage)
    → Ascending ms
    → All (λ n. n.id < m.id) ms
    → Ascending (ms ++ m ∷ [])
Ascending-snoc [] m a b = (tt, tt)
Ascending-snoc (n ∷ ns) m (first, a) (lt, b) =
    (All-append (λ k. n.id < k.id) ns (m ∷ []) first (lt, tt), Ascending-snoc ns m a b)

module _ {κ} (P : SessionMessage → Type κ) (p : SessionMessage → Bool) where
  filter-All : (ms : List SessionMessage) → All P ms → All P (filter p ms)
  filter-All [] _ = tt
  filter-All (m ∷ ms) (h, hs) = elim (Bool-cases (p m)) [
    | inl kept ↦ rw kept (h, filter-All ms hs)
    | inr left ↦ rw left (filter-All ms hs)
  ]

filter-Ascending :
    (p : SessionMessage → Bool) (ms : List SessionMessage) → Ascending ms → Ascending (filter p ms)
filter-Ascending p [] _ = tt
filter-Ascending p (m ∷ ms) (h, hs) = elim (Bool-cases (p m)) [
  | inl kept ↦ rw kept (filter-All (λ n. m.id < n.id) p ms h, filter-Ascending p ms hs)
  | inr left ↦ rw left (filter-Ascending p ms hs)
]

All-newer :
    (m : SessionMessage) (ms : List SessionMessage)
    → All (λ n. m.id < n.id) ms
    → All (λ n. newer n m ≡ true) ms
All-newer m [] _ = tt
All-newer m (n ∷ ns) (h, hs) = (ground arith, All-newer m ns hs)

Ascending-IsReversed : (ms : List SessionMessage) → Ascending ms → IsReversed newer ms
Ascending-IsReversed [] _ = tt
Ascending-IsReversed (m ∷ ms) (h, hs) = (All-newer m ms h, Ascending-IsReversed ms hs)

pub insert_message-IsOrdered :
    (s r c at : Text) (t : Tables) → IsOrdered t → IsOrdered (insert_message s r c at t)
unfolding insert_message
insert_message-IsOrdered s r c at t h = record {
  ascending = Ascending-snoc t.messages _ h.ascending h.below;
  below =
      All-append (λ m. m.id < t.next_id + 1) t.messages _ (below_suc t.next_id t.messages h.below)
        (omega arith);
}

pub delete_messages-IsOrdered :
    (s : Text) (t : Tables) → IsOrdered t → IsOrdered (delete_messages s t)
unfolding delete_messages
delete_messages-IsOrdered s t h = record {
  ascending = filter-Ascending _ t.messages h.ascending;
  below = filter-All (λ m. m.id < t.next_id) _ t.messages h.below;
}

pub select_messages_lem :
    (s : Text) (n : ℕ) (t : Tables)
    → IsOrdered t
    → select_messages s n t ≡ take n (reverse (filter (of_session s) t.messages))
unfolding select_messages
select_messages_lem s n t h = ap (take n) (
    sort_by-IsReversed newer _
      (Ascending-IsReversed _ (filter-Ascending (of_session s) t.messages h.ascending)))
