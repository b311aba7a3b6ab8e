-- ===== src/Sync/Pending.antt =====
-- apps/mobile/src/sync/receiptSyncStore.ts: which receipts the queue of uploads lists.
use text.Mathlib.TextEquality.{eq_iff}
use challanse.Prelude.{
  inl, inr, zero, suc, ◌≡◌, ◌≢◌, refl, sym, ap, ◌∙◌, ℕ, ◌≤◌, ◌<◌, Bool, true, false, not, none,
  some, List, [], ◌∷◌, map, arith, String, nat_eq, select, add_last, sort, take, length,
  if◌then◌else◌, All, All-map, sort-All,
}
use challanse.Auth.Laws.{IsIn}
use challanse.Sync.{
  ReceiptEvent, SyncState, ReceiptDatabase, QueueItem, state_of, joined, is_due, older, put_state,
  list_pending_receipt_sync_items, upsert_receipt_sync_state, increment_receipt_sync_attempt,
  complete_receipt_sync,
}

module _ {A : Type 0} where
  take-All : (P : A → Type 0) (n : ℕ) (xs : List A) → All P xs → All P (take n xs)
  take-All P zero xs h = tt
  take-All P (suc n) [] h = tt
  take-All P (suc n) (x ∷ xs) (h, hs) = (h, take-All P n xs hs)

  length-take : (n : ℕ) (xs : List A) → length (take n xs) ≤ n
  length-take zero xs = omega arith
  length-take (suc n) [] = omega arith
  length-take (suc n) (x ∷ xs) = omega (arith, length-take n xs)

  select-All :
      (P : A → Type 0) (q : A → Bool) (xs : List A)
      → All P xs
      → All (λ x. P x × (q x ≡ true)) (select q xs)
  select-All P q [] h = tt
  select-All P q (x ∷ xs) (h, hs) =
      elim (q x)
          as (λ b.
            (q x ≡ b)
            → All (λ y. P y × (q y ≡ true)) (if b then x ∷ select q xs else select q xs)) [
              | true ↦ λ t. ((h, t), select-All P q xs hs)
              | false ↦ λ _. select-All P q xs hs
            ]
        refl

-- The item is an event of the table with its row of state, not synced, and its time has come.
abbrev pub IsPending : ReceiptDatabase → ℕ → QueueItem → Type 0
IsPending db now q =
    IsIn q.event db.events
    × (q ≡ joined q.event (state_of db.states q.event.id))
    × (q.status ≢ "synced")
    × (q.next_attempt_at_unix ≤ now)

joined_events :
    (states : List SyncState) (events : List ReceiptEvent)
    → All
        (λ q. IsIn q.event events × (q ≡ joined q.event (state_of states q.event.id)))
        (map (λ e. joined e (state_of states e.id)) events)
joined_events states [] = tt
joined_events states (e ∷ events) = (
  elim (state_of states e.id)
        as (λ o.
          (state_of states e.id ≡ o)
          → IsIn (joined e o).event (e ∷ events)
            × (joined e o ≡ joined (joined e o).event (state_of states (joined e o).event.id))) [
              | none ↦ λ h. (inl refl, ap (joined e) (sym h))
              | some s ↦ λ h. (inl refl, ap (joined e) (sym h))
            ]
      refl,
  All-map (map (λ x. joined x (state_of states x.id)) events) (λ q (at, same). (inr at, same))
      (joined_events states events),
)

pub list_pending_receipt_sync_items-IsPending :
    (db : ReceiptDatabase) (now limit : ℕ)
    → All (IsPending db now) (list_pending_receipt_sync_items db now limit)
      × (length (list_pending_receipt_sync_items db now limit) ≤ limit)
unfolding list_pending_receipt_sync_items
list_pending_receipt_sync_items-IsPending db now limit =
    let items = map (λ e. joined e (state_of db.states e.id)) db.events in
    let due = select-All _ (is_due now) items (joined_events db.states db.events) in
    let pending : All (IsPending db now) (select (is_due now) items) =
      All-map (select (is_due now) items)
        (λ q ((at, same), t).
          (at, same, λ e. ground (arith, t, eq_iff q.status "synced", e), ground (arith, t)))
        due in
    (
      take-All (IsPending db now) limit (sort older (select (is_due now) items))
          (sort-All (IsPending db now) older (select (is_due now) items) pending),
      length-take limit (sort older (select (is_due now) items)),
    )

find-select_other :
    (states : List SyncState) (id : ℕ)
    → state_of (select (λ t. not (nat_eq t.receipt_event_id id)) states) id ≡ none
find-select_other [] id = refl
find-select_other (s ∷ states) id = ground (arith, find-select_other states id)

find-add_last :
    (states : List SyncState) (s : SyncState) (id : ℕ)
    → s.receipt_event_id ≡ id
    → state_of states id ≡ none
    → state_of (add_last states s) id ≡ some s
find-add_last [] s id e h = ground (arith, e)
find-add_last (t ∷ states) s id e h = ground (arith, h, find-add_last states s id e)

state_of-put_state :
    (states : List SyncState) (s : SyncState)
    → state_of (put_state s states) s.receipt_event_id ≡ some s
state_of-put_state states s =
    find-add_last (select (λ t. not (nat_eq t.receipt_event_id s.receipt_event_id)) states) s
      s.receipt_event_id refl (find-select_other states s.receipt_event_id)

-- A receipt that is completed is listed at no later time, whatever the limit.
pub list_pending_receipt_sync_items-complete_receipt_sync :
    (db : ReceiptDatabase) (now id total later limit : ℕ)
    → All
        (λ q. q.event.id ≢ id)
        (list_pending_receipt_sync_items (complete_receipt_sync now id total db) later limit)
unfolding complete_receipt_sync upsert_receipt_sync_state
list_pending_receipt_sync_items-complete_receipt_sync db now id total later limit =
    let after = complete_receipt_sync now id total db in
    All-map _
      (λ q (at_table, same, open_now, due) e. open_now (
        ap (λ r. r.status) same
        ∙ ap (λ o. (joined q.event o).status)
            (ap (state_of after.states) e ∙ state_of-put_state db.states _)))
      (list_pending_receipt_sync_items-IsPending after later limit).0

-- After a failed attempt the receipt is not listed before the time that was set for the next one.
pub list_pending_receipt_sync_items-increment_receipt_sync_attempt :
    (db : ReceiptDatabase) (now id total uploaded : ℕ) (last_error : String) (next later limit : ℕ)
    → later < next
    → All
        (λ q. q.event.id ≢ id)
        (list_pending_receipt_sync_items
          (increment_receipt_sync_attempt now id total uploaded last_error next db).1
          later
          limit)
unfolding increment_receipt_sync_attempt upsert_receipt_sync_state
list_pending_receipt_sync_items-increment_receipt_sync_attempt db now id total uploaded last_error
      next later limit early =
    let after = (increment_receipt_sync_attempt now id total uploaded last_error next db).1 in
    All-map _
      (λ q (at_table, same, open_now, due) e.
        let at =
          ap (λ r. r.next_attempt_at_unix) same
          ∙ ap (λ o. (joined q.event o).next_attempt_at_unix)
              (ap (state_of after.states) e ∙ state_of-put_state db.states _) in
        omega (arith, at, due, early))
      (list_pending_receipt_sync_items-IsPending after later limit).0
