-- ===== src/Sync/Purge.antt =====
-- apps/mobile/src/sync/receiptSyncStore.ts: which payloads the purge keeps.
use text.Mathlib.TextEquality.{eq_iff}
use challanse.Prelude.{
  ◌≡◌, ◌≢◌, refl, ap, ◌∙◌, ℕ, ◌*◌, Bool, false, not, ◌&&◌, Option, List, [], ◌∷◌, arith, nat_eq,
  ltb, select, update, find, length, All, Bool-cases, inl, inr,
}
use challanse.Sync.{
  ReceiptEvent, SyncState, SyncArtifact, ReceiptDatabase, acknowledged_among,
  purge_acknowledged_receipt_payloads, get_receipt_sync_artifact,
}

-- The event with an identifier.
abbrev pub event_of : ReceiptDatabase → ℕ → Option ReceiptEvent
event_of db id = find (λ e. nat_eq e.id id) db.events

-- No row of state says that the receipt is synced.
abbrev pub NotSynced : ReceiptDatabase → ℕ → Type 0
NotSynced db id = All (λ s. s.receipt_event_id ≡ id → s.status ≢ "synced") db.states

acknowledged_among-NotSynced :
    (now grace id : ℕ) (states : List SyncState)
    → All (λ s. s.receipt_event_id ≡ id → s.status ≢ "synced") states
    → acknowledged_among now grace states id ≡ false
acknowledged_among-NotSynced now grace id [] h = refl
acknowledged_among-NotSynced now grace id (s ∷ states) (h, hs) =
    ground (arith, h, acknowledged_among-NotSynced now grace id states hs, eq_iff s.status "synced")

find-update_kept :
    (q : ℕ → Bool) (id : ℕ) (events : List ReceiptEvent)
    → q id ≡ false
    → find
        (λ e. nat_eq e.id id)
        (update
          (λ e. q e.id && ltb 0 (length e.image_blob))
          (λ e. record e { image_blob = [] })
          events)
      ≡ find (λ e. nat_eq e.id id) events
find-update_kept q id [] h = refl
find-update_kept q id (e ∷ events) h = elim (Bool-cases (nat_eq e.id id)) [
  | inl t ↦
      let same : q e.id ≡ false = ap q (ground (arith, t)) ∙ h in
      ground (arith, same, find-update_kept q id events h)
  | inr n ↦ elim (Bool-cases (q e.id && ltb 0 (length e.image_blob))) [
    | inl b ↦ rw b (ground (arith, n, find-update_kept q id events h))
    | inr b ↦ rw b (ground (arith, n, find-update_kept q id events h))
  ]
]

find-select_kept :
    (q : ℕ → Bool) (id : ℕ) (artifacts : List SyncArtifact)
    → q id ≡ false
    → find (λ a. nat_eq a.receipt_event_id id) (select (λ a. not (q a.receipt_event_id)) artifacts)
      ≡ find (λ a. nat_eq a.receipt_event_id id) artifacts
find-select_kept q id [] h = refl
find-select_kept q id (a ∷ artifacts) h = elim (Bool-cases (nat_eq a.receipt_event_id id)) [
  | inl t ↦
      let same : q a.receipt_event_id ≡ false = ap q (ground (arith, t)) ∙ h in
      ground (arith, same, find-select_kept q id artifacts h)
  | inr n ↦ ground (arith, n, find-select_kept q id artifacts h)
]

-- The purge leaves the image and the artifact of every receipt that no row of state calls synced as
-- they are, whatever the time and the days of grace.
pub purge_acknowledged_receipt_payloads_kept :
    (db : ReceiptDatabase) (now grace_days id : ℕ)
    → NotSynced db id
    → (event_of (purge_acknowledged_receipt_payloads now grace_days db) id ≡ event_of db id)
      × (get_receipt_sync_artifact (purge_acknowledged_receipt_payloads now grace_days db) id
          ≡ get_receipt_sync_artifact db id)
unfolding purge_acknowledged_receipt_payloads get_receipt_sync_artifact
purge_acknowledged_receipt_payloads_kept db now grace_days id h =
    let grace = grace_days * 86400 in
    let q = acknowledged_among now grace db.states in
    let kept = acknowledged_among-NotSynced now grace id db.states h in
    (find-update_kept q id db.events kept, find-select_kept q id db.artifacts kept)
