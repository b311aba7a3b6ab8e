-- ===== src/Tests/Sync.antt =====
-- A phone with two receipts, and the theorems on its queue.
use text.Mathlib.TextEquality.{eq_iff}
use challanse.Prelude.{◌≡◌, ◌≢◌, ℕ, ◌+◌, ◌≤◌, none, [], ◌∷◌, All, arith}
use challanse.Sync.{
  ReceiptEvent, SyncState, ReceiptDatabase, list_pending_receipt_sync_items, complete_receipt_sync,
  increment_receipt_sync_attempt, purge_acknowledged_receipt_payloads, get_receipt_sync_artifact,
  backoff,
}
use challanse.Sync.Pending.{
  list_pending_receipt_sync_items-complete_receipt_sync,
  list_pending_receipt_sync_items-increment_receipt_sync_attempt,
}
use challanse.Sync.Purge.{event_of, purge_acknowledged_receipt_payloads_kept}
use challanse.Sync.Backoff.{backoff_bounded}

abbrev captured : ℕ → ReceiptEvent
captured id = record {
  id = id;
  receipt_uuid = "r";
  site_id = "s1";
  device_id = "d1";
  vendor_id = "v1";
  captured_at_unix = 100;
  captured_quantity = 4;
  app_version = "1";
  configuration_version = 1;
  image_blob = 1 ∷ 2 ∷ [];
}

abbrev failed_once : SyncState
failed_once = record {
  receipt_event_id = 2;
  status = "backoff";
  uploaded_bytes = 0;
  total_bytes = 2;
  attempt_count = 1;
  next_attempt_at_unix = 150;
  last_error = "x";
  created_at_unix = 110;
  updated_at_unix = 110;
  last_synced_at_unix = none;
}

abbrev phone : ReceiptDatabase
phone = record {
  events = captured 1 ∷ captured 2 ∷ [];
  states = failed_once ∷ [];
  artifacts = [];
  upload_ids = [];
  logs = [];
}

list_pending_receipt_sync_items-complete_receipt_sync_example :
    All
      (λ q. q.event.id ≢ 1)
      (list_pending_receipt_sync_items (complete_receipt_sync 120 1 2 phone) 200 5)
list_pending_receipt_sync_items-complete_receipt_sync_example =
    list_pending_receipt_sync_items-complete_receipt_sync phone 120 1 2 200 5

list_pending_receipt_sync_items-increment_receipt_sync_attempt_example :
    All
      (λ q. q.event.id ≢ 1)
      (list_pending_receipt_sync_items
        (increment_receipt_sync_attempt 120 1 2 0 "x" 130 phone).1
        125
        5)
list_pending_receipt_sync_items-increment_receipt_sync_attempt_example =
    list_pending_receipt_sync_items-increment_receipt_sync_attempt phone 120 1 2 0 "x" 130 125 5
      (omega arith)

purge_acknowledged_receipt_payloads_kept_example :
    (event_of (purge_acknowledged_receipt_payloads 1000000 7 phone) 2 ≡ event_of phone 2)
    × (get_receipt_sync_artifact (purge_acknowledged_receipt_payloads 1000000 7 phone) 2
        ≡ get_receipt_sync_artifact phone 2)
purge_acknowledged_receipt_payloads_kept_example =
    purge_acknowledged_receipt_payloads_kept phone 1000000 7 2
      ((λ _ e. ground (arith, (eq_iff "backoff" "synced").1 e)), tt)

backoff_bounded_example : (5000 ≤ backoff 3) × (backoff 3 ≤ 900000) × (backoff 3 ≤ backoff (3 + 1))
backoff_bounded_example = backoff_bounded 3
