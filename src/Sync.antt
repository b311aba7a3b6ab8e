-- ===== src/Sync.antt =====
-- apps/mobile/src/sync/receiptSyncStore.ts: the tables that keep the progress of a device's uploads,
-- and the backoff of apps/mobile/src/sync/receiptBackgroundSync.ts. Times are whole seconds; `now` is
-- what `nowUnix()` reads. Columns have the types of their declaration.
pub mod Pending
pub mod Purge
pub mod Backoff
use text.Mathlib.Text.{◌==◌}
use challanse.Prelude.{
  ℕ, ◌+◌, ◌-◌, ◌*◌, ◌^◌, Bool, true, false, not, ◌&&◌, Option, none, some, List, [], ◌∷◌, map,
  String, nat_eq, leb, min, select, find, update, add_last, sort, take, length, ltb, if◌then◌else◌,
}

pub record ReceiptEvent : Type 0 where
  pub id : ℕ
  pub receipt_uuid : String
  pub site_id : String
  pub device_id : String
  pub vendor_id : String
  pub captured_at_unix : ℕ
  pub captured_quantity : ℕ
  pub app_version : String
  pub configuration_version : ℕ
  pub image_blob : List ℕ

pub record SyncState : Type 0 where
  pub receipt_event_id : ℕ
  pub status : String
  pub uploaded_bytes : ℕ
  pub total_bytes : ℕ
  pub attempt_count : ℕ
  pub next_attempt_at_unix : ℕ
  pub last_error : String
  pub created_at_unix : ℕ
  pub updated_at_unix : ℕ
  pub last_synced_at_unix : Option ℕ

pub record SyncArtifact : Type 0 where
  pub receipt_event_id : ℕ
  pub mime_type : String
  pub payload_blob : List ℕ
  pub total_bytes : ℕ
  pub uploaded_bytes : ℕ
  pub created_at_unix : ℕ
  pub updated_at_unix : ℕ

pub record UploadId : Type 0 where
  pub receipt_event_id : ℕ
  pub upload_id : String
  pub created_at_unix : ℕ
  pub updated_at_unix : ℕ

pub record SyncLog : Type 0 where
  pub receipt_event_id : Option ℕ
  pub state : String
  pub detail : String
  pub created_at_unix : ℕ

pub record ReceiptDatabase : Type 0 where
  pub events : List ReceiptEvent
  pub states : List SyncState
  pub artifacts : List SyncArtifact
  pub upload_ids : List UploadId
  pub logs : List SyncLog

pub record QueueItem : Type 0 where
  pub event : ReceiptEvent
  pub status : String
  pub uploaded_bytes : ℕ
  pub total_bytes : ℕ
  pub attempt_count : ℕ
  pub next_attempt_at_unix : ℕ
  pub last_error : String

-- The state's row of an event.
abbrev pub state_of : List SyncState → ℕ → Option SyncState
state_of states id = find (λ s. nat_eq s.receipt_event_id id) states

-- An event with its row of state, if it has one.
abbrev pub joined : ReceiptEvent → Option SyncState → QueueItem
joined e none = record {
  event = e;
  status = "pending";
  uploaded_bytes = 0;
  total_bytes = 0;
  attempt_count = 0;
  next_attempt_at_unix = 0;
  last_error = "";
}
joined e (some s) = record {
  event = e;
  status = s.status;
  uploaded_bytes = s.uploaded_bytes;
  total_bytes = s.total_bytes;
  attempt_count = s.attempt_count;
  next_attempt_at_unix = s.next_attempt_at_unix;
  last_error = s.last_error;
}

abbrev pub is_due : ℕ → QueueItem → Bool
is_due now q = not (q.status == "synced") && leb q.next_attempt_at_unix now

-- `ORDER BY events.captured_at_unix ASC, events.id ASC`
abbrev pub older : QueueItem → QueueItem → Bool
older a b =
    if nat_eq a.event.captured_at_unix b.event.captured_at_unix
    then leb a.event.id b.event.id
    else leb a.event.captured_at_unix b.event.captured_at_unix

unfoldable pub list_pending_receipt_sync_items : ReceiptDatabase → ℕ → ℕ → List QueueItem
list_pending_receipt_sync_items db now limit =
    take limit
      (sort older (select (is_due now) (map (λ e. joined e (state_of db.states e.id)) db.events)))

-- `SELECT created_at_unix`, or the present time.
abbrev pub created_or : ℕ → Option SyncState → ℕ
created_or now none = now
created_or now (some s) = s.created_at_unix

-- `INSERT OR REPLACE` into the table of states.
abbrev pub put_state : SyncState → List SyncState → List SyncState
put_state s states =
    add_last (select (λ t. not (nat_eq t.receipt_event_id s.receipt_event_id)) states) s

unfoldable pub upsert_receipt_sync_state :
    (now id : ℕ)
    → (status : String) → (uploaded total attempts next : ℕ) → (last_error : String)
    → (last_synced : Option ℕ) → ReceiptDatabase
    → ReceiptDatabase
upsert_receipt_sync_state now id status uploaded total attempts next last_error last_synced db =
    record db {
      states =
          put_state
            (record {
              receipt_event_id = id;
              status = status;
              uploaded_bytes = uploaded;
              total_bytes = total;
              attempt_count = attempts;
              next_attempt_at_unix = next;
              last_error = last_error;
              created_at_unix = created_or now (state_of db.states id);
              updated_at_unix = now;
              last_synced_at_unix = last_synced;
            })
            db.states;
    }

abbrev pub mark_from :
    (now id : ℕ) → (status detail : String) → Option SyncState → ReceiptDatabase → ReceiptDatabase
mark_from now id status detail none db =
    upsert_receipt_sync_state now id status 0 0 0 0 detail none db
mark_from now id status detail (some s) db =
    upsert_receipt_sync_state now id status s.uploaded_bytes s.total_bytes s.attempt_count
      s.next_attempt_at_unix detail s.last_synced_at_unix db

unfoldable pub mark_receipt_sync_state :
    (now id : ℕ) → (status detail : String) → ReceiptDatabase → ReceiptDatabase
mark_receipt_sync_state now id status detail db =
    mark_from now id status detail (state_of db.states id) db

abbrev pub attempts_of : Option SyncState → ℕ
attempts_of none = 0
attempts_of (some s) = s.attempt_count

-- Returns the number of the attempt.
unfoldable pub increment_receipt_sync_attempt :
    (now id total uploaded : ℕ)
    → (last_error : String) → (next : ℕ) → ReceiptDatabase
    → ℕ × ReceiptDatabase
increment_receipt_sync_attempt now id total uploaded last_error next db =
    let attempt = attempts_of (state_of db.states id) + 1 in
    (
      attempt,
      upsert_receipt_sync_state now id "backoff" uploaded total attempt next last_error none db,
    )

unfoldable pub complete_receipt_sync : (now id total : ℕ) → ReceiptDatabase → ReceiptDatabase
complete_receipt_sync now id total db =
    upsert_receipt_sync_state now id "synced" total total 0 0 "" (some now) db

unfoldable pub get_receipt_sync_artifact : ReceiptDatabase → ℕ → Option SyncArtifact
get_receipt_sync_artifact db id = find (λ a. nat_eq a.receipt_event_id id) db.artifacts

abbrev pub artifact_created_or : ℕ → Option SyncArtifact → ℕ
artifact_created_or now none = now
artifact_created_or now (some a) = a.created_at_unix

unfoldable pub upsert_receipt_sync_artifact :
    (now id : ℕ)
    → (mime_type : String) → (payload : List ℕ) → (total uploaded : ℕ) → ReceiptDatabase
    → ReceiptDatabase
upsert_receipt_sync_artifact now id mime_type payload total uploaded db = record db {
  artifacts = add_last (select (λ a. not (nat_eq a.receipt_event_id id)) db.artifacts) (record {
    receipt_event_id = id;
    mime_type = mime_type;
    payload_blob = payload;
    total_bytes = total;
    uploaded_bytes = uploaded;
    created_at_unix = artifact_created_or now (get_receipt_sync_artifact db id);
    updated_at_unix = now;
  });
}

unfoldable pub update_receipt_sync_artifact_progress :
    (now id uploaded : ℕ) → ReceiptDatabase → ReceiptDatabase
update_receipt_sync_artifact_progress now id uploaded db = record db {
  artifacts =
      update (λ a. nat_eq a.receipt_event_id id)
        (λ a. record a { uploaded_bytes = uploaded; updated_at_unix = now }) db.artifacts;
}

abbrev pub upload_id_or_empty : Option UploadId → String
upload_id_or_empty none = ""
upload_id_or_empty (some u) = u.upload_id

unfoldable pub get_receipt_upload_id : ReceiptDatabase → ℕ → String
get_receipt_upload_id db id =
    upload_id_or_empty (find (λ u. nat_eq u.receipt_event_id id) db.upload_ids)

abbrev pub session_created_or : ℕ → Option UploadId → ℕ
session_created_or now none = now
session_created_or now (some u) = u.created_at_unix

unfoldable pub set_receipt_upload_id :
    (now id : ℕ) → (upload_id : String) → ReceiptDatabase → ReceiptDatabase
set_receipt_upload_id now id upload_id db = record db {
  upload_ids = add_last (select (λ u. not (nat_eq u.receipt_event_id id)) db.upload_ids) (record {
    receipt_event_id = id;
    upload_id = upload_id;
    created_at_unix =
        session_created_or now (find (λ u. nat_eq u.receipt_event_id id) db.upload_ids);
    updated_at_unix = now;
  });
}

unfoldable pub clear_receipt_upload_id : ℕ → ReceiptDatabase → ReceiptDatabase
clear_receipt_upload_id id db = record db {
  upload_ids = select (λ u. not (nat_eq u.receipt_event_id id)) db.upload_ids;
}

unfoldable pub record_receipt_sync_log :
    (now : ℕ) → Option ℕ → (state detail : String) → ReceiptDatabase → ReceiptDatabase
record_receipt_sync_log now id state detail db = record db {
  logs =
      add_last db.logs
        (record { receipt_event_id = id; state = state; detail = detail; created_at_unix = now });
}

-- `last_synced_at_unix IS NOT NULL AND last_synced_at_unix <= now - grace`
abbrev pub synced_before : ℕ → ℕ → Option ℕ → Bool
synced_before now grace none = false
synced_before now grace (some at) = leb (at + grace) now

-- The rows of the inner `SELECT`.
abbrev pub is_acknowledged : ℕ → ℕ → SyncState → Bool
is_acknowledged now grace s = s.status == "synced" && synced_before now grace s.last_synced_at_unix

-- `id IN (SELECT receipt_event_id …)`
abbrev pub acknowledged_among : ℕ → ℕ → List SyncState → ℕ → Bool
acknowledged_among now grace states id =
    ltb 0
      (length (select (λ s. nat_eq s.receipt_event_id id && is_acknowledged now grace s) states))

unfoldable pub purge_acknowledged_receipt_payloads :
    (now grace_days : ℕ) → ReceiptDatabase → ReceiptDatabase
purge_acknowledged_receipt_payloads now grace_days db =
    let acknowledged = acknowledged_among now (grace_days * 86400) db.states in
    record db {
      events =
          update (λ e. acknowledged e.id && ltb 0 (length e.image_blob))
            (λ e. record e { image_blob = [] }) db.events;
      artifacts = select (λ a. not (acknowledged a.receipt_event_id)) db.artifacts;
    }

-- Milliseconds; `attemptCount` is never negative.
unfoldable pub backoff : ℕ → ℕ
backoff attempt_count = min 900000 (5000 * 2 ^ attempt_count)
