-- ===== src/Uploads/Create.antt =====
-- apps/edge/src/handlers/uploads.ts: `handleCreateUpload`.
use text.Mathlib.Text.{◌==◌}
use challanse.Prelude.{
  ℕ, ◌+◌, ◌/◌, Bool, not, ◌&&◌, Option, none, some, List, [], ◌∷◌, String, select, length, ltb, leb,
  add_last, or_else, truthy_number, print_number, take_string, is_none,
}
use challanse.World.{
  Platform, Act, ReceiptRow, response, duplicate_key, pure, gets, modify, guard, or_stop, ◌>>=◌,
  ◌>>◌, draw_uuid, read_clock, now_iso,
}
use challanse.Auth.{Headers, DeviceContext, given, or_empty, exists, get_site}
use challanse.Audit.Events.{upload_created_event}
use challanse.Audit.Chain.{append_audit_event}
use challanse.Uploads.{
  upload_part_size, max_image_bytes, authenticated_once, chain_of, image_key_of,
}

-- The body of the request for a new session; a field that is missing is `none`.
pub record CreateBody : Type 0 where
  pub receipt_id : Option String
  pub vendor_id : Option String
  pub captured_at_unix : Option ℕ
  pub captured_quantity : Option ℕ
  pub image_sha256 : Option String
  pub total_bytes : Option ℕ
  pub mime_type : Option String

pub record CreatedUpload : Type 0 where
  pub upload_id : String
  pub receipt_id : String
  pub part_size : ℕ
  pub expires_at : String

abbrev pub or_zero : Option ℕ → ℕ
or_zero none = 0
or_zero (some n) = n

abbrev pub fields_given : CreateBody → Bool
fields_given b =
    (given b.receipt_id && given b.vendor_id)
    && ((truthy_number b.captured_at_unix && not (is_none b.captured_quantity))
        && (given b.image_sha256 && truthy_number b.total_bytes))

abbrev pub of_site : String → ReceiptRow → Bool
of_site site_id r = r.site_id == site_id

-- `date(created_at) = today`: the first ten characters of an ISO text are its date.
abbrev pub of_day : String → String → ReceiptRow → Bool
of_day site_id today r = r.site_id == site_id && take_string 10 r.created_at == today

abbrev pub total_image_bytes : List ReceiptRow → ℕ
total_image_bytes [] = 0
total_image_bytes (r ∷ rs) = r.image_bytes + total_image_bytes rs

-- `INSERT INTO receipts`, whose identifier is the primary key.
abbrev pub insert_receipt : ReceiptRow → Act (Unit {0})
insert_receipt row = do
  taken ← gets (λ w. exists (λ r. r.id == row.id) w.receipts)
  guard (not taken) duplicate_key
  modify (λ w. record w { receipts = add_last w.receipts row })

-- The two rows, and the audit event of a new session, once the limits are checked.
unfoldable pub open_session : Platform → DeviceContext → CreateBody → Act CreatedUpload
open_session p device body = do
  upload_id ← draw_uuid p
  let receipt_id = or_empty body.receipt_id
  let mime_type = or_else body.mime_type "image/webp"
  let image_key = image_key_of device receipt_id
  created_at ← now_iso p
  updated_at ← now_iso p
  insert_receipt (record {
    id = receipt_id;
    site_id = device.site_id;
    device_id = device.id;
    vendor_id = or_empty body.vendor_id;
    captured_at_unix = or_zero body.captured_at_unix;
    captured_quantity = or_zero body.captured_quantity;
    image_key = image_key;
    image_bytes = 0;
    image_sha256 = or_empty body.image_sha256;
    mime_type = mime_type;
    status = "UPLOADING";
    version = 1;
    enrichment_status = "PENDING";
    challan_number = "";
    material_description = "";
    verified_quantity = none;
    unit = "";
    notes = "";
    po_number = "";
    material_code = "";
    reviewed_by = none;
    reviewed_at = none;
    created_at = created_at;
    updated_at = updated_at;
  })
  uploaded_at ← now_iso p
  modify (λ w. record w {
    sessions = add_last w.sessions (record {
      id = upload_id;
      receipt_id = receipt_id;
      device_id = device.id;
      site_id = device.site_id;
      organization_id = device.organization_id;
      total_bytes = or_zero body.total_bytes;
      uploaded_bytes = 0;
      status = "IN_PROGRESS";
      mime_type = mime_type;
      declared_sha256 = or_empty body.image_sha256;
      url_path = image_key;
      uploaded_at = uploaded_at;
    });
  })
  timestamp ← now_iso p
  _ ← append_audit_event p (chain_of device) "UPLOAD_CREATED" (
      upload_created_event upload_id device.id device.site_id device.organization_id
        (print_number ((or_zero body.total_bytes + 255999) / upload_part_size)) timestamp)
  expires ← read_clock p
  pure (record {
    upload_id = upload_id;
    receipt_id = receipt_id;
    part_size = upload_part_size;
    expires_at = p.iso (expires + 86400000);
  })

-- `body` is `none` where the request's body is no JSON.
unfoldable pub handle_create_upload :
    Platform → (pepper : Option String) → Headers → Option CreateBody → Act CreatedUpload
handle_create_upload p pepper h sent = do
  device ← authenticated_once p pepper h
  body ← or_stop sent (response 400 "INVALID_REQUEST")
  guard (fields_given body) (response 400 "MISSING_FIELDS")
  guard (not (ltb max_image_bytes (or_zero body.total_bytes))) (response 413 "IMAGE_TOO_LARGE")
  found ← gets (λ w. get_site w device.site_id)
  site ← or_stop found (response 404 "SITE_NOT_FOUND")
  now ← now_iso p
  daily_count ← gets (λ w. length (select (of_day device.site_id (take_string 10 now)) w.receipts))
  guard (ltb daily_count site.daily_receipt_limit) (response 429 "DAILY_LIMIT_EXCEEDED")
  storage_used ← gets (λ w. total_image_bytes (select (of_site device.site_id) w.receipts))
  guard (leb (storage_used + or_zero body.total_bytes) site.storage_byte_limit)
      (response 429 "STORAGE_LIMIT_EXCEEDED")
  open_session p device body
