-- ===== src/Uploads/Complete.antt =====
-- apps/edge/src/handlers/uploads.ts: `handleCompleteUpload`.
use text.Mathlib.Text.{◌==◌}
use challanse.Prelude.{
  ℕ, Bool, not, ◌||◌, Option, none, some, List, [], ◌∷◌, String, update, length, ltb, add_last,
  print_number, is_none, sort, append,
}
use challanse.Json.{text_le, Fields, str, num, null}
use challanse.World.{
  Platform, Act, SessionRow, StoredObject, response, syntax_error, pure, gets, modify, guard,
  or_stop, ◌>>=◌, ◌>>◌, now_iso,
}
use challanse.Auth.{Headers, DeviceContext, given, or_empty}
use challanse.Audit.Events.{members, upload_completed_event}
use challanse.Audit.Chain.{append_audit_event}
use challanse.Graph.{upsert_graph_node, ensure_receipt_in_graph}
use challanse.Uploads.{
  Bucket, authenticated_once, chain_of, image_key_of, own_session, part_prefix, update_session,
  modify_objects,
}

pub record CompletedUpload : Type 0 where
  pub receipt_id : String
  pub image_bytes : ℕ
  pub image_sha256 : String
  pub status : String

abbrev pub append_chunk : Option (List ℕ) → List ℕ → List ℕ
append_chunk none rest = rest
append_chunk (some chunk) rest = append chunk rest

-- The parts one after the other; a key without an object is passed over.
abbrev pub concatenated : Bucket → List StoredObject → List String → List ℕ
concatenated b objects [] = []
concatenated b objects (key ∷ keys) = append_chunk (b.get key objects) (concatenated b objects keys)

abbrev pub delete_all : Bucket → List String → List StoredObject → List StoredObject
delete_all b [] objects = objects
delete_all b (key ∷ keys) objects = delete_all b keys (b.delete key objects)

-- The properties of the receipt's node.
abbrev pub stored_properties : ℕ → (image_sha256 now : String) → Fields
stored_properties total_bytes image_sha256 now = members (
    ("image_bytes", num (print_number total_bytes))
    ∷ ("image_sha256", str image_sha256)
    ∷ ("status", str "PENDING_REVIEW")
    ∷ ("captured_at", str now)
    ∷ ("vendor_id", null)
    ∷ [])

-- `JSON.parse(request.headers.get('X-Receipt-Meta') || '{}')`, whose value is not used.
abbrev pub parses : Platform → Option String → Bool
parses p meta = not (given meta) || not (is_none (p.json_parse (or_empty meta)))

-- The two updates and the audit event of a stored image.
unfoldable pub record_image :
    Platform → DeviceContext → SessionRow → (upload_id now : String) → ℕ → Act String
record_image p device session upload_id now total_bytes = do
  modify (λ w. record w {
    receipts =
        update (λ r. r.id == session.receipt_id)
          (λ r. record r {
            image_bytes = total_bytes;
            status = "PENDING_REVIEW";
            enrichment_status = "IMAGE_STORED";
            updated_at = now;
          })
          w.receipts;
  })
  update_session upload_id (λ s. record s { status = "COMPLETED"; uploaded_at = now })
  timestamp ← now_iso p
  append_audit_event p (chain_of device) "UPLOAD_COMPLETED" (
      upload_completed_event session.receipt_id device.id device.site_id device.organization_id
        (print_number total_bytes) timestamp)

-- The writes to the graph, with no vendor yet.
unfoldable pub record_in_graph :
    Platform → DeviceContext → SessionRow → (meta : Option String) → Fields → Act (Unit {0})
record_in_graph p device session meta properties = do
  upsert_graph_node p device.organization_id "Organization"
      (members (("id", str device.organization_id) ∷ []))
  guard (parses p meta) syntax_error
  ensure_receipt_in_graph p session.receipt_id device.id "" device.site_id device.organization_id
      properties

-- What follows once the parts are known to make up the declared image.
unfoldable pub store_image :
    Platform
    → Bucket
    → DeviceContext
    → SessionRow
    → (upload_id : String) → (meta : Option String) → (part_keys : List String) → (image : List ℕ)
    → Act CompletedUpload
store_image p b device session upload_id meta part_keys image = do
  let image_key = image_key_of device session.receipt_id
  let total_bytes = length image
  let actual_sha256 = p.sha256_bytes image
  modify_objects (b.put image_key image session.mime_type)
  modify_objects (delete_all b part_keys)
  now ← now_iso p
  _ ← record_image p device session upload_id now total_bytes
  record_in_graph p device session meta (stored_properties total_bytes actual_sha256 now)
  modify (λ w. record w {
    queue = add_last w.queue (record {
      receipt_id = session.receipt_id;
      organization_id = device.organization_id;
      site_id = device.site_id;
      image_key = image_key;
      image_bytes = total_bytes;
    });
  })
  pure (record {
    receipt_id = session.receipt_id;
    image_bytes = total_bytes;
    image_sha256 = actual_sha256;
    status = "PENDING_REVIEW";
  })

-- What `handleCompleteUpload` does with the session that it has found.
unfoldable pub complete_session :
    Platform
    → Bucket
    → DeviceContext
    → SessionRow
    → (upload_id : String) → (meta : Option String) → Act CompletedUpload
complete_session p b device session upload_id meta = do
  guard (session.status == "PARTS_UPLOADED") (response 400 "UPLOAD_NOT_COMPLETE")
  part_keys ← gets (λ w. sort text_le (b.list (part_prefix device upload_id) w.objects))
  guard (ltb 0 (length part_keys)) (response 400 "NO_PARTS_FOUND")
  image ← gets (λ w. concatenated b w.objects part_keys)
  guard (p.sha256_bytes image == session.declared_sha256) (response 400 "IMAGE_HASH_MISMATCH")
  store_image p b device session upload_id meta part_keys image

-- `meta` is the header `X-Receipt-Meta`.
unfoldable pub handle_complete_upload :
    Platform
    → Bucket
    → (pepper : Option String) → Headers
    → (upload_id : String) → (meta : Option String) → Act CompletedUpload
handle_complete_upload p b pepper h upload_id meta = do
  device ← authenticated_once p pepper h
  found ← gets (own_session upload_id device)
  session ← or_stop found (response 404 "UPLOAD_NOT_FOUND")
  complete_session p b device session upload_id meta
