-- ===== src/Uploads/Part.antt =====
-- apps/edge/src/handlers/uploads.ts: `handleUploadStatus` and `handleUploadPart`.
use Prim.Native.String.{◌++◌}
use text.Mathlib.Text.{◌==◌}
use challanse.Prelude.{
  ℕ, ◌+◌, Bool, not, ◌||◌, Option, List, String, length, leb, if◌then◌else◌, print_number,
  pad_start,
}
use challanse.World.{Platform, Act, SessionRow, response, pure, gets, guard, or_stop, ◌>>=◌, ◌>>◌}
use challanse.Auth.{Headers, DeviceContext, given, or_empty}
use challanse.Uploads.{
  upload_part_size, Bucket, authenticated, own_session, part_prefix, update_session, modify_objects,
}

pub record UploadStatus : Type 0 where
  pub upload_id : String
  pub receipt_id : String
  pub total_bytes : ℕ
  pub uploaded_bytes : ℕ
  pub status : String
  pub mime_type : String

unfoldable pub handle_upload_status :
    Platform → (pepper : Option String) → Headers → String → Act UploadStatus
handle_upload_status p pepper h upload_id = do
  device ← authenticated p pepper h
  found ← gets (own_session upload_id device)
  session ← or_stop found (response 404 "UPLOAD_NOT_FOUND")
  pure (record {
    upload_id = session.id;
    receipt_id = session.receipt_id;
    total_bytes = session.total_bytes;
    uploaded_bytes = session.uploaded_bytes;
    status = session.status;
    mime_type = session.mime_type;
  })

abbrev pub progress_status : ℕ → ℕ → String
progress_status uploaded total = if leb total uploaded then "PARTS_UPLOADED" else "IN_PROGRESS"

-- The object of a part that was checked, and the session's progress.
abbrev pub save_part :
    Bucket
    → DeviceContext
    → SessionRow
    → (upload_id : String) → (part_number : ℕ) → (body : List ℕ) → Act (Unit {0})
save_part b device session upload_id part_number body = do
  modify_objects (
      b.put (part_prefix device upload_id ++ pad_start 4 (print_number part_number)) body
        "application/octet-stream")
  let new_uploaded_bytes = session.uploaded_bytes + length body
  update_session upload_id (λ s. record s {
    uploaded_bytes = new_uploaded_bytes;
    status = progress_status new_uploaded_bytes session.total_bytes;
  })

-- The optional check of the part's hash.
abbrev pub hash_fits : Platform → List ℕ → Option String → Bool
hash_fits p body declared_hash =
    not (given declared_hash) || p.sha256_bytes body == or_empty declared_hash

-- What `handleUploadPart` does with the session that it has found.
unfoldable pub store_part :
    Platform
    → Bucket
    → DeviceContext
    → SessionRow
    → (upload_id : String) → (part_number : ℕ) → (body : List ℕ) → (declared_hash : Option String)
    → Act (Unit {0})
store_part p b device session upload_id part_number body declared_hash = do
  guard (session.status == "IN_PROGRESS") (response 400 "UPLOAD_COMPLETED")
  guard (leb (length body) upload_part_size) (response 413 "PART_TOO_LARGE")
  guard (hash_fits p body declared_hash) (response 400 "HASH_MISMATCH")
  save_part b device session upload_id part_number body

unfoldable pub handle_upload_part :
    Platform
    → Bucket
    → (pepper : Option String) → Headers
    → (upload_id : String) → (part_number : ℕ) → (body : List ℕ) → (declared_hash : Option String)
    → Act (Unit {0})
handle_upload_part p b pepper h upload_id part_number body declared_hash = do
  device ← authenticated p pepper h
  found ← gets (own_session upload_id device)
  session ← or_stop found (response 404 "UPLOAD_NOT_FOUND")
  store_part p b device session upload_id part_number body declared_hash
