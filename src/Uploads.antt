-- ===== src/Uploads.antt =====
-- apps/edge/src/handlers/uploads.ts: the life of an upload session. The bucket is the service that the
-- Worker is bound to; its operations are parameters. Numbers are whole, as the client sends them. The
-- `receipts` and `upload_sessions` tables are taken with the columns and the texts that the handlers
-- write.
pub mod Create
pub mod Part
pub mod Complete
pub mod Laws
pub mod Vendor
use Prim.Native.String.{◌++◌}
use text.Mathlib.Text.{◌==◌}
use challanse.Prelude.{
  ℕ, ◌+◌, ◌*◌, ◌/◌, Bool, true, false, not, ◌&&◌, ◌||◌, Option, none, some, List, [], ◌∷◌, String,
  find, update, select, length, ltb, leb, add_last, if◌then◌else◌, print_number, pad_start,
  take_string, is_none, nat_eq, append,
}
use challanse.Json.{Fields, str, num, null}
use challanse.World.{
  World, Platform, Act, ReceiptRow, SessionRow, SiteRow, StoredObject, EnrichmentMessage, Stop,
  Outcome, value, stop, response, device_auth, duplicate_key, pure, raise, gets, modify, guard,
  or_stop, ◌>>=◌, ◌>>◌, draw_uuid, read_clock, now_iso,
}
use challanse.Auth.{
  Headers, DeviceContext, given, or_empty, exists, authenticate_device, authenticate_device_nonce,
  get_site,
}
use challanse.Audit.Events.{members, upload_created_event, upload_completed_event}
use challanse.Audit.Chain.{append_audit_event}
use challanse.Graph.{upsert_graph_node, ensure_receipt_in_graph}

abbrev pub upload_part_size : ℕ
upload_part_size = 256000

abbrev pub max_image_bytes : ℕ
max_image_bytes = 10000000

-- The operations of the bucket on what it stores: `put` with a content type, `get`, `delete`, and the
-- keys that `list` returns for a prefix.
pub record Bucket : Type 0 where
  pub put : String → List ℕ → String → List StoredObject → List StoredObject
  pub get : String → List StoredObject → Option (List ℕ)
  pub delete : String → List StoredObject → List StoredObject
  pub list : String → List StoredObject → List String

-- `catch (err) { if (err instanceof DeviceAuthError) return error(…, err.statusCode, err.code, …) }`
abbrev pub answered {ℓ} : {A : Type ℓ} → Outcome A → Outcome A
answered (value a) = value a
answered (stop (response status code)) = stop (response status code)
answered (stop (device_auth code status)) = stop (response status code)
answered (stop other) = stop other

abbrev pub answer_auth_errors {ℓ} : {A : Type ℓ} → Act A → Act A
answer_auth_errors m w = let (r, w') = m w in (answered r, w')

-- The guarded authentication at the top of the handlers, with and without the nonce.
abbrev pub authenticated : Platform → Option String → Headers → Act DeviceContext
authenticated p pepper h = answer_auth_errors (authenticate_device p h.authorization pepper)

abbrev pub authenticated_once : Platform → Option String → Headers → Act DeviceContext
authenticated_once p pepper h = answer_auth_errors (do
  device ← authenticate_device p h.authorization pepper
  authenticate_device_nonce p device h
  pure device)

abbrev pub chain_of : DeviceContext → String
chain_of d = "org:" ++ (d.organization_id ++ (":site:" ++ d.site_id))

abbrev pub image_key_of : DeviceContext → String → String
image_key_of d receipt_id =
    "receipts/" ++ (d.organization_id ++ ("/" ++ (d.site_id ++ ("/" ++ (receipt_id ++ ".webp")))))

-- `WHERE id = ? AND device_id = ?`
abbrev pub is_own_session : String → String → SessionRow → Bool
is_own_session upload_id device_id s = s.id == upload_id && s.device_id == device_id

abbrev pub own_session : String → DeviceContext → World → Option SessionRow
own_session upload_id device w = find (is_own_session upload_id device.id) w.sessions

abbrev pub part_prefix : DeviceContext → String → String
part_prefix d upload_id =
    "uploads/" ++ (d.organization_id ++ ("/" ++ (d.site_id ++ ("/" ++ (upload_id ++ "/part_")))))

-- `UPDATE upload_sessions … WHERE id = ?`
abbrev pub update_session : String → (SessionRow → SessionRow) → Act (Unit {0})
update_session upload_id f =
    modify (λ w. record w { sessions = update (λ s. s.id == upload_id) f w.sessions })

abbrev pub modify_objects : (List StoredObject → List StoredObject) → Act (Unit {0})
modify_objects f = modify (λ w. record w { objects = f w.objects })
