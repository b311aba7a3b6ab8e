-- ===== src/Tests/Access.antt =====
-- A device and a reviewer of a small site, the graph and an upload, and the theorems on them.
use text.Mathlib.Text.{◌==◌}
use text.Mathlib.TextEquality.{eq_iff}
use challanse.Prelude.{
  ◌⊎◌, ◌≡◌, refl, ap, ◌≤◌, ◌/◌, true, none, some, List, [], ◌∷◌, arith, String, find, starts_with,
  string_length, trim_string, is_space, print_number,
}
use challanse.Json.{str, field, end, stringify}
use challanse.World.{
  World, Platform, value, stop, response, SiteRow, DeviceRow, SessionRow, GraphNodeRow,
}
use challanse.Auth.{
  Headers, DeviceContext, ReviewerContext, authenticate_device, authenticate_device_nonce,
  consume_nonce, parse_int, or_empty, token_hash, bearer_token, touch_device,
}
use challanse.Auth.Laws.{IsEnrolled, authenticate_device-IsEnrolled}
use challanse.Auth.Nonces.{
  Spent, InWindow, authenticate_device_nonce-accepted, authenticate_device_nonce-replayed,
}
use challanse.Graph.{upsert_graph_node}
use challanse.Graph.Laws.{
  GraphWrite, upsert_node, upsert_edge, delete_node, run_writes, Connected, run_writes-Connected,
  upsert_graph_node-replaces,
}
use challanse.Uploads.Complete.{record_in_graph}
use challanse.Uploads.Vendor.{record_in_graph-unknown_vendor}
use challanse.World.Laws.{Refused}
use challanse.Uploads.Part.{store_part, handle_upload_part}
use challanse.Uploads.Laws.{IsAcceptable, with_part, store_part_lem, handle_upload_part-NotOwned}
use challanse.Tests.Data.{toy, toy_bucket, empty_world}

abbrev pub platform : Platform
platform = toy []

abbrev token : String
token = "0123456789abcdef0123456789abcdef"

abbrev pub device_row : DeviceRow
device_row = record {
  id = "d1";
  site_id = "s1";
  organization_id = "o1";
  name = "Gate";
  token_hash = "0123456789abcdef0123456789abcdefpepper";
  app_version = "1";
  active = true;
  enrolled_at = "0";
  last_seen_at = "0";
}

abbrev pub site_row : SiteRow
site_row = record {
  id = "s1";
  organization_id = "o1";
  name = "Site";
  active = true;
  allowed_wifi_ssids_json = "[]";
  configuration_version = 1;
  daily_receipt_limit = 10;
  image_byte_limit = 750000;
  storage_byte_limit = 1000000;
  created_at = "0";
  updated_at = "0";
}

abbrev session_row : SessionRow
session_row = record {
  id = "u1";
  receipt_id = "r1";
  device_id = "d2";
  site_id = "s1";
  organization_id = "o1";
  total_bytes = 4;
  uploaded_bytes = 0;
  status = "IN_PROGRESS";
  mime_type = "image/webp";
  declared_sha256 = "10";
  url_path = "";
  uploaded_at = "0";
}

abbrev pub site_world : World
site_world = record empty_world {
  organizations =
      (record {
        id = "o1";
        name = "Org";
        active = true;
        device_limit = 5;
        daily_receipt_limit = 10;
        storage_byte_limit = 1000000;
        updated_at = "0";
      })
      ∷ [];
  sites = site_row ∷ [];
  devices = device_row ∷ [];
  sessions = session_row ∷ [];
}

abbrev device : DeviceContext
device = record { id = "d1"; organization_id = "o1"; site_id = "s1"; name = "Gate" }

abbrev headers : Headers
headers = record {
  authorization = some "Bearer 0123456789abcdef0123456789abcdef";
  nonce = some "n1";
  device_timestamp = some "1000";
}

nonce_accepted : (authenticate_device_nonce platform device headers site_world).0 ≡ value tt
unfolding authenticate_device_nonce consume_nonce parse_int is_space
nonce_accepted = refl

authenticate_device_nonce-accepted_example :
    Spent (authenticate_device_nonce platform device headers site_world).1 "d1" "n1"
    × InWindow (1000000 / 1000) (parse_int "1000")
authenticate_device_nonce-accepted_example =
    authenticate_device_nonce-accepted platform device headers site_world nonce_accepted

authenticate_device_nonce-replayed_example : ¬ (
    (authenticate_device_nonce platform device headers
      (authenticate_device_nonce platform device headers site_world).1).0
    ≡ value tt)
authenticate_device_nonce-replayed_example =
    authenticate_device_nonce-replayed platform device headers headers site_world
      (authenticate_device_nonce platform device headers site_world).1 [] nonce_accepted refl refl

abbrev seen_world : World
seen_world = record site_world {
  devices = record device_row { last_seen_at = "1000000" } ∷ [];
  reads = 1;
}

device_authenticated :
    authenticate_device platform headers.authorization (some "pepper") site_world
    ≡ (value device, seen_world)
unfolding authenticate_device token_hash touch_device trim_string is_space print_number
device_authenticated = refl

authenticate_device-IsEnrolled_example :
    IsEnrolled site_world
      (token_hash platform (bearer_token headers.authorization) (or_empty (some "pepper")))
      device
    × (starts_with "Bearer " (or_empty headers.authorization) ≡ true)
    × (32 ≤ string_length (bearer_token headers.authorization))
authenticate_device-IsEnrolled_example =
    authenticate_device-IsEnrolled platform headers.authorization (some "pepper") site_world device
      (ap (λ r. r.0) device_authenticated)

abbrev reviewer : ReviewerContext
reviewer = record {
  user_id = "a@b";
  organization_id = "o1";
  site_id = "s1";
  role = "CONTROLLER";
  email = "a@b";
  issuer = "i";
  subject = "s";
}

abbrev writes : List GraphWrite
writes =
    upsert_node "o1" "Organization" end
    ∷ upsert_node "s1" "Site" end
    ∷ upsert_edge none "s1" "o1" "BELONGS_TO" end
    ∷ upsert_edge none "s1" "o2" "BELONGS_TO" end
    ∷ delete_node "o1"
    ∷ []

run_writes-Connected_example : Connected (run_writes platform writes empty_world)
run_writes-Connected_example = run_writes-Connected platform writes empty_world tt

upsert_graph_node-replaces_example :
    (n : GraphNodeRow) × (find
        (λ m. m.node_id == "s1")
        (upsert_graph_node platform "s1" "Site" (field "name" (str "A") end) empty_world).1.nodes
      ≡ some n)
    × (n.node_type ≡ "Site")
    × (n.properties ≡ stringify (field "name" (str "A") end))
upsert_graph_node-replaces_example =
    upsert_graph_node-replaces platform "s1" "Site" (field "name" (str "A") end) empty_world

store_part_lem_example :
    (IsAcceptable platform session_row (1 ∷ 2 ∷ []) (some "3")
      × (store_part platform toy_bucket device session_row "u1" 0 (1 ∷ 2 ∷ []) (some "3") site_world
          ≡ (value tt, with_part toy_bucket device session_row "u1" 0 (1 ∷ 2 ∷ []) site_world)))
    ⊎ ((¬ IsAcceptable platform session_row (1 ∷ 2 ∷ []) (some "3"))
        × Refused site_world (
            store_part platform toy_bucket device session_row "u1" 0
              (1 ∷ 2 ∷ [])
              (some "3")
              site_world))
store_part_lem_example =
    store_part_lem platform toy_bucket device session_row "u1" 0 (1 ∷ 2 ∷ []) (some "3") site_world

handle_upload_part-NotOwned_example :
    handle_upload_part platform toy_bucket (some "pepper") headers "u1" 0 (1 ∷ []) none site_world
    ≡ (stop (response 404 "UPLOAD_NOT_FOUND"), seen_world)
handle_upload_part-NotOwned_example =
    handle_upload_part-NotOwned platform toy_bucket (some "pepper") headers "u1" 0 (1 ∷ []) none
      device site_world seen_world device_authenticated
      ((λ _ e. ground (arith, (eq_iff "d2" "d1").1 e)), tt)

record_in_graph-unknown_vendor_example :
    ¬ ((record_in_graph platform device session_row none end site_world).0 ≡ value tt)
record_in_graph-unknown_vendor_example =
    record_in_graph-unknown_vendor platform device session_row none end site_world
      (λ e. ground (arith, (eq_iff "o1" "").1 e)) (λ e. ground (arith, (eq_iff "r1" "").1 e)) refl
      refl
