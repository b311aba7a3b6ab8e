-- ===== src/Devices/Enroll.antt =====
-- apps/edge/src/handlers/devices.ts: `handleEnroll` and `handleBootstrap`.
pub mod Laws
pub mod Effects
use Prim.Native.String.{◌++◌}
use text.Mathlib.Text.{◌==◌}
use challanse.Prelude.{
  ℕ, Bool, true, false, not, ◌&&◌, ◌||◌, Option, none, some, List, [], ◌∷◌, String, find, update,
  add_last, or_else, select, length, ltb, if◌then◌else◌, upper_string,
}
use challanse.Json.{Json, str, Fields, text_le}
use challanse.World.{
  World, Platform, Act, DeviceRow, EnrollmentCodeRow, SiteRow, OrganizationRow, response,
  syntax_error, duplicate_key, raised, pure, gets, modify, guard, or_stop, ◌>>=◌, ◌>>◌, draw_uuid,
  draw_bytes, read_clock, now_iso,
}
use challanse.Auth.{
  DeviceContext, given, or_empty, exists, token_hash, authenticate_device, get_site,
  get_organization,
}
use challanse.Audit.Events.{members, device_enrolled_event}
use challanse.Audit.Chain.{append_audit_event}
use challanse.Graph.{upsert_graph_node, ensure_device_in_graph}
use challanse.Uploads.{answer_auth_errors}
use challanse.Devices.{Environment, verify_play_integrity, hex}

pub record EnrollBody : Type 0 where
  pub enrollment_code : Option String
  pub app_version : Option String
  pub integrity_token : Option String

pub record Enrolled : Type 0 where
  pub device_id : String
  pub site_id : String
  pub organization_id : String
  pub token : String

-- `expires_at IS NULL OR expires_at > datetime('now')`, a comparison of texts.
abbrev pub not_expired : Option String → String → Bool
not_expired none now = true
not_expired (some e) now = not (text_le e now)

-- The `WHERE` and the joins of the query for a code.
abbrev pub code_matches : World → (code now : String) → EnrollmentCodeRow → Bool
code_matches w code now c =
    (c.code == code && (c.active && not_expired c.expires_at now))
    && (exists (λ s. s.id == c.site_id && s.active) w.sites
        && exists (λ o. o.id == c.organization_id && o.active) w.organizations)

-- The trigger `devices_active_pilot_limit`: a site has at most five active devices.
abbrev pub room_for : DeviceRow → World → Bool
room_for row w =
    not row.active || ltb (length (select (λ d. d.site_id == row.site_id && d.active) w.devices)) 5

-- `id TEXT PRIMARY KEY` and `token_hash TEXT NOT NULL UNIQUE`
abbrev pub is_new : DeviceRow → World → Bool
is_new row w = not (exists (λ d. d.id == row.id || d.token_hash == row.token_hash) w.devices)

abbrev pub insert_device : DeviceRow → Act (Unit {0})
insert_device row = do
  fits ← gets (room_for row)
  guard fits (raised "device_limit_reached")
  new ← gets (is_new row)
  guard new duplicate_key
  modify (λ w. record w { devices = add_last w.devices row })

-- The code is of one use.
abbrev pub deactivate_code : String → Act (Unit {0})
deactivate_code id =
    modify (λ w. record w {
      codes = update (λ c. c.id == id) (λ c. record c { active = false }) w.codes;
    })

abbrev pub chain_of_code : EnrollmentCodeRow → String
chain_of_code c = "org:" ++ (c.organization_id ++ (":site:" ++ c.site_id))

-- The nodes and the edge of a new device.
unfoldable pub record_device :
    Platform → EnrollmentCodeRow → (device_id app_version now : String) → Act (Unit {0})
record_device p c device_id app_version now = do
  upsert_graph_node p c.organization_id "Organization"
      (members (("id", str c.organization_id) ∷ []))
  upsert_graph_node p c.site_id "Site"
      (members (("id", str c.site_id) ∷ ("organization_id", str c.organization_id) ∷ []))
  ensure_device_in_graph p device_id c.site_id c.organization_id (
      members (
        ("name", str c.device_name)
        ∷ ("app_version", str app_version)
        ∷ ("enrolled_at", str now)
        ∷ []))

-- From the code's row on.
unfoldable pub enroll_device :
    Platform → Environment → EnrollBody → EnrollmentCodeRow → Act Enrolled
enroll_device p env body c = do
  bytes ← draw_bytes p 32
  let token = hex bytes
  let app_version = or_else body.app_version "unknown"
  device_id ← draw_uuid p
  now ← now_iso p
  insert_device (record {
    id = device_id;
    site_id = c.site_id;
    organization_id = c.organization_id;
    name = c.device_name;
    token_hash = token_hash p token (or_empty env.device_token_pepper);
    app_version = app_version;
    active = true;
    enrolled_at = now;
    last_seen_at = now;
  })
  deactivate_code c.id
  at ← now_iso p
  _ ←
      append_audit_event p (chain_of_code c) "DEVICE_ENROLLED"
        (device_enrolled_event device_id c.site_id c.organization_id c.device_name at)
  record_device p c device_id app_version now
  pure (record {
    device_id = device_id;
    site_id = c.site_id;
    organization_id = c.organization_id;
    token = token;
  })

abbrev pub integrity_passes : Environment → EnrollBody → Bool
integrity_passes env body =
    verify_play_integrity env body.integrity_token || not (env.environment == "production")

-- `sent` is `none` where the request's body is no JSON.
unfoldable pub handle_enroll : Platform → Environment → Option EnrollBody → Act Enrolled
handle_enroll p env sent = do
  body ← or_stop sent (response 400 "INVALID_REQUEST")
  guard (given body.enrollment_code) (response 400 "MISSING_ENROLLMENT_CODE")
  queried ← read_clock p
  found ← gets (λ w.
      find (code_matches w (upper_string (or_empty body.enrollment_code)) (p.sql_time queried))
        w.codes)
  c ← or_stop found (response 404 "INVALID_ENROLLMENT_CODE")
  guard (integrity_passes env body) (response 403 "INTEGRITY_CHECK_FAILED")
  enroll_device p env body c

pub record Bootstrap : Type 0 where
  pub site_id : String
  pub site_name : String
  pub allowed_wifi_ssids : Json
  pub configuration_version : ℕ
  pub daily_receipt_limit : ℕ
  pub storage_byte_limit : ℕ
  pub device_limit : ℕ
  pub turnstile_site_key : String
  pub play_integrity_project : String

-- `json_value` is `JSON.parse`, and `none` where the text is no JSON.
unfoldable pub handle_bootstrap :
    Platform
    → (json_value : String → Option Json) → Environment
    → (authorization : Option String) → Act Bootstrap
handle_bootstrap p json_value env authorization = do
  device ← answer_auth_errors (authenticate_device p authorization env.device_token_pepper)
  found ← gets (λ w. get_site w device.site_id)
  site ← or_stop found (response 404 "SITE_NOT_FOUND")
  found_organization ← gets (λ w. get_organization w device.organization_id)
  organization ← or_stop found_organization (response 404 "ORGANIZATION_NOT_FOUND")
  let ssids = if site.allowed_wifi_ssids_json == "" then "[]" else site.allowed_wifi_ssids_json
  names ← or_stop (json_value ssids) syntax_error
  pure (record {
    site_id = site.id;
    site_name = site.name;
    allowed_wifi_ssids = names;
    configuration_version = site.configuration_version;
    daily_receipt_limit = site.daily_receipt_limit;
    storage_byte_limit = site.storage_byte_limit;
    device_limit = organization.device_limit;
    turnstile_site_key = or_empty env.turnstile_site_key;
    play_integrity_project = or_empty env.play_integrity_project;
  })
