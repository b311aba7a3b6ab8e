-- ===== src/Admin/Devices.antt =====
-- apps/edge/src/handlers/admin.ts: `handleCreateEnrollmentCode`, `handleRevokeAllDevices` and
-- `handleRevokeDevice`.
pub mod Laws
use text.Mathlib.Text.{◌==◌}
use challanse.Prelude.{
  Bool, true, false, ◌&&◌, Option, none, some, List, [], ◌∷◌, String, find, update, add_last,
  if◌then◌else◌,
}
use challanse.Json.{str, Fields}
use challanse.World.{
  World, Platform, Act, DeviceRow, response, pure, gets, modify, or_stop, ◌>>=◌, ◌>>◌, draw_uuid,
  now_iso,
}
use challanse.Auth.{ReviewerContext, given, or_empty}
use challanse.Audit.Events.{members}
use challanse.Devices.{random_enrollment_code}
use challanse.Reviewers.{Identity, reviewer_as, chain_at}
use challanse.Admin.{admins, organization_admins, audit_timed}
use challanse.Admin.Sites.{text_or}
use challanse.Admin.Members.{expiry_or}

pub record CodeBody : Type 0 where
  pub site_id : Option String
  pub device_name : Option String
  pub expires_at : Option String

pub record CreatedCode : Type 0 where
  pub code : String
  pub site_id : String
  pub expires_at : Option String

abbrev pub given_or_none : Option String → Option String
given_or_none o = if given o then o else none

unfoldable pub handle_create_enrollment_code : Platform → Identity → CodeBody → Act CreatedCode
handle_create_enrollment_code p identity body = do
  reviewer ← reviewer_as admins identity
  let site_id = text_or body.site_id reviewer.site_id
  code ← random_enrollment_code p
  now ← now_iso p
  id ← draw_uuid p
  expires_at ← expiry_or p 604800000 body.expires_at
  modify (λ w. record w {
    codes = add_last w.codes (record {
      id = id;
      code = code;
      site_id = site_id;
      organization_id = reviewer.organization_id;
      device_name = text_or body.device_name "Unnamed Device";
      expires_at = some expires_at;
      created_by = reviewer.email;
      active = true;
      created_at = now;
    });
  })
  pure (record { code = code; site_id = site_id; expires_at = given_or_none body.expires_at })

abbrev pub deactivate_where : (DeviceRow → Bool) → Act (Unit {0})
deactivate_where q =
    modify (λ w. record w { devices = update q (λ d. record d { active = false }) w.devices })

-- `site_id = ? AND organization_id = ?`, or `organization_id = ?` without a site.
abbrev pub revoked_by : (organization_id : String) → (site_id : Option String) → DeviceRow → Bool
revoked_by organization_id site_id d =
    if given site_id
    then d.site_id == or_empty site_id && d.organization_id == organization_id
    else d.organization_id == organization_id

unfoldable pub handle_revoke_all_devices : Identity → (site_id : Option String) → Act (Unit {0})
handle_revoke_all_devices identity site_id = do
  reviewer ← reviewer_as organization_admins identity
  deactivate_where (revoked_by reviewer.organization_id site_id)

abbrev pub revoked_event :
    (device_id site_id organization_id revoked_by timestamp : String) → Fields
revoked_event device_id site_id organization_id revoked_by timestamp = members (
    ("event_type", str "DEVICE_REVOKED")
    ∷ ("device_id", str device_id)
    ∷ ("site_id", str site_id)
    ∷ ("organization_id", str organization_id)
    ∷ ("revoked_by", str revoked_by)
    ∷ ("timestamp", str timestamp)
    ∷ [])

unfoldable pub handle_revoke_device : Platform → Identity → (device_id : String) → Act (Unit {0})
handle_revoke_device p identity device_id = do
  reviewer ← reviewer_as admins identity
  found ← gets (λ w.
      find (λ d. d.id == device_id && d.organization_id == reviewer.organization_id) w.devices)
  device ← or_stop found (response 404 "DEVICE_NOT_FOUND")
  deactivate_where (λ d. d.id == device_id)
  audit_timed p (chain_at reviewer.organization_id device.site_id) "DEVICE_REVOKED"
      (revoked_event device_id device.site_id reviewer.organization_id reviewer.email)
