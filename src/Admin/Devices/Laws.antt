-- ===== src/Admin/Devices/Laws.antt =====
-- apps/edge/src/handlers/admin.ts with apps/edge/src/auth.ts: a device that is revoked is no longer
-- authenticated.
use text.Mathlib.Text.{◌==◌}
use text.Mathlib.TextEquality.{eq_iff}
use challanse.Prelude.{
  ◌≡◌, ◌≢◌, refl, sym, ap, ◌∙◌, arith, Bool, true, false, ◌&&◌, Option, List, [], ◌∷◌, String, find,
  update, inl, inr, Bool-cases,
}
use challanse.World.{World, Platform, DeviceRow, value, Act, response, gets, or_stop, ◌>>=◌, ◌>>◌}
use challanse.World.Laws.{or_stop_value, continue_value}
use challanse.Auth.{DeviceContext, ReviewerContext, authenticate_device}
use challanse.Auth.Laws.{IsIn, authenticate_device-IsEnrolled}
use challanse.Audit.Chain.Frame.{timed-Audited}
use challanse.Reviewers.{Identity, reviewer_as, chain_at}
use challanse.Admin.{admins, audit_timed}
use challanse.Admin.Devices.{deactivate_where, revoked_event, handle_revoke_device}

-- No row that the test keeps is active after the update.
deactivated :
    (q : DeviceRow → Bool) (rows : List DeviceRow) (d : DeviceRow)
    → ((x : DeviceRow) → q (record x { active = false }) ≡ q x)
    → IsIn d (update q (λ x. record x { active = false }) rows)
    → d.active ≡ true
    → q d ≡ false
deactivated q [] d same at active = absurd at
deactivated q (x ∷ rows) d same (inl e) active = elim (Bool-cases (q x)) [
  | inl t ↦ ground (arith, e, t, active)
  | inr f ↦ ground (arith, e, f, same x)
]
deactivated q (x ∷ rows) d same (inr at) active = deactivated q rows d same at active

-- Where the devices are those of an update, none that it deactivates is authenticated.
revoked :
    (p : Platform) (q : DeviceRow → Bool) (rows : List DeviceRow) (v : World)
    (authorization pepper : Option String) (context : DeviceContext)
    → ((x : DeviceRow) → q (record x { active = false }) ≡ q x)
    → v.devices ≡ update q (λ x. record x { active = false }) rows
    → (authenticate_device p authorization pepper v).0 ≡ value context
    → (d : DeviceRow) × (q d ≡ false)
      × (context.id ≡ d.id)
      × (context.organization_id ≡ d.organization_id)
      × (context.site_id ≡ d.site_id)
revoked p q rows v authorization pepper context same after h =
    let (e, _, _) = authenticate_device-IsEnrolled p authorization pepper v context h in
    (
      e.device,
      deactivated q rows e.device same (rw (sym after) e.device_listed) e.active.0,
      ap (λ (c : DeviceContext). c.id) e.context_is,
      ap (λ (c : DeviceContext). c.organization_id) e.context_is,
      ap (λ (c : DeviceContext). c.site_id) e.context_is,
    )

-- What follows the authentication, and what follows the query for the device.
abbrev revoke_found : Platform → ReviewerContext → String → DeviceRow → Act (Unit {0})
revoke_found p reviewer device_id device = do
  deactivate_where (λ d. d.id == device_id)
  audit_timed p (chain_at reviewer.organization_id device.site_id) "DEVICE_REVOKED"
      (revoked_event device_id device.site_id reviewer.organization_id reviewer.email)

abbrev revoke_as : Platform → String → ReviewerContext → Act (Unit {0})
revoke_as p device_id reviewer = do
  found ← gets (λ w.
      find (λ d. d.id == device_id && d.organization_id == reviewer.organization_id) w.devices)
  device ← or_stop found (response 404 "DEVICE_NOT_FOUND")
  revoke_found p reviewer device_id device

-- Once the revocation of a device has returned, no request is authenticated as this device, whatever
-- its token.
pub handle_revoke_device-authenticate_device :
    (p : Platform) (identity : Identity) (device_id : String) (w v : World)
    (authorization pepper : Option String) (context : DeviceContext)
    → handle_revoke_device p identity device_id w ≡ (value tt, v)
    → (authenticate_device p authorization pepper v).0 ≡ value context
    → context.id ≢ device_id
unfolding handle_revoke_device
handle_revoke_device-authenticate_device p identity device_id w v authorization pepper context h a =
    let q = λ (d : DeviceRow). d.id == device_id in
    let (reviewer, _, e1) =
      continue_value (reviewer_as admins identity w).0 (revoke_as p device_id)
        (reviewer_as admins identity w).1 tt (ap (λ r. r.0) h) in
    let w1 = (reviewer_as admins identity w).1 in
    let (device, _, e2) =
      or_stop_value
        (find (λ d. d.id == device_id && d.organization_id == reviewer.organization_id) w1.devices)
        (response 404 "DEVICE_NOT_FOUND") (revoke_found p reviewer device_id) w1 tt
        (ap (λ r. r.0) (sym e1 ∙ h)) in
    let u = record w1 { devices = update q (λ x. record x { active = false }) w1.devices } in
    let audited =
      timed-Audited p (chain_at reviewer.organization_id device.site_id) "DEVICE_REVOKED"
        (revoked_event device_id device.site_id reviewer.organization_id reviewer.email) u in
    let runs = sym h ∙ e1 ∙ e2 ∙ audited.returned in
    let after = ap (λ r. r.1.devices) runs ∙ ap (λ (x : World). x.devices) audited.only in
    let (d, kept, same, _, _) =
      revoked p q w1.devices v authorization pepper context (λ x. refl) after a in
    λ e. ground (arith, kept, sym same ∙ e, eq_iff d.id device_id)
