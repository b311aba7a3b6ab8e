-- ===== src/Devices/Enroll/Effects.antt =====
-- apps/edge/src/handlers/devices.ts: what an enrolment leaves in the tables.
use text.Mathlib.Text.{◌==◌}
use challanse.Prelude.{
  ◌≡◌, refl, ap, ◌+◌, arith, true, false, Bool-cases, some, [], ◌∷◌, String, update, add_last,
  or_else, inl, inr,
}
use challanse.Json.{str}
use challanse.World.{
  World, Platform, DeviceRow, EnrollmentCodeRow, value, stop, raised, duplicate_key,
}
use challanse.World.Frame.{Logged, LogOnly-trans}
use challanse.Auth.{or_empty, token_hash}
use challanse.Audit.Events.{members, device_enrolled_event}
use challanse.Audit.Chain.Frame.{append_audit_event-Audited, Audited-Logged}
use challanse.Graph.{upsert_graph_node, ensure_device_in_graph, edge_name}
use challanse.Graph.Frame.{
  is_node-upsert_graph_node, is_node-upsert_graph_node_kept, upsert_graph_edge-Logged,
}
use challanse.Devices.{Environment, hex}
use challanse.Devices.Enroll.{
  EnrollBody, Enrolled, room_for, is_new, chain_of_code, record_device, enroll_device,
}

-- The graph takes a new device: its nodes are written before its edge.
record_device-Logged :
    (p : Platform) (c : EnrollmentCodeRow) (device_id app_version now : String) (w : World)
    → Logged w (record_device p c device_id app_version now w)
unfolding record_device ensure_device_in_graph upsert_graph_node
record_device-Logged p c device_id app_version now w =
    let organization = members (("id", str c.organization_id) ∷ []) in
    let site = members (("id", str c.site_id) ∷ ("organization_id", str c.organization_id) ∷ []) in
    let device = members (
      ("name", str c.device_name)
      ∷ ("app_version", str app_version)
      ∷ ("enrolled_at", str now)
      ∷ ("site_id", str c.site_id)
      ∷ ("organization_id", str c.organization_id)
      ∷ []) in
    let w1 = (upsert_graph_node p c.organization_id "Organization" organization w).1 in
    let w2 = (upsert_graph_node p c.site_id "Site" site w1).1 in
    let w3 = (upsert_graph_node p device_id "Device" device w2).1 in
    let edge =
      upsert_graph_edge-Logged p (some (edge_name device_id c.site_id "ENROLLED_AT")) device_id
        c.site_id "ENROLLED_AT" (members (("enrolled_at", str now) ∷ [])) w3
        (is_node-upsert_graph_node p device_id "Device" device w2)
        (is_node-upsert_graph_node_kept p device_id "Device" c.site_id device w2
          (is_node-upsert_graph_node p c.site_id "Site" site w1)) in
    record {
      result = tt;
      after = edge.after;
      returned = rw edge.returned refl;
      only = LogOnly-trans w w3 edge.after refl edge.only;
    }

-- The row of the new device.
abbrev pub device_row : Platform → Environment → EnrollBody → EnrollmentCodeRow → World → DeviceRow
device_row p env body c w = record {
  id = p.uuid w.uuids;
  site_id = c.site_id;
  organization_id = c.organization_id;
  name = c.device_name;
  token_hash = token_hash p (hex (p.random_bytes w.draws 32)) (or_empty env.device_token_pepper);
  app_version = or_else body.app_version "unknown";
  active = true;
  enrolled_at = p.iso (p.now_ms w.reads);
  last_seen_at = p.iso (p.now_ms w.reads);
}

-- What an enrolment leaves, besides records.
pub record Enrols (p : Platform) (env : Environment) (body : EnrollBody) (c : EnrollmentCodeRow)
    (w : World) : Type 0 where
  pub after : World
  pub returned : enroll_device p env body c w ≡ (
    value (record {
      device_id = p.uuid w.uuids;
      site_id = c.site_id;
      organization_id = c.organization_id;
      token = hex (p.random_bytes w.draws 32);
    }),
    after,
  )
  pub devices : after.devices ≡ add_last w.devices (device_row p env body c w)
  pub codes : after.codes ≡ update (λ d. d.id == c.id) (λ d. record d { active = false }) w.codes
  pub organizations : after.organizations ≡ w.organizations
  pub sites : after.sites ≡ w.sites

-- An enrolment that returns has found room for its device, and no device with its identifier or hash.
pub enroll_device-value :
    (p : Platform) (env : Environment) (body : EnrollBody) (c : EnrollmentCodeRow) (w : World)
    (answer : Enrolled)
    → (enroll_device p env body c w).0 ≡ value answer
    → (room_for (device_row p env body c w) w ≡ true)
      × (is_new (device_row p env body c w) w ≡ true)
unfolding enroll_device
enroll_device-value p env body c w answer h =
    elim (Bool-cases (room_for (device_row p env body c w) w)) [
      | inr full ↦
          let x : stop (raised "device_limit_reached") ≡ value answer = rw full at h in
          absurd (ground (arith, x))
      | inl room ↦ elim (Bool-cases (is_new (device_row p env body c w) w)) [
        | inl new ↦ (room, new)
        | inr old ↦
            let x : stop duplicate_key ≡ value answer = rw (room, old) at h in
            absurd (ground (arith, x))
      ]
    ]

pub enroll_device-Enrols :
    (p : Platform) (env : Environment) (body : EnrollBody) (c : EnrollmentCodeRow) (w : World)
    → room_for (device_row p env body c w) w ≡ true
    → is_new (device_row p env body c w) w ≡ true
    → Enrols p env body c w
enroll_device-Enrols p env body c w room new =
    let u = record w {
      devices = add_last w.devices (device_row p env body c w);
      codes = update (λ d. d.id == c.id) (λ d. record d { active = false }) w.codes;
      uuids = w.uuids + 1;
      reads = w.reads + 1 + 1;
      draws = w.draws + 1;
    } in
    let audited = Audited-Logged u _ (
      append_audit_event-Audited p (chain_of_code c) "DEVICE_ENROLLED"
        (device_enrolled_event (p.uuid w.uuids) c.site_id c.organization_id c.device_name
          (p.iso (p.now_ms (w.reads + 1))))
        u) in
    let recorded =
      record_device-Logged p c (p.uuid w.uuids) (or_else body.app_version "unknown")
        (p.iso (p.now_ms w.reads)) audited.after in
    let only = LogOnly-trans u audited.after recorded.after audited.only recorded.only in
    record {
      after = recorded.after;
      returned = unfold enroll_device in rw (room, new, audited.returned, recorded.returned) refl;
      devices = ap (λ (x : World). x.devices) only;
      codes = ap (λ (x : World). x.codes) only;
      organizations = ap (λ (x : World). x.organizations) only;
      sites = ap (λ (x : World). x.sites) only;
    }
