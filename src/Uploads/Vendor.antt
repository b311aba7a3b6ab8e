-- ===== src/Uploads/Vendor.antt =====
-- apps/edge/src/handlers/uploads.ts: the graph writes of `handleCompleteUpload`, which name no vendor.
use text.Mathlib.Text.{◌==◌}
use challanse.Prelude.{◌≡◌, ◌≢◌, refl, true, false, Option, arith, String, [], ◌∷◌}
use challanse.Json.{Fields, str}
use challanse.World.{
  World, Platform, Outcome, value, stop, Stop, syntax_error, foreign_key, SessionRow, guard, ◌>>◌,
}
use challanse.Audit.Events.{members}
use challanse.Auth.{exists, DeviceContext}
use challanse.Graph.{is_node, edge_name, upsert_graph_node, ensure_receipt_in_graph}
use challanse.Graph.Vendor.{upsert_graph_node-NoVendor, ensure_receipt_in_graph-unknown_vendor}
use challanse.Uploads.Complete.{parses, record_in_graph}

stop-value : (s : Stop) → (o : Outcome (Unit {0})) → o ≡ stop s → ¬ (o ≡ value tt)
stop-value s o h e = ground (arith, h, e)

-- Unless the graph has a node with the empty identifier, the graph writes of a completed upload do not
-- return, whatever the device, the session and the header: the identifiers of the organization and of
-- the receipt are taken not to be empty, and no edge to have the name of the receipt's edge to a vendor
-- with the empty identifier.
pub record_in_graph-unknown_vendor :
    (p : Platform) (device : DeviceContext) (session : SessionRow) (meta : Option String)
    (properties : Fields) (w : World)
    → device.organization_id ≢ ""
    → session.receipt_id ≢ ""
    → is_node w "" ≡ false
    → exists (λ e. e.edge_id == edge_name session.receipt_id "" "FROM_VENDOR") w.edges ≡ false
    → ¬ ((record_in_graph p device session meta properties w).0 ≡ value tt)
unfolding record_in_graph upsert_graph_node
record_in_graph-unknown_vendor p device session meta properties w o r h k =
    let name = edge_name session.receipt_id "" "FROM_VENDOR" in
    let v =
      (upsert_graph_node p device.organization_id "Organization"
        (members (("id", str device.organization_id) ∷ [])) w).1 in
    let (nodes, edges) =
      upsert_graph_node-NoVendor p "" name device.organization_id "Organization"
        (members (("id", str device.organization_id) ∷ [])) w o (h, k) in
    let ensure =
      ensure_receipt_in_graph p session.receipt_id device.id "" device.site_id
        device.organization_id properties in
    let refused =
      ensure_receipt_in_graph-unknown_vendor p session.receipt_id device.id "" device.site_id
        device.organization_id properties v r nodes edges in
    elim (parses p meta) as (λ b. ¬ (((guard b syntax_error >> ensure) v).0 ≡ value tt)) [
      | true ↦ λ a. stop-value foreign_key (ensure v).0 refused a
      | false ↦ λ a. stop-value syntax_error (stop syntax_error) refl a
    ]
