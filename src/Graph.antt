-- ===== src/Graph.antt =====
-- apps/edge/src/graph.ts: the writes to the property graph. The tables refer to each other as
-- apps/edge/migrations/0009_graph_nodes.sql declares: an edge whose source or target is no node is
-- refused, and so is the deletion of a node that an edge still names.
pub mod Laws
pub mod Frame
pub mod Vendor
use Prim.Native.String.{◌++◌}
use text.Mathlib.Text.{◌==◌}
use challanse.Prelude.{
  ℕ, Bool, true, false, not, ◌&&◌, ◌||◌, Option, none, some, List, [], ◌∷◌, String, find, update,
  select, length, ltb, add_last, if◌then◌else◌,
}
use challanse.Json.{Json, undefined, null, str, bool, num, arr, obj, Fields, end, field, stringify}
use challanse.World.{
  World, Platform, Act, GraphNodeRow, GraphEdgeRow, foreign_key, pure, raise, gets, modify, guard,
  ◌>>=◌, ◌>>◌, now_iso,
}
use challanse.Audit.Events.{members}
use challanse.Auth.{exists}

abbrev pub is_node : World → String → Bool
is_node w id = exists (λ n. n.node_id == id) w.nodes

unfoldable pub upsert_graph_node : Platform → (node_id node_type : String) → Fields → Act (Unit {0})
upsert_graph_node p node_id node_type properties = do
  now ← now_iso p
  there ← gets (λ w. is_node w node_id)
  modify (λ w. record w {
    nodes =
        if there
        then update (λ n. n.node_id == node_id)
            (λ n. record n {
              node_type = node_type;
              properties = stringify properties;
              updated_at = now;
            })
            w.nodes
        else add_last w.nodes (record {
          node_id = node_id;
          node_type = node_type;
          properties = stringify properties;
          created_at = now;
          updated_at = now;
        });
  })

abbrev pub touches : String → GraphEdgeRow → Bool
touches node_id e = e.source_node_id == node_id || e.target_node_id == node_id

-- Returns the number of deleted edges.
unfoldable pub delete_graph_node : String → Act ℕ
delete_graph_node node_id = do
  deleted ← gets (λ w. length (select (touches node_id) w.edges))
  modify (λ w. record w { edges = select (λ e. not (touches node_id e)) w.edges })
  modify (λ w. record w { nodes = select (λ n. not (n.node_id == node_id)) w.nodes })
  pure deleted

abbrev pub edge_name : (source target edge_type : String) → String
edge_name source target edge_type = source ++ ("->" ++ (target ++ (":" ++ edge_type)))

abbrev pub id_or : Option String → String → String
id_or none id = id
id_or (some id) other = id

-- The statement of `upsertGraphEdge`: the row is updated when the identifier is taken, and inserted
-- otherwise.
abbrev pub write_edge : GraphEdgeRow → Bool → Act (Unit {0})
write_edge row there = modify (λ w. record w {
  edges =
      if there
      then update (λ e. e.edge_id == row.edge_id) (λ e. record e { properties = row.properties })
          w.edges
      else add_last w.edges row;
})

unfoldable pub upsert_graph_edge :
    Platform → Option String → (source target edge_type : String) → Fields → Act String
upsert_graph_edge p edge_id source target edge_type properties = do
  let id = id_or edge_id (edge_name source target edge_type)
  now ← now_iso p
  there ← gets (λ w. exists (λ e. e.edge_id == id) w.edges)
  known ← gets (λ w. is_node w source && is_node w target)
  guard (there || known) foreign_key
  write_edge
      (record {
        edge_id = id;
        source_node_id = source;
        target_node_id = target;
        edge_type = edge_type;
        properties = stringify properties;
        created_at = now;
      })
      there
  pure id

-- Whether an edge was deleted.
unfoldable pub delete_graph_edge : String → Act Bool
delete_graph_edge edge_id = do
  deleted ← gets (λ w. length (select (λ e. e.edge_id == edge_id) w.edges))
  modify (λ w. record w { edges = select (λ e. not (e.edge_id == edge_id)) w.edges })
  pure (ltb 0 deleted)

abbrev pub has_field : String → Fields → Bool
has_field k end = false
has_field k (field j v fs) = j == k || has_field k fs

abbrev pub replace_field : String → Json → Fields → Fields
replace_field k v end = end
replace_field k v (field j u fs) = if j == k then field j v fs else field j u (replace_field k v fs)

abbrev pub append_field : Fields → String → Json → Fields
append_field end k v = field k v end
append_field (field j u fs) k v = field j u (append_field fs k v)

-- `{ ...properties, k: v }`: a key that is there keeps its place.
abbrev pub with_field : Fields → String → Json → Fields
with_field fs k v = if has_field k fs then replace_field k v fs else append_field fs k v

-- `properties.k`
abbrev pub property : String → Fields → Json
property k end = undefined
property k (field j v fs) = if j == k then v else property k fs

-- `v ?? nowISO()`
abbrev pub or_now : Platform → Json → Act Json
or_now p undefined = do now ← now_iso p; pure (str now)
or_now p null = do now ← now_iso p; pure (str now)
or_now p (bool b) = pure (bool b)
or_now p (num n) = pure (num n)
or_now p (str s) = pure (str s)
or_now p (arr items) = pure (arr items)
or_now p (obj fields) = pure (obj fields)

-- `v ?? 'CONTROLLER'`
abbrev pub or_controller : Json → Json
or_controller undefined = str "CONTROLLER"
or_controller null = str "CONTROLLER"
or_controller (bool b) = bool b
or_controller (num n) = num n
or_controller (str s) = str s
or_controller (arr items) = arr items
or_controller (obj fields) = obj fields

-- An edge under its generated name.
abbrev pub connect : Platform → (source target edge_type : String) → Fields → Act String
connect p source target edge_type properties =
    upsert_graph_edge p (some (edge_name source target edge_type)) source target edge_type
      properties

unfoldable pub ensure_site_in_graph :
    Platform → (site_id organization_id : String) → Fields → Act (Unit {0})
ensure_site_in_graph p site_id organization_id properties = do
  upsert_graph_node p site_id "Site" (with_field properties "organization_id" (str organization_id))
  now ← now_iso p
  _ ← connect p site_id organization_id "BELONGS_TO" (members (("since", str now) ∷ []))
  pure tt

unfoldable pub ensure_device_in_graph :
    Platform → (device_id site_id organization_id : String) → Fields → Act (Unit {0})
ensure_device_in_graph p device_id site_id organization_id properties = do
  upsert_graph_node p device_id "Device" (
      with_field (with_field properties "site_id" (str site_id)) "organization_id"
        (str organization_id))
  enrolled_at ← or_now p (property "enrolled_at" properties)
  _ ← connect p device_id site_id "ENROLLED_AT" (members (("enrolled_at", enrolled_at) ∷ []))
  pure tt

unfoldable pub ensure_reviewer_in_graph :
    Platform → (reviewer_id organization_id site_id : String) → Fields → Act (Unit {0})
ensure_reviewer_in_graph p reviewer_id organization_id site_id properties = do
  upsert_graph_node p reviewer_id "Reviewer" (
      with_field (with_field properties "organization_id" (str organization_id)) "site_id"
        (str site_id))
  works_since ← now_iso p
  _ ← connect p reviewer_id organization_id "WORKS_AT" (
      members
        (("role", or_controller (property "role" properties)) ∷ ("since", str works_since) ∷ []))
  assigned_since ← now_iso p
  _ ← connect p reviewer_id site_id "ASSIGNED_TO" (members (("since", str assigned_since) ∷ []))
  pure tt

unfoldable pub ensure_vendor_in_graph :
    Platform → (vendor_id site_id : String) → Fields → Act (Unit {0})
ensure_vendor_in_graph p vendor_id site_id properties =
    upsert_graph_node p vendor_id "Vendor" (with_field properties "site_id" (str site_id))

-- The properties of a receipt's node.
abbrev pub receipt_properties :
    (device_id vendor_id site_id organization_id : String) → Fields → Fields
receipt_properties device_id vendor_id site_id organization_id properties =
    with_field
      (with_field
        (with_field (with_field properties "device_id" (str device_id)) "vendor_id" (str vendor_id))
        "site_id" (str site_id))
      "organization_id" (str organization_id)

unfoldable pub ensure_receipt_in_graph :
    Platform
    → (receipt_id device_id vendor_id site_id organization_id : String) → Fields
    → Act (Unit {0})
ensure_receipt_in_graph p receipt_id device_id vendor_id site_id organization_id properties = do
  upsert_graph_node p receipt_id "Receipt"
      (receipt_properties device_id vendor_id site_id organization_id properties)
  captured_at ← or_now p (property "captured_at_unix" properties)
  _ ← connect p receipt_id device_id "CAPTURED_BY" (members (("captured_at", captured_at) ∷ []))
  _ ← connect p receipt_id vendor_id "FROM_VENDOR" end
  _ ← connect p receipt_id site_id "RECORDED_AT" end
  pure tt

unfoldable pub ensure_purchase_order_in_graph :
    Platform → (po_node_id site_id organization_id : String) → Fields → Act (Unit {0})
ensure_purchase_order_in_graph p po_node_id site_id organization_id properties =
    upsert_graph_node p po_node_id "PurchaseOrder" (
      with_field (with_field properties "site_id" (str site_id)) "organization_id"
        (str organization_id))
