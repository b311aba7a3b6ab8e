-- ===== src/Graph/Vendor.antt =====
-- apps/edge/src/graph.ts, `ensureReceiptInGraph`: the edge from a receipt to a vendor that is no node.
use Prim.Native.Char.{code}
use Prim.Native.String.{◌++◌}
use text.Mathlib.Text.{◌==◌}
use text.Mathlib.TextLemmas.{nil-append, cons-append}
use text.Mathlib.TextEquality.{eq_iff}
use challanse.Prelude.{
  ◌≡◌, ◌≢◌, refl, sym, ap, ◌∙◌, ℕ, ◌+◌, Bool, true, false, ◌&&◌, ◌||◌, List, [], ◌∷◌, arith, String,
  update, add_last, if◌then◌else◌,
}
use challanse.Json.{Json, undefined, null, bool, num, str, arr, obj, Fields, end, stringify}
use challanse.World.{
  World, Platform, stop, foreign_key, Act, GraphNodeRow, GraphEdgeRow, guard, ◌>>=◌, ◌>>◌, pure,
}
use challanse.Auth.{exists}
use challanse.Audit.Events.{members}
use challanse.Graph.{
  is_node, write_edge, edge_name, upsert_graph_node, upsert_graph_edge, or_now, connect,
  ensure_receipt_in_graph, property, receipt_properties,
}
use challanse.Graph.Laws.{named, named-update}

-- The code of the last character of a text.
abbrev last_code : ℕ → String → ℕ
last_code a Prim.Native.String.[] = a
last_code a (Prim.Native.String.◌∷◌ c s) = last_code (code c) s

last_code-append :
    (a b : ℕ) (s t : String) → ((d : ℕ) → last_code d t ≡ b) → last_code a (s ++ t) ≡ b
last_code-append a b Prim.Native.String.[] t h = ap (last_code a) (nil-append t) ∙ h a
last_code-append a b (Prim.Native.String.◌∷◌ c s) t h =
    ap (last_code a) (cons-append c s t) ∙ last_code-append (code c) b s t h

ending :
    (b : ℕ) (source target t : String)
    → ((d : ℕ) → last_code d t ≡ b)
    → last_code 0 (source ++ ("->" ++ (target ++ t))) ≡ b
ending b source target t h =
    last_code-append 0 b source ("->" ++ (target ++ t))
      (λ d. last_code-append d b "->" (target ++ t) (λ e. last_code-append e b target t h))

-- The names of the two edges differ: they end in different letters.
captured_by-from_vendor :
    (receipt device vendor : String)
    → edge_name receipt device "CAPTURED_BY" ≢ edge_name receipt vendor "FROM_VENDOR"
captured_by-from_vendor receipt device vendor e =
    let y = ending 89 receipt device ":CAPTURED_BY" (λ _. refl) in
    let r = ending 82 receipt vendor ":FROM_VENDOR" (λ _. refl) in
    omega (arith, sym y ∙ (ap (last_code 0) e ∙ r))

-- The vendor is no node and no edge has the name.
abbrev pub NoVendor : String → String → World → Type 0
NoVendor vendor name w =
    (named w.nodes vendor ≡ false) × (exists (λ e. e.edge_id == name) w.edges ≡ false)

named-add_other :
    (nodes : List GraphNodeRow) (n : GraphNodeRow) (id : String)
    → n.node_id ≢ id
    → named (add_last nodes n) id ≡ named nodes id
named-add_other [] n id d = ground (arith, d, eq_iff n.node_id id)
named-add_other (m ∷ nodes) n id d = ground (arith, named-add_other nodes n id d)

edge_named-update :
    (k name : String) (f : GraphEdgeRow → GraphEdgeRow) (edges : List GraphEdgeRow)
    → ((e : GraphEdgeRow) → (f e).edge_id ≡ e.edge_id)
    → exists (λ e. e.edge_id == name) (update (λ e. e.edge_id == k) f edges)
      ≡ exists (λ e. e.edge_id == name) edges
edge_named-update k name f [] same = refl
edge_named-update k name f (e ∷ edges) same =
    ground (arith, edge_named-update k name f edges same, same e)

edge_named-add :
    (edges : List GraphEdgeRow) (row : GraphEdgeRow) (name : String)
    → row.edge_id ≢ name
    → exists (λ e. e.edge_id == name) (add_last edges row) ≡ exists (λ e. e.edge_id == name) edges
edge_named-add [] row name d = ground (arith, d, eq_iff row.edge_id name)
edge_named-add (m ∷ edges) row name d = ground (arith, edge_named-add edges row name d)

pub upsert_graph_node-NoVendor :
    (p : Platform) (vendor name id kind : String) (fs : Fields) (w : World)
    → id ≢ vendor
    → NoVendor vendor name w
    → NoVendor vendor name (upsert_graph_node p id kind fs w).1
unfolding upsert_graph_node
upsert_graph_node-NoVendor p vendor name id kind fs w d (h, k) =
    let now = p.iso (p.now_ms w.reads) in
    let f = λ (n : GraphNodeRow). record n {
      node_type = kind;
      properties = stringify fs;
      updated_at = now;
    } in
    let row : GraphNodeRow = record {
      node_id = id;
      node_type = kind;
      properties = stringify fs;
      created_at = now;
      updated_at = now;
    } in
    (
      elim (is_node w id)
          as (λ b.
            named (if b then update (λ n. n.node_id == id) f w.nodes else add_last w.nodes row)
              vendor
            ≡ false) [
              | true ↦ named-update id f w.nodes vendor (λ n. refl) ∙ h
              | false ↦ named-add_other w.nodes row vendor d ∙ h
            ],
      k,
    )

module _ (vendor name : String) {A : Type 0} where
  abbrev Refused : (String → Act A) → Type 0
  Refused f = (a : String) (w : World) → NoVendor vendor name w → (f a w).0 ≡ stop foreign_key

  or_now-refused :
      (p : Platform) (j : Json) (f : Json → Act A) (w : World)
      → ((a : Json) (v : World) → NoVendor vendor name v → (f a v).0 ≡ stop foreign_key)
      → NoVendor vendor name w
      → ((or_now p j >>= f) w).0 ≡ stop foreign_key
  or_now-refused p undefined f w r h = r _ _ h
  or_now-refused p null f w r h = r _ _ h
  or_now-refused p (bool b) f w r h = r _ _ h
  or_now-refused p (num n) f w r h = r _ _ h
  or_now-refused p (str s) f w r h = r _ _ h
  or_now-refused p (arr items) f w r h = r _ _ h
  or_now-refused p (obj fields) f w r h = r _ _ h

  written-Refused :
      (row : GraphEdgeRow) (there known : Bool) (f : String → Act A) (w : World)
      → Refused f
      → row.edge_id ≢ name
      → NoVendor vendor name w
      → ((guard (there || known) foreign_key >> (write_edge row there >> pure row.edge_id) >>= f)
          w).0
        ≡ stop foreign_key
  written-Refused row true known f w r d (h, k) =
      r row.edge_id _ (h, edge_named-update row.edge_id name _ w.edges (λ e. refl) ∙ k)
  written-Refused row false true f w r d (h, k) =
      r row.edge_id _ (h, edge_named-add w.edges row name d ∙ k)
  written-Refused row false false f w r d h = refl

  connect-Refused :
      (p : Platform) (source target kind : String) (fs : Fields) (f : String → Act A) (w : World)
      → Refused f
      → edge_name source target kind ≢ name
      → NoVendor vendor name w
      → ((connect p source target kind fs >>= f) w).0 ≡ stop foreign_key
  unfolding upsert_graph_edge
  connect-Refused p source target kind fs f w r d h =
      let id = edge_name source target kind in
      let row : GraphEdgeRow = record {
        edge_id = id;
        source_node_id = source;
        target_node_id = target;
        edge_type = kind;
        properties = stringify fs;
        created_at = p.iso (p.now_ms w.reads);
      } in
      written-Refused row (exists (λ e. e.edge_id == id) w.edges)
        (is_node w source && is_node w target) f (record w { reads = w.reads + 1 }) r d h

  absent-refused :
      (row : GraphEdgeRow) (there known : Bool) (f : String → Act A) (w : World)
      → there ≡ false
      → known ≡ false
      → ((guard (there || known) foreign_key >> (write_edge row there >> pure row.edge_id) >>= f)
          w).0
        ≡ stop foreign_key
  absent-refused row false false f w h k = refl
  absent-refused row true known f w h k = ground (arith, h)
  absent-refused row false true f w h k = ground (arith, k)

  connect_missing-refused :
      (p : Platform) (source kind : String) (fs : Fields) (f : String → Act A) (w : World)
      → edge_name source vendor kind ≡ name
      → NoVendor vendor name w
      → ((connect p source vendor kind fs >>= f) w).0 ≡ stop foreign_key
  unfolding upsert_graph_edge
  connect_missing-refused p source kind fs f w e (h, k) =
      let id = edge_name source vendor kind in
      let row : GraphEdgeRow = record {
        edge_id = id;
        source_node_id = source;
        target_node_id = vendor;
        edge_type = kind;
        properties = stringify fs;
        created_at = p.iso (p.now_ms w.reads);
      } in
      absent-refused row (exists (λ e. e.edge_id == id) w.edges)
        (is_node w source && is_node w vendor) f (record w { reads = w.reads + 1 })
        (ap (λ n. exists (λ e. e.edge_id == n) w.edges) e ∙ k) (ground (arith, h))

-- The node of a receipt cannot be connected to a vendor that is no node of the graph: when the vendor's
-- identifier is not the receipt's and no edge has the name that the new edge gets, the database
-- refuses the edge and the writes stop there.
pub ensure_receipt_in_graph-unknown_vendor :
    (p : Platform) (receipt device vendor site organization : String) (fs : Fields) (w : World)
    → receipt ≢ vendor
    → is_node w vendor ≡ false
    → exists (λ e. e.edge_id == edge_name receipt vendor "FROM_VENDOR") w.edges ≡ false
    → (ensure_receipt_in_graph p receipt device vendor site organization fs w).0 ≡ stop foreign_key
unfolding ensure_receipt_in_graph upsert_graph_node
ensure_receipt_in_graph-unknown_vendor p receipt device vendor site organization fs w d h k =
    let name = edge_name receipt vendor "FROM_VENDOR" in
    let props = receipt_properties device vendor site organization fs in
    let last : String → Act (Unit {0}) =
      λ _. connect p receipt site "RECORDED_AT" end >>= λ _. pure tt in
    let to_vendor : String → Act (Unit {0}) =
      λ _. connect p receipt vendor "FROM_VENDOR" end >>= last in
    let captured = λ (at : Json). members (("captured_at", at) ∷ []) in
    let to_device : Json → Act (Unit {0}) =
      λ at. connect p receipt device "CAPTURED_BY" (captured at) >>= to_vendor in
    or_now-refused vendor name p (property "captured_at_unix" fs) to_device
      (upsert_graph_node p receipt "Receipt" props w).1
      (λ a v.
        connect-Refused vendor name p receipt device "CAPTURED_BY" (captured a) to_vendor v
          (λ _ u. connect_missing-refused vendor name p receipt "FROM_VENDOR" end last u refl)
          (captured_by-from_vendor receipt device vendor))
      (upsert_graph_node-NoVendor p vendor name receipt "Receipt" props w d (h, k))
