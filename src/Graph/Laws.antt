-- ===== src/Graph/Laws.antt =====
-- apps/edge/src/graph.ts: what the writes to the graph keep, and what an upserted node holds.
use text.Mathlib.Text.{◌==◌}
use text.Mathlib.TextEquality.{eq_iff}
use challanse.Prelude.{
  ◌≡◌, refl, ◌∙◌, ◌+◌, Bool, true, false, not, ◌&&◌, ◌||◌, Option, some, List, [], ◌∷◌, arith,
  String, select, update, find, add_last, if◌then◌else◌, Bool-cases, inl, inr, All, All-map,
  All-append,
}
use challanse.Json.{Fields, stringify}
use challanse.World.{World, Platform, foreign_key, GraphNodeRow, GraphEdgeRow, guard, ◌>>◌, pure}
use challanse.Auth.{exists}
use challanse.Graph.{
  is_node, touches, write_edge, id_or, edge_name, upsert_graph_node, delete_graph_node,
  upsert_graph_edge, delete_graph_edge,
}

-- One write to the graph.
pub data GraphWrite : Type 0 where
  upsert_node : (node_id node_type : String) → Fields → GraphWrite
  delete_node : String → GraphWrite
  upsert_edge : Option String → (source target edge_type : String) → Fields → GraphWrite
  delete_edge : String → GraphWrite

-- The world after a write, refused or not.
unfoldable pub run_write : Platform → GraphWrite → World → World
run_write p (upsert_node node_id node_type properties) w =
    (upsert_graph_node p node_id node_type properties w).1
run_write p (delete_node node_id) w = (delete_graph_node node_id w).1
run_write p (upsert_edge edge_id source target edge_type properties) w =
    (upsert_graph_edge p edge_id source target edge_type properties w).1
run_write p (delete_edge edge_id) w = (delete_graph_edge edge_id w).1

abbrev pub run_writes : Platform → List GraphWrite → World → World
run_writes p [] w = w
run_writes p (g ∷ gs) w = run_writes p gs (run_write p g w)

abbrev pub named : List GraphNodeRow → String → Bool
named nodes id = exists (λ n. n.node_id == id) nodes

abbrev pub Anchored : List GraphNodeRow → GraphEdgeRow → Type 0
Anchored nodes e = (named nodes e.source_node_id ≡ true) × (named nodes e.target_node_id ≡ true)

-- Every edge leads from a node to a node.
abbrev pub Connected : World → Type 0
Connected w = All (Anchored w.nodes) w.edges

pub named-update :
    (k : String) (f : GraphNodeRow → GraphNodeRow) (nodes : List GraphNodeRow) (id : String)
    → ((n : GraphNodeRow) → (f n).node_id ≡ n.node_id)
    → named (update (λ n. n.node_id == k) f nodes) id ≡ named nodes id
named-update k f [] id same = refl
named-update k f (n ∷ nodes) id same = ground (arith, named-update k f nodes id same, same n)

pub named-add :
    (nodes : List GraphNodeRow) (n : GraphNodeRow) (id : String)
    → named nodes id ≡ true
    → named (add_last nodes n) id ≡ true
named-add [] n id h = ground (arith, h)
named-add (m ∷ nodes) n id h = ground (arith, h, named-add nodes n id)

named-select :
    (k : String) (nodes : List GraphNodeRow) (id : String)
    → (id == k) ≡ false
    → named nodes id ≡ true
    → named (select (λ n. not (n.node_id == k)) nodes) id ≡ true
named-select k [] id d h = ground (arith, h)
named-select k (m ∷ nodes) id d h =
    ground (arith, h, named-select k nodes id, eq_iff m.node_id k, eq_iff m.node_id id, eq_iff id k)

All-select :
    (P : GraphEdgeRow → Type 0) (q : GraphEdgeRow → Bool) (edges : List GraphEdgeRow)
    → All P edges
    → All (λ e. P e × (q e ≡ true)) (select q edges)
All-select P q [] h = tt
All-select P q (e ∷ edges) (h, hs) =
    elim (q e)
        as (λ b.
          (q e ≡ b)
          → All (λ d. P d × (q d ≡ true)) (if b then e ∷ select q edges else select q edges)) [
            | true ↦ λ t. ((h, t), All-select P q edges hs)
            | false ↦ λ _. All-select P q edges hs
          ]
      refl

All-update :
    (P : GraphEdgeRow → Type 0) (q : GraphEdgeRow → Bool) (f : GraphEdgeRow → GraphEdgeRow)
    (edges : List GraphEdgeRow)
    → ((e : GraphEdgeRow) → P e → P (f e))
    → All P edges
    → All P (update q f edges)
All-update P q f [] keep h = tt
All-update P q f (e ∷ edges) keep (h, hs) = (
  elim (q e) as (λ b. P (if b then f e else e)) [ true ↦ keep e h | false ↦ h ],
  All-update P q f edges keep hs,
)

upsert_graph_node-Connected :
    (p : Platform) (id kind : String) (fs : Fields) (w : World)
    → Connected w
    → Connected (upsert_graph_node p id kind fs w).1
unfolding upsert_graph_node
upsert_graph_node-Connected p id kind fs w h =
    let now = p.iso (p.now_ms w.reads) in
    let f = λ (n : GraphNodeRow). record n {
      node_type = kind;
      properties = stringify fs;
      updated_at = now;
    } in
    let row : GraphNodeRow = record {
      node_id = id;
      node_type = kind;
      properties = stringify fs;
      created_at = now;
      updated_at = now;
    } in
    let changed = update (λ n. n.node_id == id) f w.nodes in
    elim (is_node w id)
      as (λ b. All (Anchored (if b then changed else add_last w.nodes row)) w.edges) [
        | true ↦
            All-map w.edges
              (λ e (s, t). (
                named-update id f w.nodes e.source_node_id (λ n. refl) ∙ s,
                named-update id f w.nodes e.target_node_id (λ n. refl) ∙ t,
              ))
              h
        | false ↦
            All-map w.edges
              (λ e (s, t). (
                named-add w.nodes row e.source_node_id s,
                named-add w.nodes row e.target_node_id t,
              ))
              h
      ]

delete_graph_node-Connected :
    (id : String) (w : World) → Connected w → Connected (delete_graph_node id w).1
unfolding delete_graph_node
delete_graph_node-Connected id w h =
    All-map _
      (λ e ((s, t), away). (
        named-select id w.nodes e.source_node_id (ground (arith, away)) s,
        named-select id w.nodes e.target_node_id (ground (arith, away)) t,
      ))
      (All-select (Anchored w.nodes) (λ e. not (touches id e)) w.edges h)

delete_graph_edge-Connected :
    (id : String) (w : World) → Connected w → Connected (delete_graph_edge id w).1
unfolding delete_graph_edge
delete_graph_edge-Connected id w h =
    All-map _ (λ e (anchored, _). anchored)
      (All-select (Anchored w.nodes) (λ e. not (e.edge_id == id)) w.edges h)

write_edge-Connected :
    (id : String) (row : GraphEdgeRow) (there known : Bool) (w : World)
    → (known ≡ true → Anchored w.nodes row)
    → Connected w
    → Connected ((guard (there || known) foreign_key >> (write_edge row there >> pure id)) w).1
write_edge-Connected id row true known w anchored h =
    All-update (Anchored w.nodes) (λ e. e.edge_id == row.edge_id)
      (λ e. record e { properties = row.properties }) w.edges (λ e kept. kept) h
write_edge-Connected id row false true w anchored h =
    All-append (Anchored w.nodes) w.edges (row ∷ []) h (anchored refl, tt)
write_edge-Connected id row false false w anchored h = h

upsert_graph_edge-Connected :
    (p : Platform) (edge_id : Option String) (source target kind : String) (fs : Fields) (w : World)
    → Connected w
    → Connected (upsert_graph_edge p edge_id source target kind fs w).1
unfolding upsert_graph_edge
upsert_graph_edge-Connected p edge_id source target kind fs w h =
    let id = id_or edge_id (edge_name source target kind) in
    let row : GraphEdgeRow = record {
      edge_id = id;
      source_node_id = source;
      target_node_id = target;
      edge_type = kind;
      properties = stringify fs;
      created_at = p.iso (p.now_ms w.reads);
    } in
    write_edge-Connected id row (exists (λ e. e.edge_id == id) w.edges)
      (is_node w source && is_node w target) (record w { reads = w.reads + 1 })
      (λ k. (ground (arith, k), ground (arith, k))) h

run_write-Connected :
    (p : Platform) (g : GraphWrite) (w : World) → Connected w → Connected (run_write p g w)
unfolding run_write
run_write-Connected p (upsert_node id kind fs) w = upsert_graph_node-Connected p id kind fs w
run_write-Connected p (delete_node id) w = delete_graph_node-Connected id w
run_write-Connected p (upsert_edge edge_id s t kind fs) w =
    upsert_graph_edge-Connected p edge_id s t kind fs w
run_write-Connected p (delete_edge id) w = delete_graph_edge-Connected id w

-- Whatever nodes and edges are upserted and deleted, in any order and also where the database refuses
-- an edge: when every edge led from a node to a node, it still does.
pub run_writes-Connected :
    (p : Platform) (gs : List GraphWrite) (w : World) → Connected w → Connected (run_writes p gs w)
run_writes-Connected p [] w h = h
run_writes-Connected p (g ∷ gs) w h =
    run_writes-Connected p gs (run_write p g w) (run_write-Connected p g w h)

find-update :
    (k : String) (f : GraphNodeRow → GraphNodeRow) (nodes : List GraphNodeRow)
    → ((n : GraphNodeRow) → (f n).node_id ≡ n.node_id)
    → named nodes k ≡ true
    → (n : GraphNodeRow) × (find (λ m. m.node_id == k) (update (λ m. m.node_id == k) f nodes)
        ≡ some (f n))
find-update k f [] same h = ground (arith, h)
find-update k f (m ∷ nodes) same h = elim (Bool-cases (m.node_id == k)) [
  | inl t ↦ (m, ground (arith, t, same m))
  | inr n ↦
      let (found, e) = find-update k f nodes same (ground (arith, h, n)) in
      (found, ground (arith, e, n))
]

find-add :
    (k : String) (nodes : List GraphNodeRow) (n : GraphNodeRow)
    → n.node_id ≡ k
    → named nodes k ≡ false
    → find (λ m. m.node_id == k) (add_last nodes n) ≡ some n
find-add k [] n at h = ground (arith, at, eq_iff n.node_id k)
find-add k (m ∷ nodes) n at h = ground (arith, h, find-add k nodes n at)

-- An upserted node has the type and exactly the properties that were given: of its former properties
-- none is left.
pub upsert_graph_node-replaces :
    (p : Platform) (id kind : String) (fs : Fields) (w : World)
    → (n : GraphNodeRow) × (find (λ m. m.node_id == id) (upsert_graph_node p id kind fs w).1.nodes
        ≡ some n)
      × (n.node_type ≡ kind)
      × (n.properties ≡ stringify fs)
unfolding upsert_graph_node
upsert_graph_node-replaces p id kind fs w =
    let now = p.iso (p.now_ms w.reads) in
    let f = λ (n : GraphNodeRow). record n {
      node_type = kind;
      properties = stringify fs;
      updated_at = now;
    } in
    let row : GraphNodeRow = record {
      node_id = id;
      node_type = kind;
      properties = stringify fs;
      created_at = now;
      updated_at = now;
    } in
    let changed = update (λ n. n.node_id == id) f w.nodes in
    elim (is_node w id)
        as (λ b.
          (is_node w id ≡ b)
          → (n : GraphNodeRow) × (find (λ m. m.node_id == id)
                (if b then changed else add_last w.nodes row)
              ≡ some n)
            × (n.node_type ≡ kind)
            × (n.properties ≡ stringify fs)) [
              | true ↦ λ e.
                  let (n, found) = find-update id f w.nodes (λ n. refl) e in
                  (f n, found, refl, refl)
              | false ↦ λ e. (row, find-add id w.nodes row refl e, refl, refl)
            ]
      refl
