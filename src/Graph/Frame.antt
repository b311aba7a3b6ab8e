-- ===== src/Graph/Frame.antt =====
-- apps/edge/src/graph.ts: when the writes to the graph return, and that they write the graph only.
use text.Mathlib.Text.{◌==◌}
use text.Mathlib.TextPositions.{eq_refl}
use challanse.Prelude.{
  ◌≡◌, refl, ◌∙◌, ◌+◌, arith, Bool, true, false, ◌&&◌, ◌||◌, Option, some, List, [], ◌∷◌, String,
  update, add_last, if◌then◌else◌,
}
use challanse.Json.{Fields, str, stringify}
use challanse.World.{World, Platform, GraphNodeRow, GraphEdgeRow, foreign_key, guard, pure, ◌>>◌}
use challanse.World.Frame.{Logs, bind-Logs, pure-Logs, now_iso-Logs, Logged, LogOnly, LogOnly-trans}
use challanse.Audit.Events.{members}
use challanse.Auth.{exists}
use challanse.Graph.{
  is_node, write_edge, id_or, edge_name, upsert_graph_node, upsert_graph_edge, connect, with_field,
  ensure_site_in_graph,
}
use challanse.Graph.Laws.{named, named-update, named-add}

pub upsert_graph_node-Logged :
    (p : Platform) (id kind : String) (fs : Fields) (w : World)
    → Logged w (upsert_graph_node p id kind fs w)
unfolding upsert_graph_node
upsert_graph_node-Logged p id kind fs w = record {
  result = tt;
  after = _;
  returned = refl;
  only = refl;
}

-- The row that an upsert of a node writes where there is none.
abbrev new_node : Platform → World → (id kind : String) → Fields → GraphNodeRow
new_node p w id kind fs = record {
  node_id = id;
  node_type = kind;
  properties = stringify fs;
  created_at = p.iso (p.now_ms w.reads);
  updated_at = p.iso (p.now_ms w.reads);
}

abbrev changed_node : Platform → World → (kind : String) → Fields → GraphNodeRow → GraphNodeRow
changed_node p w kind fs n = record n {
  node_type = kind;
  properties = stringify fs;
  updated_at = p.iso (p.now_ms w.reads);
}

named-add_new :
    (nodes : List GraphNodeRow) (n : GraphNodeRow) → named (add_last nodes n) n.node_id ≡ true
named-add_new [] n = ground (arith, eq_refl n.node_id)
named-add_new (m ∷ nodes) n = ground (arith, named-add_new nodes n)

-- A node that was there still is, and the upserted one is.
pub is_node-upsert_graph_node_kept :
    (p : Platform) (id kind other : String) (fs : Fields) (w : World)
    → is_node w other ≡ true
    → is_node (upsert_graph_node p id kind fs w).1 other ≡ true
unfolding upsert_graph_node
is_node-upsert_graph_node_kept p id kind other fs w h =
    elim (is_node w id)
      as (λ b.
        named
          (if b
            then update (λ n. n.node_id == id) (changed_node p w kind fs) w.nodes
            else add_last w.nodes (new_node p w id kind fs))
          other
        ≡ true) [
          | true ↦ named-update id (changed_node p w kind fs) w.nodes other (λ n. refl) ∙ h
          | false ↦ named-add w.nodes (new_node p w id kind fs) other h
        ]

pub is_node-upsert_graph_node :
    (p : Platform) (id kind : String) (fs : Fields) (w : World)
    → is_node (upsert_graph_node p id kind fs w).1 id ≡ true
unfolding upsert_graph_node
is_node-upsert_graph_node p id kind fs w =
    elim (is_node w id)
        as (λ b.
          (is_node w id ≡ b)
          → named
              (if b
                then update (λ n. n.node_id == id) (changed_node p w kind fs) w.nodes
                else add_last w.nodes (new_node p w id kind fs))
              id
            ≡ true) [
              | true ↦ λ h. named-update id (changed_node p w kind fs) w.nodes id (λ n. refl) ∙ h
              | false ↦ λ _. named-add_new w.nodes (new_node p w id kind fs)
            ]
      refl

write_edge-Logged :
    (row : GraphEdgeRow) (id : String) (there known : Bool) (w : World)
    → known ≡ true
    → Logged w ((guard (there || known) foreign_key >> (write_edge row there >> pure id)) w)
write_edge-Logged row id true known w h = record {
  result = id;
  after = _;
  returned = refl;
  only = refl;
}
write_edge-Logged row id false true w h = record {
  result = id;
  after = _;
  returned = refl;
  only = refl;
}
write_edge-Logged row id false false w h = absurd (ground (arith, h))

-- An edge between nodes is written.
pub upsert_graph_edge-Logged :
    (p : Platform) (edge_id : Option String) (source target kind : String) (fs : Fields) (w : World)
    → is_node w source ≡ true
    → is_node w target ≡ true
    → Logged w (upsert_graph_edge p edge_id source target kind fs w)
unfolding upsert_graph_edge
upsert_graph_edge-Logged p edge_id source target kind fs w s t =
    let there = exists (λ e. e.edge_id == id_or edge_id (edge_name source target kind)) w.edges in
    let logged =
      write_edge-Logged _ (id_or edge_id (edge_name source target kind)) there
        (is_node w source && is_node w target) (record w { reads = w.reads + 1 })
        (ground (arith, s, t)) in
    record {
      result = logged.result;
      after = logged.after;
      returned = logged.returned;
      only = LogOnly-trans w (record w { reads = w.reads + 1 }) logged.after refl logged.only;
    }

write_edge-Logs :
    (row : GraphEdgeRow) (id : String) (there known : Bool) (w : World)
    → LogOnly w ((guard (there || known) foreign_key >> (write_edge row there >> pure id)) w).1
write_edge-Logs row id true known w = refl
write_edge-Logs row id false true w = refl
write_edge-Logs row id false false w = refl

-- The writes to the graph write the graph only, refused or not.
pub upsert_graph_edge-Logs :
    (p : Platform) (edge_id : Option String) (source target kind : String) (fs : Fields)
    → Logs (upsert_graph_edge p edge_id source target kind fs)
unfolding upsert_graph_edge
upsert_graph_edge-Logs p edge_id source target kind fs = record {
  logs = λ w.
      let u = record w { reads = w.reads + 1 } in
      let name = id_or edge_id (edge_name source target kind) in
      LogOnly-trans w u _ refl (
        write_edge-Logs
          (record {
            edge_id = name;
            source_node_id = source;
            target_node_id = target;
            edge_type = kind;
            properties = stringify fs;
            created_at = p.iso (p.now_ms w.reads);
          })
          name (exists (λ e. e.edge_id == name) w.edges) (is_node w source && is_node w target) u);
}

pub upsert_graph_node-Logs :
    (p : Platform) (id kind : String) (fs : Fields) → Logs (upsert_graph_node p id kind fs)
unfolding upsert_graph_node
upsert_graph_node-Logs p id kind fs = record { logs = λ w. refl }

connect-Logs :
    (p : Platform) (source target kind : String) (fs : Fields)
    → Logs (connect p source target kind fs)
connect-Logs p source target kind fs =
    upsert_graph_edge-Logs p (some (edge_name source target kind)) source target kind fs

pub ensure_site_in_graph-Logs :
    (p : Platform) (site_id organization_id : String) (fs : Fields)
    → Logs (ensure_site_in_graph p site_id organization_id fs)
unfolding ensure_site_in_graph
ensure_site_in_graph-Logs p site_id organization_id fs =
    bind-Logs
      (upsert_graph_node-Logs p site_id "Site"
        (with_field fs "organization_id" (str organization_id)))
      λ _. bind-Logs (now_iso-Logs p) λ now.
        bind-Logs
          (connect-Logs p site_id organization_id "BELONGS_TO" (members (("since", str now) ∷ [])))
          λ _. pure-Logs tt
