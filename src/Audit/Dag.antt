-- ===== src/Audit/Dag.antt =====
-- apps/edge/src/audit-chain.ts: `verifyChainDag`, which walks the events of a chain from the genesis
-- event along the hashes. The queue is walked on fuel, of which the square of the number of events and
-- two more are enough (Audit/Dag/Laws).
pub mod Laws
pub mod Soundness
use text.Mathlib.Text.{◌==◌}
use challanse.Prelude.{
  ℕ, zero, suc, ◌+◌, ◌*◌, Bool, true, false, not, ◌&&◌, Option, none, some, List, [], ◌∷◌, ◌++◌,
  String, map, length, select, find, sort, ltb, or_else, if◌then◌else◌,
}
use challanse.Json.{Fields}
use challanse.World.{World, Platform, ChainRow, AuditEventRow}
use challanse.Auth.{exists}
use challanse.Audit.Hash.{audit_event_hash}
use challanse.Audit.Chain.{find_chain}
use challanse.Audit.Verify.{event_le, chain_events, elem, fork_groups}

pub data DagError : Type 0 where
  -- Chain not found or empty
  not_found : DagError
  -- No genesis event found
  no_genesis : DagError
  -- Event: invalid event_json
  invalid_json : (event_id : String) → DagError
  -- Event: hash mismatch
  mismatch : (event_id expected stored : String) → DagError
  -- Event: orphaned
  orphaned : (event_id : String) → DagError
  -- Chain head mismatch, with several leaves and with one
  no_leaf_matches : (stored : String) (leaves : ℕ) → DagError
  head_mismatch : (stored computed : String) → DagError

pub record DagFork : Type 0 where
  pub parent_hash : String
  -- identifiers and types
  pub children : List (String × String)

pub record DagResult : Type 0 where
  pub valid : Bool
  pub chain_length : ℕ
  pub forks : List DagFork
  pub errors : List DagError

-- `parentToChildren.get(hash) ?? []`
abbrev pub children_of : List AuditEventRow → String → List AuditEventRow
children_of events hash = select (λ e. e.previous_hash == hash) events

unfoldable pub dag_forks : List AuditEventRow → List DagFork
dag_forks events =
    map
      (λ h. record {
        parent_hash = h;
        children = map (λ e. (e.event_id, e.event_type)) (children_of events h);
      })
      (fork_groups events)

-- The variables of the walk; the newest entries of the set and of the map come first.
pub record Walk : Type 0 where
  pub queue : List AuditEventRow
  pub visited : List String
  pub cache : List (String × String)
  pub errors : List DagError

abbrev pub cached : String → List (String × String) → Option String
cached id [] = none
cached id ((k, h) ∷ rest) = if k == id then some h else cached id rest

-- `events.find((e) => e.event_hash === hash)?.event_id ?? ''`
abbrev pub id_or_empty : Option AuditEventRow → String
id_or_empty none = ""
id_or_empty (some e) = e.event_id

-- The hash before an event: its predecessor's, recomputed, if that was walked.
abbrev pub previous_of : List AuditEventRow → List (String × String) → AuditEventRow → String
previous_of events cache ev =
    if ev.previous_hash == ""
    then ""
    else or_else (cached (id_or_empty (find (λ e. e.event_hash == ev.previous_hash) events)) cache)
        ev.previous_hash

abbrev pub dag_hash_errors : String → AuditEventRow → List DagError
dag_hash_errors recomputed ev =
    if recomputed == ev.event_hash then [] else mismatch ev.event_id recomputed ev.event_hash ∷ []

abbrev pub unvisited : List String → List AuditEventRow → List AuditEventRow
unvisited visited events = select (λ e. not (elem e.event_id visited)) events

-- An event that was not visited; its text is parsed, and on text that is no JSON, `continue`.
abbrev pub walk_parsed :
    Platform → List AuditEventRow → List AuditEventRow → Walk → AuditEventRow → Option Fields → Walk
walk_parsed p events rest s ev none = record s {
  queue = rest;
  visited = ev.event_id ∷ s.visited;
  errors = s.errors ++ (invalid_json ev.event_id ∷ []);
}
walk_parsed p events rest s ev (some body) =
    let recomputed = audit_event_hash p (previous_of events s.cache ev) body in
    let visited = ev.event_id ∷ s.visited in
    record {
      queue = rest ++ unvisited visited (children_of events ev.event_hash);
      visited = visited;
      cache = (ev.event_id, recomputed) ∷ s.cache;
      errors = s.errors ++ dag_hash_errors recomputed ev;
    }

-- The body of the loop.
abbrev pub walk_event :
    Platform → List AuditEventRow → List AuditEventRow → Walk → AuditEventRow → Walk
walk_event p events rest s ev =
    if elem ev.event_id s.visited
    then record s { queue = rest }
    else walk_parsed p events rest s ev (p.json_parse ev.event_json)

abbrev pub walk_queue : Platform → List AuditEventRow → List AuditEventRow → Walk → Walk
walk_queue p events [] s = s
walk_queue p events (ev ∷ rest) s = walk_event p events rest s ev

-- `while (queue.length > 0)`: a round on the empty queue changes nothing.
unfoldable pub walk : Platform → List AuditEventRow → ℕ → Walk → Walk
walk p events zero s = s
walk p events (suc fuel) s = walk p events fuel (walk_queue p events s.queue s)

abbrev pub walk_from : AuditEventRow → Walk
walk_from genesis = record { queue = genesis ∷ []; visited = []; cache = []; errors = [] }

abbrev pub enough : List AuditEventRow → ℕ
enough events = length events * length events + 2

abbrev pub orphans : List String → List AuditEventRow → List DagError
orphans visited events = map (λ e. orphaned e.event_id) (unvisited visited events)

abbrev pub no_children : List AuditEventRow → AuditEventRow → Bool
no_children events ev = not (exists (λ e. e.previous_hash == ev.event_hash) events)

abbrev pub leaf_errors : ChainRow → List AuditEventRow → List DagError
leaf_errors c [] = []
leaf_errors c (leaf ∷ []) =
    if leaf.event_hash == c.head_hash then [] else head_mismatch c.head_hash leaf.event_hash ∷ []
leaf_errors c (leaf ∷ next ∷ rest) =
    if exists (λ e. e.event_hash == c.head_hash) (leaf ∷ next ∷ rest)
    then []
    else no_leaf_matches c.head_hash (length (leaf ∷ next ∷ rest)) ∷ []

abbrev pub dag_head_errors : Option ChainRow → List AuditEventRow → List DagError
dag_head_errors none leaves = []
dag_head_errors (some c) leaves = leaf_errors c leaves

abbrev pub no_errors : List DagError → Bool
no_errors [] = true
no_errors (_ ∷ _) = false

unfoldable pub verify_from :
    Platform → Option ChainRow → List AuditEventRow → Option AuditEventRow → DagResult
verify_from p chain events none = record {
  valid = false;
  chain_length = length events;
  forks = dag_forks events;
  errors = no_genesis ∷ [];
}
verify_from p chain events (some genesis) =
    let s = walk p events (enough events) (walk_from genesis) in
    let errors =
      (s.errors ++ orphans s.visited events)
      ++ dag_head_errors chain (select (no_children events) events) in
    record {
      valid = no_errors errors;
      chain_length = length events;
      forks = dag_forks events;
      errors = errors;
    }

abbrev pub verify_dag : Platform → Option ChainRow → List AuditEventRow → DagResult
verify_dag p chain [] = record {
  valid = false;
  chain_length = 0;
  forks = [];
  errors = not_found ∷ [];
}
verify_dag p chain (e ∷ es) =
    verify_from p chain (e ∷ es) (find (λ x. x.previous_hash == "") (e ∷ es))

unfoldable pub verify_chain_dag : Platform → World → String → DagResult
verify_chain_dag p w chain_id =
    verify_dag p (find_chain chain_id w.chains) (sort event_le (chain_events w chain_id))
