-- ===== src/Audit/Chain.antt =====
-- apps/edge/src/audit-chain.ts: `getOrCreateChain`, `appendAuditEvent`, `getChainStatus`. Random
-- identifiers are taken to be new: a clash of their primary keys is not modelled.
pub mod Frame
use text.Mathlib.Text.{◌==◌}
use challanse.Prelude.{
  ℕ, ◌+◌, Bool, true, false, not, ◌&&◌, Option, none, some, List, [], ◌∷◌, ◌++◌, String, length,
  select, find, update, sort, if◌then◌else◌,
}
use challanse.Json.{Fields, str, stringify, text_le}
use challanse.World.{
  World, Platform, Act, ChainRow, AuditEventRow, fork_detected, warning, critical, pure, gets,
  modify, ◌>>=◌, ◌>>◌, draw_uuid, now_iso, Severity,
}
use challanse.Audit.Hash.{audit_event_hash}
use challanse.Audit.Events.{members}

-- The result of `getOrCreateChain`.
pub record ChainHead : Type 0 where
  pub head_hash : String
  pub event_count : ℕ

abbrev pub find_chain : String → List ChainRow → Option ChainRow
find_chain chain_id chains = find (λ c. c.chain_id == chain_id) chains

abbrev pub insert_chain : ChainRow → Act (Unit {0})
insert_chain row = modify (λ w. record w { chains = w.chains ++ (row ∷ []) })

abbrev pub insert_event : AuditEventRow → Act (Unit {0})
insert_event row = modify (λ w. record w { events = w.events ++ (row ∷ []) })

abbrev pub update_chains : String → (ChainRow → ChainRow) → Act (Unit {0})
update_chains chain_id f =
    modify (λ w. record w { chains = update (λ c. c.chain_id == chain_id) f w.chains })

-- The event that the genesis hash is computed from.
abbrev pub hashed_genesis : String → String → Fields
hashed_genesis chain_id timestamp = members (
    ("event_type", str "CHAIN_CREATED")
    ∷ ("chain_id", str chain_id)
    ∷ ("timestamp", str timestamp)
    ∷ [])

-- The event that is stored as the genesis event's JSON.
abbrev pub stored_genesis : String → String → Fields
stored_genesis chain_id timestamp =
    members (("chain_id", str chain_id) ∷ ("timestamp", str timestamp) ∷ [])

unfoldable pub create_chain : Platform → String → Act ChainHead
unfolding audit_event_hash
create_chain p chain_id = do
  hashed_at ← now_iso p
  let genesis_hash = audit_event_hash p "" (hashed_genesis chain_id hashed_at)
  chain_created ← now_iso p
  chain_updated ← now_iso p
  insert_chain (record {
    chain_id = chain_id;
    head_hash = genesis_hash;
    event_count = 0;
    created_at = chain_created;
    updated_at = chain_updated;
  })
  event_id ← draw_uuid p
  stored_at ← now_iso p
  created_at ← now_iso p
  insert_event (record {
    event_id = event_id;
    chain_id = chain_id;
    event_type = "CHAIN_CREATED";
    event_json = stringify (stored_genesis chain_id stored_at);
    previous_hash = "";
    event_hash = genesis_hash;
    created_at = created_at;
  })
  counted_at ← now_iso p
  update_chains chain_id
      (λ c. record c { head_hash = genesis_hash; event_count = 1; updated_at = counted_at })
  pure (record { head_hash = genesis_hash; event_count = 1 })

abbrev pub head_of : Platform → String → Option ChainRow → Act ChainHead
head_of p chain_id none = create_chain p chain_id
head_of p chain_id (some c) = pure (record { head_hash = c.head_hash; event_count = c.event_count })

unfoldable pub get_or_create_chain : Platform → String → Act ChainHead
unfolding create_chain
get_or_create_chain p chain_id = do
  existing ← gets (λ w. find_chain chain_id w.chains)
  head_of p chain_id existing

-- Whether an event of the chain has the same previous hash and is another event.
abbrev pub is_sibling : String → String → String → AuditEventRow → Bool
is_sibling chain_id previous_hash event_id e =
    e.chain_id == chain_id && (e.previous_hash == previous_hash && not (e.event_id == event_id))

-- The body of `if (forkCheck)`.
unfoldable pub record_fork :
    Platform → (chain_id event_id event_type : String) → AuditEventRow → Act (Unit {0})
record_fork p chain_id event_id event_type sibling = do
  fork_id ← draw_uuid p
  fork_at ← now_iso p
  modify (λ w. record w {
    forks =
        w.forks
        ++ (record {
          id = fork_id;
          chain_id = chain_id;
          parent_event_id = sibling.event_id;
          fork_event_id_1 = sibling.event_id;
          fork_event_id_2 = event_id;
          fork_at = fork_at;
          resolved = false;
        }
            ∷ []);
  })
  alert_id ← draw_uuid p
  alert_at ← now_iso p
  modify (λ w. record w {
    alerts =
        w.alerts
        ++ (record {
          id = alert_id;
          chain_id = chain_id;
          alert_type = fork_detected;
          alert_detail = stringify (
              members (
                ("fork_id", str fork_id)
                ∷ ("parent_event_id", str sibling.event_id)
                ∷ ("existing_event_id", str sibling.event_id)
                ∷ ("new_event_id", str event_id)
                ∷ ("existing_type", str sibling.event_type)
                ∷ ("new_type", str event_type)
                ∷ []));
          severity = warning;
          acknowledged = false;
          created_at = alert_at;
        }
            ∷ []);
  })

abbrev pub check_fork :
    Platform → (chain_id event_id event_type : String) → Option AuditEventRow → Act (Unit {0})
check_fork p chain_id event_id event_type none = pure tt
check_fork p chain_id event_id event_type (some sibling) =
    record_fork p chain_id event_id event_type sibling

-- From the chain's head on: the event, the new head, and the check for a fork.
unfoldable pub append_to_head :
    Platform → (chain_id event_type : String) → Fields → ChainHead → Act String
unfolding audit_event_hash record_fork
append_to_head p chain_id event_type event_body chain = do
  event_id ← draw_uuid p
  let event_hash = audit_event_hash p chain.head_hash event_body
  created_at ← now_iso p
  insert_event (record {
    event_id = event_id;
    chain_id = chain_id;
    event_type = event_type;
    event_json = stringify event_body;
    previous_hash = chain.head_hash;
    event_hash = event_hash;
    created_at = created_at;
  })
  updated_at ← now_iso p
  update_chains chain_id (λ c. record c {
    head_hash = event_hash;
    event_count = c.event_count + 1;
    updated_at = updated_at;
  })
  fork_check ← gets (λ w. find (is_sibling chain_id chain.head_hash event_id) w.events)
  check_fork p chain_id event_id event_type fork_check
  pure event_hash

unfoldable pub append_audit_event : Platform → (chain_id event_type : String) → Fields → Act String
unfolding get_or_create_chain append_to_head
append_audit_event p chain_id event_type event_body = do
  chain ← get_or_create_chain p chain_id
  append_to_head p chain_id event_type event_body chain

pub record ChainStatus : Type 0 where
  pub chain_id : String
  pub head_hash : String
  pub event_count : ℕ
  pub fork_count : ℕ
  pub unresolved_forks : ℕ
  pub alert_count : ℕ
  pub critical_alerts : ℕ
  pub last_event_at : Option String
  pub created_at : String
  pub updated_at : String

abbrev pub is_critical : Severity → Bool
is_critical critical = true
is_critical _ = false

-- `ORDER BY created_at DESC, event_id DESC`
abbrev pub event_ge : AuditEventRow → AuditEventRow → Bool
event_ge a b =
    if a.created_at == b.created_at
    then text_le b.event_id a.event_id
    else text_le b.created_at a.created_at

abbrev pub first_created : List AuditEventRow → Option String
first_created [] = none
first_created (e ∷ _) = some e.created_at

abbrev pub status_of : World → ChainRow → ChainStatus
status_of w c = record {
  chain_id = c.chain_id;
  head_hash = c.head_hash;
  event_count = c.event_count;
  fork_count = length (select (λ f. f.chain_id == c.chain_id) w.forks);
  unresolved_forks = length (select (λ f. f.chain_id == c.chain_id && not f.resolved) w.forks);
  alert_count = length (select (λ a. a.chain_id == c.chain_id) w.alerts);
  critical_alerts = length (
      select (λ a. a.chain_id == c.chain_id && (is_critical a.severity && not a.acknowledged))
        w.alerts);
  last_event_at = first_created (sort event_ge (select (λ e. e.chain_id == c.chain_id) w.events));
  created_at = c.created_at;
  updated_at = c.updated_at;
}

unfoldable pub get_chain_status : World → String → Option ChainStatus
get_chain_status w chain_id = elim (find_chain chain_id w.chains) [
  | none ↦ none
  | some c ↦ some (status_of w c)
]
