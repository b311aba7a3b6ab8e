-- ===== src/Audit/Chain/Frame.antt =====
-- apps/edge/src/audit-chain.ts: `appendAuditEvent` returns, and which tables it leaves alone.
use challanse.World.Frame.{Logged, Logs}
use challanse.Prelude.{sym, ◌∙◌, ◌≡◌, refl, ap, Option, none, some, String}
use challanse.Json.{Fields}
use challanse.World.{World, Platform, Outcome, value, Act, AuditEventRow, pure, now_iso, ◌>>=◌}
use challanse.Audit.Hash.{audit_event_hash}
use challanse.Audit.Chain.{
  ChainHead, hashed_genesis, find_chain, create_chain, head_of, get_or_create_chain, record_fork,
  check_fork, append_to_head, append_audit_event,
}

-- The second world differs from the first in the tables of the audit chain, the identifiers drawn and
-- the clock only.
abbrev pub AuditOnly : World → World → Type 0
AuditOnly w v = v ≡ record w {
  chains = v.chains;
  events = v.events;
  forks = v.forks;
  alerts = v.alerts;
  uuids = v.uuids;
  reads = v.reads;
}

pub AuditOnly-trans : (w v u : World) → AuditOnly w v → AuditOnly v u → AuditOnly w u
AuditOnly-trans w v u first second =
    second
    ∙ ap
        (λ (x : World). record x {
          chains = u.chains;
          events = u.events;
          forks = u.forks;
          alerts = u.alerts;
          uuids = u.uuids;
          reads = u.reads;
        })
        first

-- The action has returned, and has changed the audit tables only.
pub record Audited {ℓ} {A : Type ℓ} (w : World) (r : Outcome A × World) : Type ℓ where
  pub result : A
  pub after : World
  pub returned : r ≡ (value result, after)
  pub only : AuditOnly w after

check_fork-Audited :
    (p : Platform) (chain_id event_id event_type h : String) (o : Option AuditEventRow)
    (w v : World)
    → AuditOnly w v
    → Audited w ((check_fork p chain_id event_id event_type o >>= λ _. pure h) v)
unfolding record_fork
check_fork-Audited p chain_id event_id event_type h none w v only = record {
  result = h;
  after = v;
  returned = refl;
  only = only;
}
check_fork-Audited p chain_id event_id event_type h (some e) w v only = record {
  result = h;
  after = (record_fork p chain_id event_id event_type e v).1;
  returned = refl;
  only = AuditOnly-trans w v _ only refl;
}

append_to_head-Audited :
    (p : Platform) (chain_id event_type : String) (body : Fields) (chain : ChainHead) (w v : World)
    → AuditOnly w v
    → Audited w (append_to_head p chain_id event_type body chain v)
unfolding append_to_head
append_to_head-Audited p chain_id event_type body chain w v only =
    check_fork-Audited p chain_id (p.uuid v.uuids) event_type
      (audit_event_hash p chain.head_hash body) _ w _ (AuditOnly-trans w v _ only refl)

-- Appending an event returns, and changes the audit tables only.
pub append_audit_event-Audited :
    (p : Platform) (chain_id event_type : String) (body : Fields) (w : World)
    → Audited w (append_audit_event p chain_id event_type body w)
unfolding append_audit_event get_or_create_chain create_chain
append_audit_event-Audited p chain_id event_type body w =
    elim (find_chain chain_id w.chains)
      as (λ o. Audited w ((head_of p chain_id o >>= append_to_head p chain_id event_type body) w)) [
        | none ↦
            append_to_head-Audited p chain_id event_type body
              (record {
                head_hash =
                    audit_event_hash p "" (hashed_genesis chain_id (p.iso (p.now_ms w.reads)));
                event_count = 1;
              })
              w (create_chain p chain_id w).1 refl
        | some c ↦
            append_to_head-Audited p chain_id event_type body
              (record { head_hash = c.head_hash; event_count = c.event_count }) w w refl
      ]

module _ {A B : Type 0} where
  pub bind-Audited :
      (m : Act A) (f : A → Act B) (w : World)
      → Audited w (m w)
      → ((a : A) (v : World) → Audited v (f a v))
      → Audited w ((m >>= f) w)
  bind-Audited m f w first next =
      let second = next first.result first.after in
      record {
        result = second.result;
        after = second.after;
        returned = rw first.returned second.returned;
        only = AuditOnly-trans w first.after second.after first.only second.only;
      }

pub pure-Audited : {A : Type 0} (a : A) (w : World) → Audited w (pure a w)
pure-Audited a w = record { result = a; after = w; returned = refl; only = refl }

-- An event whose body reads the clock.
pub timed-Audited :
    (p : Platform) (chain_id event_type : String) (body : String → Fields) (w : World)
    → Audited w
        ((do at ← now_iso p; _ ← append_audit_event p chain_id event_type (body at); pure tt) w)
timed-Audited p chain_id event_type body w =
    bind-Audited (now_iso p)
      (λ at. do _ ← append_audit_event p chain_id event_type (body at); pure tt) w
      (record { result = _; after = _; returned = refl; only = refl })
      λ at v.
        bind-Audited (append_audit_event p chain_id event_type (body at)) (λ _. pure tt) v
          (append_audit_event-Audited p chain_id event_type (body at) v) (λ _. pure-Audited tt)

-- The audit tables are records.
pub Audited-Logged : {A : Type 0} (w : World) (r : Outcome A × World) → Audited w r → Logged w r
Audited-Logged w r a = record {
  result = a.result;
  after = a.after;
  returned = a.returned;
  only =
      a.only
      ∙ ap
          (λ (x : World). record w {
            chains = a.after.chains;
            events = a.after.events;
            forks = a.after.forks;
            alerts = a.after.alerts;
            nodes = x.nodes;
            edges = x.edges;
            uuids = a.after.uuids;
            reads = a.after.reads;
          })
          (sym a.only);
}

-- An event whose body reads the clock is a record.
pub timed-Logs :
    (p : Platform) (chain_id event_type : String) (body : String → Fields)
    → Logs (do at ← now_iso p; _ ← append_audit_event p chain_id event_type (body at); pure tt)
timed-Logs p chain_id event_type body = record {
  logs = λ w.
      let logged = Audited-Logged w _ (timed-Audited p chain_id event_type body w) in
      rw logged.returned logged.only;
}
