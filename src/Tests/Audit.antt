-- ===== src/Tests/Audit.antt =====
-- A small audit chain, and the theorems on it.
use text.Mathlib.Text.{◌==◌}
use challanse.Prelude.{
  Ordered, inr, ap, sym, ◌∙◌, List, inl, ◌≡◌, ◌≢◌, ◌↔◌, ◌⊎◌, refl, ◌+◌, true, false, some, [], ◌∷◌,
  map, arith, String, sort, print_number,
}
use challanse.Json.{
  text_le, Fields, Json, str, num, obj, field, end, stringify, stringify_sorted, quote,
}
use challanse.Json.Laws.{append_fields}
use challanse.World.{
  World, Platform, ChainRow, AuditEventRow, AlertRow, hash_mismatch, critical, value,
}
use challanse.Audit.Hash.{canonical_event, audit_event_hash}
use challanse.Audit.Hash.Coverage.{audit_event_hash-nested, config_changed_unhashed}
use challanse.Audit.Events.{members, config_changed_event}
use challanse.Audit.Chain.{append_audit_event, get_or_create_chain, stored_genesis}
use challanse.Audit.Verify.{
  verify_chain, verify_rows, check_event, check_events, previous_hashes, chain_events, event_le,
}
use challanse.Audit.Verify.Soundness.{IsIntact, verify_chain_iff}
use challanse.Audit.Verify.Merkle.{Collision, canonical_body, verify_chain_tamper_evident}
use challanse.Audit.Verify.Append.{CanAppend, ParsesBack, verify_chain-append_audit_event}
use challanse.Audit.Verify.Genesis.{
  hashed_genesis_text, stored_genesis_text, verify_chain_of_created,
}
use challanse.Audit.Dag.{walk, walk_from, enough, verify_from, verify_chain_dag, dag_forks}
use challanse.Audit.Dag.Soundness.{HasIds, verify_chain_dag-IsSealed}
use challanse.Audit.Verify.Links.{IsSealed}
use challanse.Audit.Dag.Laws.{walk_terminates}
use challanse.Audit.Alerts.{IntegrityAlert, active_rows, get_active_alerts, acknowledge_alert}
use challanse.Audit.Alerts.Laws.{get_active_alerts-acknowledge_alert}
use challanse.Tests.Data.{toy, empty_world, no_colons-NoColon}

abbrev first_body : Fields
first_body = members (("event_type", str "SITE_ADDED") ∷ ("site", str "s1") ∷ [])

abbrev next_body : Fields
next_body = members (("event_type", str "SITE_CLOSED") ∷ ("site", str "s1") ∷ [])

abbrev platform : Platform
platform = toy (first_body ∷ next_body ∷ stored_genesis "c" "1000003" ∷ [])

abbrev first_event : String → AuditEventRow
first_event id = record {
  event_id = id;
  chain_id = "c";
  event_type = "SITE_ADDED";
  event_json = stringify first_body;
  previous_hash = "";
  event_hash = audit_event_hash platform "" first_body;
  created_at = "0";
}

abbrev chain_row : ChainRow
chain_row = record {
  chain_id = "c";
  head_hash = audit_event_hash platform "" first_body;
  event_count = 1;
  created_at = "0";
  updated_at = "0";
}

-- One event, under the given identifier.
abbrev one_event : String → World
one_event id = record empty_world { chains = chain_row ∷ []; events = first_event id ∷ [] }

one_event_valid : (verify_chain platform (one_event "a") "c").valid ≡ true
unfolding verify_chain verify_rows check_event check_events previous_hashes audit_event_hash
    canonical_event stringify stringify_sorted quote print_number
one_event_valid = refl

abbrev changed : Json → Fields
changed v = field "limit" v end

audit_event_hash-nested_example :
    audit_event_hash platform "" (append_fields end (field "changes" (obj (changed (num "1"))) end))
    ≡ audit_event_hash platform ""
        (append_fields end (field "changes" (obj (changed (num "2"))) end))
audit_event_hash-nested_example =
    audit_event_hash-nested platform "" end end "changes" (changed (num "1")) (changed (num "2"))
      (refl, tt) (refl, tt)

config_changed_unhashed_example :
    audit_event_hash platform "h" (config_changed_event "a@b" "o1" (changed (num "1")) "t")
    ≡ audit_event_hash platform "h" (config_changed_event "a@b" "o1" (changed (num "2")) "t")
config_changed_unhashed_example =
    config_changed_unhashed platform "h" "a@b" "o1" "t" (changed (num "1")) (changed (num "2"))
      (refl, (refl, (refl, (refl, (refl, tt))))) (refl, (refl, (refl, (refl, (refl, tt)))))

verify_chain_iff_example :
    ((verify_chain platform (one_event "a") "c").valid ≡ true)
    ↔ IsIntact platform
        (some chain_row)
        (sort event_le (chain_events (one_event "a") "c"))
        (chain_events (one_event "a") "c")
verify_chain_iff_example = verify_chain_iff platform (one_event "a") "c"

other_event_valid : (verify_chain platform (one_event "b") "c").valid ≡ true
unfolding verify_chain verify_rows check_event check_events previous_hashes audit_event_hash
    canonical_event stringify stringify_sorted quote print_number
other_event_valid = refl

verify_chain_tamper_evident_example :
    (map (canonical_body platform) (sort event_le (chain_events (one_event "a") "c"))
      ≡ map (canonical_body platform) (sort event_le (chain_events (one_event "b") "c")))
    ⊎ Collision platform
        (sort event_le (chain_events (one_event "a") "c"))
        (sort event_le (chain_events (one_event "b") "c"))
verify_chain_tamper_evident_example =
    verify_chain_tamper_evident platform no_colons-NoColon (one_event "a") (one_event "b") "c"
      chain_row chain_row one_event_valid other_event_valid refl refl refl refl

next-CanAppend : CanAppend platform (one_event "a") "c" "SITE_CLOSED" next_body chain_row
unfolding verify_chain verify_rows check_event check_events previous_hashes audit_event_hash
    canonical_event stringify stringify_sorted quote print_number
next-CanAppend = record {
  found = refl;
  nonempty = λ e. ground (arith, e);
  at_head = refl;
  fresh = refl;
  later = (refl, tt);
  parses_back = record { parsed = next_body; parses = refl; same = refl };
}

verify_chain-append_audit_event_example :
    verify_chain platform
      (append_audit_event platform "c" "SITE_CLOSED" next_body (one_event "a")).1
      "c"
    ≡ record {
      valid = (verify_chain platform (one_event "a") "c").valid;
      chain_length = (verify_chain platform (one_event "a") "c").chain_length + 1;
      errors = (verify_chain platform (one_event "a") "c").errors;
    }
verify_chain-append_audit_event_example =
    verify_chain-append_audit_event platform (one_event "a") "c" "SITE_CLOSED" next_body chain_row
      next-CanAppend

genesis_parses : ParsesBack platform (stored_genesis "c" "1000003")
unfolding canonical_event stringify stringify_sorted quote
genesis_parses = record { parsed = stored_genesis "c" "1000003"; parses = refl; same = refl }

genesis_hashes_differ :
    platform.sha256_hex (hashed_genesis_text platform empty_world "c")
    ≢ platform.sha256_hex (stored_genesis_text platform empty_world "c")
unfolding canonical_event stringify_sorted quote print_number
genesis_hashes_differ same =
    let again = platform.sha256_hex (stored_genesis_text platform empty_world "c") in
    let tested : false ≡ true = ap (λ (t : String). t == again) same in absurd (cc tested)

verify_chain_of_created_example :
    ((verify_chain platform (get_or_create_chain platform "c" empty_world).1 "c").valid ≡ false)
    × (hashed_genesis_text platform empty_world "c" ≢ stored_genesis_text platform empty_world "c")
unfolding print_number
verify_chain_of_created_example =
    verify_chain_of_created platform empty_world "c" refl refl genesis_parses genesis_hashes_differ

abbrev alert : AlertRow
alert = record {
  id = "a1";
  chain_id = "c";
  alert_type = hash_mismatch;
  alert_detail = "{}";
  severity = critical;
  acknowledged = false;
  created_at = "0";
}

abbrev alerted : World
alerted = record empty_world { alerts = alert ∷ [] }

abbrev read_alert : IntegrityAlert
read_alert = record {
  id = "a1";
  chain_id = "c";
  alert_type = hash_mismatch;
  alert_detail = end;
  severity = critical;
  acknowledged = false;
  created_at = "0";
}

abbrev alert_platform : Platform
alert_platform = toy (end ∷ [])

alerts_read :
    get_active_alerts alert_platform (some "c") alerted ≡ (value (read_alert ∷ []), alerted)
unfolding get_active_alerts active_rows stringify
alerts_read = refl

get_active_alerts-acknowledge_alert_example :
    Ordered (λ a b. text_le b.created_at a.created_at) (read_alert ∷ [])
    × (get_active_alerts alert_platform (some "c") (acknowledge_alert "a1" alerted).1
        ≡ (value [], (acknowledge_alert "a1" alerted).1))
get_active_alerts-acknowledge_alert_example =
    get_active_alerts-acknowledge_alert alert_platform alerted (some "c") "a1" (read_alert ∷ [])
      alerts_read

abbrev two_events : List AuditEventRow
two_events =
    first_event "a"
    ∷ record (first_event "b") { previous_hash = audit_event_hash platform "" first_body }
    ∷ []

walk_terminates_example :
    ((walk platform two_events (enough two_events) (walk_from (first_event "a"))).queue ≡ [])
    × (walk platform two_events (enough two_events + 3) (walk_from (first_event "a"))
        ≡ walk platform two_events (enough two_events) (walk_from (first_event "a")))
walk_terminates_example = walk_terminates platform two_events (first_event "a") 3 (inl refl)

a_filled : (id : String) → id ≡ "a" → id ≢ ""
a_filled id is_a empty =
    let tested : false ≡ true = ap (λ (t : String). t == "") (sym is_a ∙ empty) in
    absurd (cc tested)

one_event-HasIds : HasIds (sort event_le (chain_events (one_event "a") "c"))
one_event-HasIds = record {
  unique = λ a b here there _. elim here [
    | inl x ↦ elim there [ inl y ↦ cc | inr none_left ↦ absurd none_left ]
    | inr none_left ↦ absurd none_left
  ];
  filled = λ a here empty. elim here [
    | inl x ↦ a_filled a.event_id (ap (λ (e : AuditEventRow). e.event_id) x) empty
    | inr none_left ↦ absurd none_left
  ];
}

one_event_dag_valid : (verify_chain_dag platform (one_event "a") "c").valid ≡ true
unfolding verify_chain_dag verify_from walk dag_forks previous_hashes audit_event_hash
    canonical_event stringify stringify_sorted quote print_number
one_event_dag_valid = refl

verify_chain_dag-IsSealed_example : IsSealed platform "" (first_event "a")
verify_chain_dag-IsSealed_example =
    verify_chain_dag-IsSealed platform (one_event "a") "c" one_event-HasIds one_event_dag_valid
      (first_event "a") (inl refl)
