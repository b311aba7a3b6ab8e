-- ===== src/Audit/Verify/Append.antt =====
-- apps/edge/src/audit-chain.ts: the verification of a chain after `appendAuditEvent`.
use text.Mathlib.Text.{◌==◌}
use text.Mathlib.TextEquality.{eq_iff}
use text.Mathlib.TextPositions.{eq_refl}
use challanse.Prelude.{
  ◌≡◌, ◌≢◌, refl, sym, ap, ◌∙◌, ◌+◌, ◌≤◌, Bool, true, Option, none, some, List, [], ◌∷◌, ◌++◌, map,
  arith, String, All, select, select-append, sort, sort-append_last, ltb, length, length-append,
  if◌then◌else◌, Bool-cases, inl, inr, append-nil, find, update,
}
use challanse.Json.{Fields, stringify}
use challanse.Json.Texts.{colon_join}
use challanse.World.{World, Platform, ChainRow, AuditEventRow, value, pure, ◌>>=◌}
use challanse.Audit.Hash.{canonical_event, audit_event_hash}
use challanse.Audit.Chain.{find_chain, append_audit_event, is_sibling, check_fork, record_fork}
use challanse.Audit.Verify.{
  ChainError, Checked, start, child_count, elem, add_hash, fork, result_of, previous_hashes,
  fork_errors, head_errors, event_le, chain_events, check_events, verify_rows, verify_chain,
}
use challanse.Audit.Verify.Links.{IsSealed, check_event_sealed, check_events-append}
use challanse.Audit.Verify.Soundness.{head_errors_of, previous_hashes-All, child_count-pos}

-- The body that a text gives back has the canonical text of the body that was written.
pub record ParsesBack (p : Platform) (body : Fields) : Type 0 where
  pub parsed : Fields
  pub parses : p.json_parse (stringify body) ≡ some parsed
  pub same : canonical_event parsed ≡ canonical_event body

-- The event that `appendAuditEvent` inserts after a head.
abbrev pub appended :
    Platform → World → (chain_id event_type : String) → Fields → String → AuditEventRow
appended p w chain_id event_type body head = record {
  event_id = p.uuid w.uuids;
  chain_id = chain_id;
  event_type = event_type;
  event_json = stringify body;
  previous_hash = head;
  event_hash = audit_event_hash p head body;
  created_at = p.iso (p.now_ms w.reads);
}

-- Recording a fork leaves the tables of chains and of events alone.
fork_tables :
    (p : Platform) (chain_id event_id event_type : String) (o : Option AuditEventRow) (w : World)
    → ((check_fork p chain_id event_id event_type o w).1.events ≡ w.events)
      × ((check_fork p chain_id event_id event_type o w).1.chains ≡ w.chains)
unfolding record_fork
fork_tables p chain_id event_id event_type none w = (refl, refl)
fork_tables p chain_id event_id event_type (some e) w = (refl, refl)

fork_returns :
    (p : Platform) (chain_id event_id event_type h : String) (o : Option AuditEventRow) (w : World)
    → (check_fork p chain_id event_id event_type o >>= λ _. pure h) w
      ≡ (value h, (check_fork p chain_id event_id event_type o w).1)
unfolding record_fork
fork_returns p chain_id event_id event_type h none w = refl
fork_returns p chain_id event_id event_type h (some e) w = refl

-- The head after the append.
abbrev pub moved_head : Platform → World → Fields → String → ChainRow → ChainRow
moved_head p w body head d = record d {
  head_hash = audit_event_hash p head body;
  event_count = d.event_count + 1;
  updated_at = p.iso (p.now_ms (w.reads + 1));
}

-- The world before the check for a fork.
abbrev before_check : Platform → World → (chain_id event_type : String) → Fields → String → World
before_check p w chain_id event_type body head = record w {
  events = w.events ++ (appended p w chain_id event_type body head ∷ []);
  chains = update (λ d. d.chain_id == chain_id) (moved_head p w body head) w.chains;
  uuids = w.uuids + 1;
  reads = w.reads + 1 + 1;
}

append_tables :
    (p : Platform) (w : World) (chain_id event_type : String) (body : Fields) (c : ChainRow)
    → find_chain chain_id w.chains ≡ some c
    → ((append_audit_event p chain_id event_type body w).1.events
        ≡ w.events ++ (appended p w chain_id event_type body c.head_hash ∷ []))
      × ((append_audit_event p chain_id event_type body w).1.chains
          ≡ update (λ d. d.chain_id == chain_id) (moved_head p w body c.head_hash) w.chains)
append_tables p w chain_id event_type body c found =
    let v = before_check p w chain_id event_type body c.head_hash in
    let o = find (is_sibling chain_id c.head_hash (p.uuid w.uuids)) v.events in
    let runs : append_audit_event p chain_id event_type body w
        ≡ (check_fork p chain_id (p.uuid w.uuids) event_type o >>= λ _.
              pure (audit_event_hash p c.head_hash body))
            v =
      (unfold append_audit_event in rw found refl) in
    let final =
      runs
      ∙ fork_returns p chain_id (p.uuid w.uuids) event_type (audit_event_hash p c.head_hash body) o
          v in
    let (events, chains) = fork_tables p chain_id (p.uuid w.uuids) event_type o v in
    (ap (λ r. r.1.events) final ∙ events, ap (λ r. r.1.chains) final ∙ chains)

verify_rows_nonempty :
    (p : Platform) (chain : Option ChainRow) (ordered grouped : List AuditEventRow)
    → ordered ≢ []
    → verify_rows p chain ordered grouped
      ≡ result_of (length ordered) (
          ((check_events p ordered start).errors ++ fork_errors grouped)
          ++ head_errors chain (check_events p ordered start).expected_prev)
unfolding verify_rows
verify_rows_nonempty p chain [] grouped h = absurd (h refl)
verify_rows_nonempty p chain (e ∷ es) grouped h = refl

find_chain-update :
    (p : Platform) (w : World) (body : Fields) (head chain_id : String) (chains : List ChainRow)
    (c : ChainRow)
    → find_chain chain_id chains ≡ some c
    → find_chain chain_id (update (λ d. d.chain_id == chain_id) (moved_head p w body head) chains)
      ≡ some (moved_head p w body head c)
find_chain-update p w body head chain_id [] c h = cc
find_chain-update p w body head chain_id (d ∷ ds) c h =
    ground (arith, find_chain-update p w body head chain_id ds c)

child_count-append :
    (h : String) (es : List AuditEventRow) (e : AuditEventRow)
    → child_count h (es ++ (e ∷ [])) ≡ child_count h es + (if e.previous_hash == h then 1 else 0)
child_count-append h [] e = ground arith
child_count-append h (d ∷ es) e = omega (arith, child_count-append h es e)

previous_hashes-append :
    (seen : List String) (es : List AuditEventRow) (e : AuditEventRow)
    → previous_hashes seen (es ++ (e ∷ [])) ≡ add_hash e.previous_hash (previous_hashes seen es)
unfolding previous_hashes
previous_hashes-append seen [] e = refl
previous_hashes-append seen (d ∷ es) e = previous_hashes-append (add_hash d.previous_hash seen) es e

-- The hashes in the groups are previous hashes, so one that no event follows differs from them.
counted : (es : List AuditEventRow) → All (λ h. 1 ≤ child_count h es) (previous_hashes [] es)
counted es = previous_hashes-All (λ h. 1 ≤ child_count h es) [] es tt (child_count-pos es)

fork_list : List AuditEventRow → List String → List ChainError
fork_list es hs = map (λ h. fork h (child_count h es)) (select (λ h. ltb 1 (child_count h es)) hs)

fork_list-lists :
    (es : List AuditEventRow) (hs ks : List String)
    → fork_list es (hs ++ ks) ≡ fork_list es hs ++ fork_list es ks
unfolding fork_list
fork_list-lists es [] ks = refl
fork_list-lists es (h ∷ hs) ks = ground (arith, fork_list-lists es hs ks)

module _ (es : List AuditEventRow) (e : AuditEventRow)
    (fresh : child_count e.previous_hash es ≡ 0) where
  fork_list-append :
      (hs : List String)
      → All (λ h. 1 ≤ child_count h es) hs
      → fork_list (es ++ (e ∷ [])) hs ≡ fork_list es hs
  unfolding fork_list
  fork_list-append [] all = refl
  fork_list-append (h ∷ hs) (pos, rest) =
      let same : child_count h (es ++ (e ∷ [])) ≡ child_count h es =
        (child_count-append h es e ∙ ground (arith, eq_iff e.previous_hash h)) in
      rw same (ground (arith, fork_list-append hs rest))

  fork_list_new :
      (hs : List String)
      → fork_list (es ++ (e ∷ [])) (add_hash e.previous_hash hs) ≡ fork_list (es ++ (e ∷ [])) hs
  fork_list_new hs = elim (Bool-cases (elem e.previous_hash hs)) [
    | inl old ↦ rw old
    | inr new ↦ rw new (
        fork_list-lists (es ++ (e ∷ [])) hs (e.previous_hash ∷ [])
        ∙ ap (λ l. fork_list (es ++ (e ∷ [])) hs ++ l) fork_list_single
        ∙ append-nil (fork_list (es ++ (e ∷ [])) hs))
  ]
    where
      fork_list_single : fork_list (es ++ (e ∷ [])) (e.previous_hash ∷ []) ≡ []
      fork_list_single =
          let one : child_count e.previous_hash (es ++ (e ∷ [])) ≡ 1 =
            (child_count-append e.previous_hash es e
              ∙ ground (arith, fresh, eq_iff e.previous_hash e.previous_hash)) in
          unfold fork_list in rw one

  fork_errors-append : fork_errors (es ++ (e ∷ [])) ≡ fork_errors es
  unfolding fork_list
  fork_errors-append =
      ap (fork_list (es ++ (e ∷ []))) (previous_hashes-append [] es e)
      ∙ fork_list_new (previous_hashes [] es)
      ∙ fork_list-append (previous_hashes [] es) (counted es)

-- What an append relies on: the chain has a row and events, its head is the hash at which the
-- verification of its events ends, no event follows the head yet, the new event stands behind the
-- others in the order of the query, and its body comes back from the stored text.
pub record CanAppend (p : Platform) (w : World) (chain_id event_type : String) (body : Fields)
    (c : ChainRow) : Type 0 where
  pub found : find_chain chain_id w.chains ≡ some c
  pub nonempty : sort event_le (chain_events w chain_id) ≢ []
  pub at_head :
      (check_events p (sort event_le (chain_events w chain_id)) start).expected_prev ≡ c.head_hash
  pub fresh : child_count c.head_hash (chain_events w chain_id) ≡ 0
  pub later :
      All
        (λ e. event_le e (appended p w chain_id event_type body c.head_hash) ≡ true)
        (chain_events w chain_id)
  pub parses_back : ParsesBack p body

module _ (p : Platform) (w : World) (chain_id event_type : String) (body : Fields) (c : ChainRow)
    (can : CanAppend p w chain_id event_type body c) where
  abbrev new : AuditEventRow
  new = appended p w chain_id event_type body c.head_hash

  abbrev rows : List AuditEventRow
  rows = chain_events w chain_id

  abbrev checked : Checked
  checked = check_events p (sort event_le rows) start

  new_rows :
      chain_events (append_audit_event p chain_id event_type body w).1 chain_id ≡ rows ++ (new ∷ [])
  new_rows =
      ap (select (λ e. e.chain_id == chain_id))
        (append_tables p w chain_id event_type body c can.found).0
      ∙ select-append (λ e. e.chain_id == chain_id) w.events (new ∷ [])
      ∙ ap (λ (b : Bool). rows ++ (if b then new ∷ [] else [])) (eq_refl chain_id)

  new_row :
      find_chain chain_id (append_audit_event p chain_id event_type body w).1.chains
      ≡ some (moved_head p w body c.head_hash c)
  new_row =
      ap (find_chain chain_id) (append_tables p w chain_id event_type body c can.found).1
      ∙ find_chain-update p w body c.head_hash chain_id w.chains c can.found

  new-IsSealed : IsSealed p checked.expected_prev new
  unfolding audit_event_hash
  new-IsSealed = record {
    body = can.parses_back.parsed;
    parsed = can.parses_back.parses;
    hashed =
        ap (λ h. p.sha256_hex (colon_join h (canonical_event body))) (sym can.at_head)
        ∙ ap (λ t. p.sha256_hex (colon_join checked.expected_prev t)) (sym can.parses_back.same);
  }

  new_checked :
      check_events p (sort event_le rows ++ (new ∷ [])) start
      ≡ record { errors = checked.errors; expected_prev = new.event_hash }
  new_checked =
      check_events-append p (sort event_le rows) new start
      ∙ check_event_sealed p new checked (sym can.at_head) new-IsSealed

  nonempty_append : (es : List AuditEventRow) (e : AuditEventRow) → es ++ (e ∷ []) ≢ []
  nonempty_append [] e h = cc
  nonempty_append (d ∷ es) e h = cc

  abbrev old_errors : List ChainError
  old_errors = (checked.errors ++ fork_errors rows) ++ []

  before_eq : verify_chain p w chain_id ≡ result_of (length (sort event_le rows)) old_errors
  unfolding verify_chain
  before_eq =
      verify_rows_nonempty p (find_chain chain_id w.chains) (sort event_le rows) rows can.nonempty
      ∙ ap
          (λ l. result_of (length (sort event_le rows)) ((checked.errors ++ fork_errors rows) ++ l))
          (ap (λ o. head_errors o checked.expected_prev) can.found
            ∙ head_errors_of (some c) checked.expected_prev (sym can.at_head))

  after_rows :
      verify_chain p (append_audit_event p chain_id event_type body w).1 chain_id
      ≡ verify_rows p
          (some (moved_head p w body c.head_hash c))
          (sort event_le rows ++ (new ∷ []))
          (rows ++ (new ∷ []))
  unfolding verify_chain
  after_rows =
      rw (new_rows, new_row)
        (ap (λ l. verify_rows p (some (moved_head p w body c.head_hash c)) l (rows ++ (new ∷ [])))
          (sort-append_last event_le new rows can.later))

  after_eq :
      verify_chain p (append_audit_event p chain_id event_type body w).1 chain_id
      ≡ result_of (length (sort event_le rows) + 1) old_errors
  after_eq =
      after_rows
      ∙ verify_rows_nonempty p (some (moved_head p w body c.head_hash c))
          (sort event_le rows ++ (new ∷ [])) (rows ++ (new ∷ []))
          (nonempty_append (sort event_le rows) new)
      ∙ ap
          (λ (k : Checked). result_of (length (sort event_le rows ++ (new ∷ []))) (
            (k.errors ++ fork_errors (rows ++ (new ∷ [])))
            ++ head_errors (some (moved_head p w body c.head_hash c)) k.expected_prev))
          new_checked
      ∙ ap
          (λ l. result_of (length (sort event_le rows ++ (new ∷ []))) (
            (checked.errors ++ l)
            ++ head_errors (some (moved_head p w body c.head_hash c)) new.event_hash))
          (fork_errors-append rows new can.fresh)
      ∙ ap
          (λ l.
            result_of (length (sort event_le rows ++ (new ∷ [])))
              ((checked.errors ++ fork_errors rows) ++ l))
          (head_errors_of (some (moved_head p w body c.head_hash c)) new.event_hash refl)
      ∙ ap (λ n. result_of n old_errors) (length-append (sort event_le rows) (new ∷ []))

  -- Verifying a chain after an append gives the errors of before and one event more, where the chain
  -- has a row and events, its head is the hash at which the verification ends, no event follows the
  -- head yet, the new event stands last in the order of the query and its body comes back from the
  -- stored text.
  pub verify_chain-append_audit_event :
      verify_chain p (append_audit_event p chain_id event_type body w).1 chain_id ≡ record {
        valid = (verify_chain p w chain_id).valid;
        chain_length = (verify_chain p w chain_id).chain_length + 1;
        errors = (verify_chain p w chain_id).errors;
      }
  verify_chain-append_audit_event = rw before_eq after_eq
