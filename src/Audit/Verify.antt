-- ===== src/Audit/Verify.antt =====
-- apps/edge/src/audit-chain.ts: `verifyChain`, `verifyAllChains` and `detectChainForks`. They only
-- read, so they are functions of the world. An error message is the data that its text shows.
pub mod Links
pub mod Soundness
pub mod Merkle
pub mod Append
pub mod Genesis
use text.Mathlib.Text.{◌==◌}
use challanse.Prelude.{
  ℕ, suc, ◌+◌, Bool, true, false, not, ◌&&◌, ◌||◌, Option, none, some, List, [], ◌∷◌, ◌++◌, String,
  map, length, select, sort, ltb, if◌then◌else◌,
}
use challanse.Json.{Fields, text_le}
use challanse.World.{World, Platform, ChainRow, AuditEventRow}
use challanse.Audit.Hash.{audit_event_hash}
use challanse.Audit.Chain.{find_chain}

pub data ChainError : Type 0 where
  -- Chain not found
  not_found : ChainError
  -- Event: expected previous_hash, got
  unexpected_previous : (event_id expected got : String) → ChainError
  -- Event: invalid event_json
  invalid_json : (event_id : String) → ChainError
  -- Event: hash mismatch
  mismatch : (event_id expected stored : String) → ChainError
  -- Fork detected at previous_hash: children
  fork : (previous_hash : String) (children : ℕ) → ChainError
  -- Chain head mismatch
  head_mismatch : (stored computed : String) → ChainError

pub record VerifyResult : Type 0 where
  pub valid : Bool
  pub chain_length : ℕ
  pub errors : List ChainError

-- `ORDER BY created_at ASC, event_id ASC`
abbrev pub event_le : AuditEventRow → AuditEventRow → Bool
event_le a b =
    if a.created_at == b.created_at
    then text_le a.event_id b.event_id
    else text_le a.created_at b.created_at

-- `WHERE chain_id = ?`
abbrev pub chain_events : World → String → List AuditEventRow
chain_events w chain_id = select (λ e. e.chain_id == chain_id) w.events

-- The variables of the loop.
pub record Checked : Type 0 where
  pub errors : List ChainError
  pub expected_prev : String

abbrev pub link_errors : String → AuditEventRow → List ChainError
link_errors expected ev =
    if ev.previous_hash == expected
    then []
    else unexpected_previous ev.event_id expected ev.previous_hash ∷ []

abbrev pub hash_errors : String → AuditEventRow → List ChainError
hash_errors recomputed ev =
    if recomputed == ev.event_hash then [] else mismatch ev.event_id recomputed ev.event_hash ∷ []

-- The body of the loop after the check of the link: on text that is no JSON, `continue`.
abbrev pub check_hash :
    Platform → AuditEventRow → Option Fields → List ChainError → String → Checked
check_hash p ev none errors expected = record {
  errors = errors ++ (invalid_json ev.event_id ∷ []);
  expected_prev = expected;
}
check_hash p ev (some body) errors expected = record {
  errors = errors ++ hash_errors (audit_event_hash p expected body) ev;
  expected_prev = ev.event_hash;
}

unfoldable pub check_event : Platform → AuditEventRow → Checked → Checked
check_event p ev c =
    check_hash p ev (p.json_parse ev.event_json) (c.errors ++ link_errors c.expected_prev ev)
      c.expected_prev

unfoldable pub check_events : Platform → List AuditEventRow → Checked → Checked
unfolding check_event
check_events p [] c = c
check_events p (ev ∷ evs) c = check_events p evs (check_event p ev c)

-- `GROUP BY previous_hash`: the hashes, each at its first place, and how many rows each has.
abbrev pub child_count : String → List AuditEventRow → ℕ
child_count h [] = 0
child_count h (e ∷ es) = (if e.previous_hash == h then 1 else 0) + child_count h es

abbrev pub elem : String → List String → Bool
elem h [] = false
elem h (k ∷ ks) = k == h || elem h ks

abbrev pub add_hash : String → List String → List String
add_hash h seen = if elem h seen then seen else seen ++ (h ∷ [])

unfoldable pub previous_hashes : List String → List AuditEventRow → List String
previous_hashes seen [] = seen
previous_hashes seen (e ∷ es) = previous_hashes (add_hash e.previous_hash seen) es

-- `HAVING COUNT(*) > 1`
abbrev pub fork_groups : List AuditEventRow → List String
fork_groups es = select (λ h. ltb 1 (child_count h es)) (previous_hashes [] es)

abbrev pub fork_errors : List AuditEventRow → List ChainError
fork_errors es = map (λ h. fork h (child_count h es)) (fork_groups es)

abbrev pub head_errors : Option ChainRow → String → List ChainError
head_errors none expected = []
head_errors (some c) expected =
    if c.head_hash == expected then [] else head_mismatch c.head_hash expected ∷ []

abbrev pub is_empty : List ChainError → Bool
is_empty [] = true
is_empty (_ ∷ _) = false

abbrev pub start : Checked
start = record { errors = []; expected_prev = "" }

abbrev pub result_of : ℕ → List ChainError → VerifyResult
result_of n errors = record { valid = is_empty errors; chain_length = n; errors = errors }

-- From the rows in their order: `ordered` are those of the query, `grouped` the same rows as the
-- second query meets them.
unfoldable pub verify_rows :
    Platform → Option ChainRow → (ordered grouped : List AuditEventRow) → VerifyResult
unfolding check_events previous_hashes
verify_rows p chain [] grouped = result_of 0 (not_found ∷ [])
verify_rows p chain (ev ∷ evs) grouped =
    let c = check_events p (ev ∷ evs) start in
    result_of (length (ev ∷ evs))
      ((c.errors ++ fork_errors grouped) ++ head_errors chain c.expected_prev)

unfoldable pub verify_chain : Platform → World → String → VerifyResult
unfolding verify_rows
verify_chain p w chain_id =
    verify_rows p (find_chain chain_id w.chains) (sort event_le (chain_events w chain_id))
      (chain_events w chain_id)

-- The result of `verifyAllChains`, with the errors of each invalid chain.
pub record AllVerified : Type 0 where
  pub chains : ℕ
  pub valid : ℕ
  pub invalid : ℕ
  pub errors : List (String × List ChainError)

abbrev pub count_result : String → VerifyResult → AllVerified → AllVerified
count_result chain_id r a =
    if r.valid
    then record a { valid = a.valid + 1 }
    else record a { invalid = a.invalid + 1; errors = a.errors ++ ((chain_id, r.errors) ∷ []) }

unfoldable pub verify_each : Platform → World → List ChainRow → AllVerified → AllVerified
unfolding verify_chain
verify_each p w [] a = a
verify_each p w (c ∷ cs) a =
    verify_each p w cs (count_result c.chain_id (verify_chain p w c.chain_id) a)

unfoldable pub verify_all_chains : Platform → World → AllVerified
unfolding verify_each
verify_all_chains p w =
    verify_each p w w.chains
      (record { chains = length w.chains; valid = 0; invalid = 0; errors = [] })

pub record ForkChildren : Type 0 where
  pub parent_hash : String
  pub children : List AuditEventRow

unfoldable pub detect_chain_forks : World → String → List ForkChildren
unfolding previous_hashes
detect_chain_forks w chain_id =
    map
      (λ h. record {
        parent_hash = h;
        children = sort event_le (select (λ e. e.previous_hash == h) (chain_events w chain_id));
      })
      (fork_groups (chain_events w chain_id))
