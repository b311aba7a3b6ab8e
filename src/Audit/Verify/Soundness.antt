-- ===== src/Audit/Verify/Soundness.antt =====
-- apps/edge/src/audit-chain.ts: which chains `verifyChain` accepts.
use text.Mathlib.TextEquality.{eq_iff}
use challanse.Prelude.{
  ◌≡◌, ◌≢◌, ◌↔◌, refl, ◌≤◌, true, false, ◌||◌, Option, none, some, List, [], ◌∷◌, ◌++◌, map, arith,
  String, All, All-map, All-append, select, sort, ltb, if◌then◌else◌,
}
use challanse.World.{World, Platform, ChainRow, AuditEventRow}
use challanse.Audit.Chain.{find_chain}
use challanse.Audit.Verify.{
  ChainError, start, child_count, elem, add_hash, previous_hashes, fork_groups, fork_errors,
  head_errors, is_empty, event_le, chain_events, check_events, verify_rows, verify_chain,
}
use challanse.Audit.Verify.Links.{
  Linked, last_hash, append-eq-nil, check_events-Linked, check_events_of_Linked,
}

-- No two events of the list follow the same hash.
abbrev pub HasNoFork : List AuditEventRow → Type 0
HasNoFork es = All (λ e. child_count e.previous_hash es ≡ 1) es

abbrev pub HeadIs : Option ChainRow → String → Type 0
HeadIs none hash = Unit
HeadIs (some c) hash = c.head_hash ≡ hash

elem-append : (h : String) (xs ys : List String) → elem h (xs ++ ys) ≡ (elem h xs || elem h ys)
elem-append h [] ys = refl
elem-append h (x ∷ xs) ys = ground (arith, elem-append h xs ys)

previous_hashes-keeps :
    (h : String) (seen : List String) (es : List AuditEventRow)
    → elem h seen ≡ true
    → elem h (previous_hashes seen es) ≡ true
unfolding previous_hashes
previous_hashes-keeps h seen [] k = k
previous_hashes-keeps h seen (e ∷ es) k =
    previous_hashes-keeps h (add_hash e.previous_hash seen) es
      (ground (arith, elem-append h seen (e.previous_hash ∷ [])))

elem-add_hash : (h : String) (seen : List String) → elem h (add_hash h seen) ≡ true
elem-add_hash h seen = ground (arith, elem-append h seen (h ∷ []), eq_iff h h)

-- Each event's previous hash is among the groups.
previous_hashes-elem :
    (seen : List String) (es : List AuditEventRow)
    → All (λ e. elem e.previous_hash (previous_hashes seen es) ≡ true) es
unfolding previous_hashes
previous_hashes-elem seen [] = tt
previous_hashes-elem seen (e ∷ es) = (
  previous_hashes-keeps e.previous_hash (add_hash e.previous_hash seen) es
      (elem-add_hash e.previous_hash seen),
  previous_hashes-elem (add_hash e.previous_hash seen) es,
)

not_forked :
    (es : List AuditEventRow) (h : String) (hs : List String)
    → select (λ k. ltb 1 (child_count k es)) hs ≡ []
    → elem h hs ≡ true
    → child_count h es ≤ 1
not_forked es h [] e k = cc
not_forked es h (j ∷ hs) e k = ground (arith, not_forked es h hs, eq_iff j h)

pub child_count-pos : (es : List AuditEventRow) → All (λ e. 1 ≤ child_count e.previous_hash es) es
child_count-pos [] = tt
child_count-pos (e ∷ es) = (
  ground (arith, eq_iff e.previous_hash e.previous_hash),
  All-map es (λ d h. omega arith) (child_count-pos es),
)

both :
    (es ds : List AuditEventRow)
    → All (λ e. 1 ≤ child_count e.previous_hash ds) es
    → All (λ e. child_count e.previous_hash ds ≤ 1) es
    → All (λ e. child_count e.previous_hash ds ≡ 1) es
both [] ds h k = tt
both (e ∷ es) ds (h, hs) (k, ks) = (omega arith, both es ds hs ks)

HasNoFork-of_groups : (es : List AuditEventRow) → fork_groups es ≡ [] → HasNoFork es
HasNoFork-of_groups es h = both es es (child_count-pos es) (
    All-map es (λ e k. not_forked es e.previous_hash (previous_hashes [] es) h k)
      (previous_hashes-elem [] es))

module _ (P : String → Type 0) where
  pub previous_hashes-All :
      (seen : List String) (es : List AuditEventRow)
      → All P seen
      → All (λ e. P e.previous_hash) es
      → All P (previous_hashes seen es)
  unfolding previous_hashes
  previous_hashes-All seen [] h k = h
  previous_hashes-All seen (e ∷ es) h (k, ks) =
      previous_hashes-All (add_hash e.previous_hash seen) es
        (elim (elem e.previous_hash seen)
          as (λ b. All P (if b then seen else seen ++ (e.previous_hash ∷ []))) [
            | true ↦ h
            | false ↦ All-append P seen (e.previous_hash ∷ []) h (k, tt)
          ])
        ks

select-none :
    (es : List AuditEventRow) (hs : List String)
    → All (λ h. child_count h es ≡ 1) hs
    → select (λ k. ltb 1 (child_count k es)) hs ≡ []
select-none es [] h = refl
select-none es (j ∷ hs) (h, hs') = ground (arith, select-none es hs hs')

groups_of_HasNoFork : (es : List AuditEventRow) → HasNoFork es → fork_groups es ≡ []
groups_of_HasNoFork es h =
    select-none es (previous_hashes [] es)
      (previous_hashes-All (λ k. child_count k es ≡ 1) [] es tt h)

-- What a verified chain is: it has events; in their order they are linked from the empty hash on; no
-- two of them follow the same hash; and the stored head, if the chain has a row, is the last hash.
pub record IsIntact (p : Platform) (chain : Option ChainRow) (ordered grouped : List AuditEventRow)
    : Type 0 where
  pub nonempty : ordered ≢ []
  pub linked : Linked p "" ordered
  pub single : HasNoFork grouped
  pub head : HeadIs chain (last_hash "" ordered)

head_errors_inv : (chain : Option ChainRow) (h : String) → head_errors chain h ≡ [] → HeadIs chain h
head_errors_inv none h e = tt
head_errors_inv (some c) h e = ground (arith, eq_iff c.head_hash h)

pub head_errors_of :
    (chain : Option ChainRow) (h : String) → HeadIs chain h → head_errors chain h ≡ []
head_errors_of none h e = refl
head_errors_of (some c) h e = ground (arith, eq_iff c.head_hash h)

nil_of_is_empty : (es : List ChainError) → is_empty es ≡ true → es ≡ []
nil_of_is_empty [] h = refl
nil_of_is_empty (e ∷ es) h = cc

map-eq-nil {ℓ κ} : {A : Type ℓ} {B : Type κ} (f : A → B) (xs : List A) → map f xs ≡ [] → xs ≡ []
map-eq-nil f [] h = refl
map-eq-nil f (x ∷ xs) h = cc

verify_rows_sound :
    (p : Platform) (chain : Option ChainRow) (ordered grouped : List AuditEventRow)
    → (verify_rows p chain ordered grouped).valid ≡ true
    → IsIntact p chain ordered grouped
unfolding verify_rows
verify_rows_sound p chain [] grouped h = cc
verify_rows_sound p chain (e ∷ es) grouped h =
    let c = check_events p (e ∷ es) start in
    let (front, head) =
      append-eq-nil (c.errors ++ fork_errors grouped) (head_errors chain c.expected_prev)
        (nil_of_is_empty _ h) in
    let (checked, forks) = append-eq-nil c.errors (fork_errors grouped) front in
    let (_, linked, last) = check_events-Linked p (e ∷ es) start checked in
    record {
      nonempty = λ (x : e ∷ es ≡ []). cc;
      linked = linked;
      single = HasNoFork-of_groups grouped (map-eq-nil _ (fork_groups grouped) forks);
      head = rw last at (head_errors_inv chain c.expected_prev head);
    }

verify_rows_complete :
    (p : Platform) (chain : Option ChainRow) (ordered grouped : List AuditEventRow)
    → IsIntact p chain ordered grouped
    → (verify_rows p chain ordered grouped).valid ≡ true
unfolding verify_rows
verify_rows_complete p chain [] grouped i = absurd (i.nonempty refl)
verify_rows_complete p chain (e ∷ es) grouped i = rw (
  check_events_of_Linked p (e ∷ es) start i.linked,
  groups_of_HasNoFork grouped i.single,
  head_errors_of chain (last_hash "" (e ∷ es)) i.head,
)

-- `verifyChain` answers valid exactly when the chain is intact: it has events, in the order of the
-- query they are linked from the empty hash on, each with its own hash recomputed from its body, no
-- two follow the same hash, and the stored head is the last hash.
pub verify_chain_iff :
    (p : Platform) (w : World) (chain_id : String)
    → ((verify_chain p w chain_id).valid ≡ true)
      ↔ IsIntact p
          (find_chain chain_id w.chains)
          (sort event_le (chain_events w chain_id))
          (chain_events w chain_id)
unfolding verify_chain
verify_chain_iff p w chain_id = (
  verify_rows_sound p (find_chain chain_id w.chains) (sort event_le (chain_events w chain_id))
      (chain_events w chain_id),
  verify_rows_complete p (find_chain chain_id w.chains) (sort event_le (chain_events w chain_id))
      (chain_events w chain_id),
)
