-- ===== src/Audit/Dag/Soundness.antt =====
-- apps/edge/src/audit-chain.ts: what a valid answer of `verifyChainDag` says of the events.
use std.Path.{subst}
use text.Mathlib.Text.{◌==◌}
use text.Mathlib.TextEquality.{eq_iff}
use challanse.Prelude.{
  ◌≡◌, ◌≢◌, refl, sym, ap, ◌∙◌, ℕ, zero, suc, arith, true, ◌||◌, Option, none, some, List, [], ◌∷◌,
  ◌++◌, String, select, find, sort, or_else, Bool-cases, inl, inr, if◌then◌else◌,
}
use challanse.Json.{Fields}
use challanse.World.{World, Platform, ChainRow, AuditEventRow}
use challanse.Auth.Laws.{IsIn, find-some}
use challanse.Audit.Hash.{audit_event_hash}
use challanse.Audit.Chain.{find_chain}
use challanse.Audit.Verify.{elem, event_le, chain_events}
use challanse.Audit.Verify.Links.{IsSealed, append-eq-nil}
use challanse.Audit.Dag.{
  Walk, DagError, id_or_empty, cached, previous_of, walk_parsed, walk_event, walk_queue, walk,
  walk_from, enough, orphans, dag_head_errors, no_children, no_errors, verify_from, verify_dag,
  verify_chain_dag,
}
use challanse.Audit.Dag.Laws.{Listed, walk_event-shrinks}

-- The identifiers of the events are theirs alone, and none is empty.
pub record HasIds (events : List AuditEventRow) : Type 0 where
  pub unique :
      (a b : AuditEventRow) → IsIn a events → IsIn b events → a.event_id ≡ b.event_id → a ≡ b
  pub filled : (a : AuditEventRow) → IsIn a events → a.event_id ≢ ""

module _ (p : Platform) (events : List AuditEventRow) (ids : HasIds events) where
  -- A cached hash is the stored hash of the event that it is cached for.
  abbrev IsCached : String → String → Type 0
  IsCached id h = (e : AuditEventRow) × IsIn e events × (e.event_id ≡ id) × (e.event_hash ≡ h)

  -- Without an error so far, the cache holds stored hashes and every visited event is sealed.
  record IsSound (s : Walk) : Type 0 where
    pub cache : (id h : String) → cached id s.cache ≡ some h → IsCached id h
    pub sealed :
        (e : AuditEventRow)
        → IsIn e events
        → elem e.event_id s.visited ≡ true
        → IsSealed p e.previous_hash e

  cached_ok :
      (previous : String) (cache : List (String × String)) (o : Option AuditEventRow)
      (c : Option String)
      → ((id h : String) → cached id cache ≡ some h → IsCached id h)
      → find (λ e. e.event_hash == previous) events ≡ o
      → cached (id_or_empty o) cache ≡ c
      → or_else c previous ≡ previous
  cached_ok previous cache o none ok found at = refl
  cached_ok previous cache none (some h) ok found at =
      let (e, listed, id, _) = ok "" h at in absurd (ids.filled e listed id)
  cached_ok previous cache (some f) (some h) ok found at =
      let (e, listed, id, hash) = ok f.event_id h at in
      let (same, there) = find-some (λ x. x.event_hash == previous) events f found in
      let one : e ≡ f = ids.unique e f listed there id in
      sym hash
      ∙ ap (λ (x : AuditEventRow). x.event_hash) one
      ∙ (eq_iff f.event_hash previous).0 same

  previous_ok :
      (cache : List (String × String)) (ev : AuditEventRow)
      → ((id h : String) → cached id cache ≡ some h → IsCached id h)
      → previous_of events cache ev ≡ ev.previous_hash
  previous_ok cache ev ok = elim (Bool-cases (ev.previous_hash == "")) [
    | inl e ↦ rw e (sym ((eq_iff ev.previous_hash "").0 e))
    | inr n ↦ rw n (cached_ok ev.previous_hash cache _ _ ok refl refl)
  ]

  walk_parsed-IsSound :
      (rest : List AuditEventRow) (s : Walk) (ev : AuditEventRow) (o : Option Fields)
      → IsIn ev events
      → p.json_parse ev.event_json ≡ o
      → (s.errors ≡ [] → IsSound s)
      → (walk_parsed p events rest s ev o).errors ≡ []
      → IsSound (walk_parsed p events rest s ev o)
  walk_parsed-IsSound rest s ev none at parsed sound h =
      let (_, e) = append-eq-nil s.errors _ h in cc
  walk_parsed-IsSound rest s ev (some body) at parsed sound h =
      let (before, e) = append-eq-nil s.errors _ h in
      let old = sound before in
      let recomputed = audit_event_hash p (previous_of events s.cache ev) body in
      let same : recomputed ≡ ev.event_hash = ground (arith, e, eq_iff recomputed ev.event_hash) in
      let hashed : ev.event_hash ≡ audit_event_hash p ev.previous_hash body =
        (sym same ∙ ap (λ t. audit_event_hash p t body) (previous_ok s.cache ev old.cache)) in
      record {
        cache = λ id h found. elim (Bool-cases (ev.event_id == id)) [
          | inl y ↦
              let one : some recomputed ≡ some h =
                ap (λ b. if b then some recomputed else cached id s.cache) (sym y) ∙ found in
              (
                ev,
                at,
                (eq_iff ev.event_id id).0 y,
                sym same ∙ ap (λ found_hash. or_else found_hash "") one,
              )
          | inr n ↦
              old.cache id h
                (ap (λ b. if b then some recomputed else cached id s.cache) (sym n) ∙ found)
        ];
        sealed = λ e listed seen. elim (Bool-cases (ev.event_id == e.event_id)) [
          | inl y ↦
              let one : ev ≡ e = ids.unique ev e at listed ((eq_iff ev.event_id e.event_id).0 y) in
              subst (λ x. IsSealed p x.previous_hash x) one
                record { body = body; parsed = parsed; hashed = hashed }
          | inr n ↦ old.sealed e listed (ap (λ b. b || elem e.event_id s.visited) (sym n) ∙ seen)
        ];
      }

  walk_event-IsSound :
      (rest : List AuditEventRow) (s : Walk) (ev : AuditEventRow)
      → IsIn ev events
      → (s.errors ≡ [] → IsSound s)
      → (walk_event p events rest s ev).errors ≡ []
      → IsSound (walk_event p events rest s ev)
  walk_event-IsSound rest s ev at sound = elim (Bool-cases (elem ev.event_id s.visited)) [
    | inl old ↦
        rw old
          (λ h. let before = sound h in record { cache = before.cache; sealed = before.sealed })
    | inr new ↦ rw new (walk_parsed-IsSound rest s ev (p.json_parse ev.event_json) at refl sound)
  ]

  walk-IsSound :
      (fuel : ℕ) (s : Walk)
      → Listed events s.queue
      → (s.errors ≡ [] → IsSound s)
      → (walk p events fuel s).errors ≡ []
      → IsSound (walk p events fuel s)
  unfolding walk
  walk-IsSound zero s listed sound = sound
  walk-IsSound (suc fuel) s listed sound = round (walk-IsSound fuel) s.queue listed
    where
      round :
          ((t : Walk)
            → Listed events t.queue
            → (t.errors ≡ [] → IsSound t)
            → (walk p events fuel t).errors ≡ []
            → IsSound (walk p events fuel t))
          → (queue : List AuditEventRow) → Listed events queue
          → (walk p events fuel (walk_queue p events queue s)).errors ≡ []
          → IsSound (walk p events fuel (walk_queue p events queue s))
      round later [] _ = later s listed sound
      round later (ev ∷ rest) (at, more) =
          later (walk_event p events rest s ev) (walk_event-shrinks p events rest s ev at more).0
            (walk_event-IsSound rest s ev at sound)

-- With no orphan, every event was visited.
all_visited :
    (visited : List String) (es : List AuditEventRow)
    → orphans visited es ≡ []
    → (e : AuditEventRow) → IsIn e es
    → elem e.event_id visited ≡ true
all_visited visited [] none_left e at = absurd at
all_visited visited (x ∷ es) none_left e at = elim (Bool-cases (elem x.event_id visited)) [
  | inl old ↦
      let later : orphans visited es ≡ [] = ground (arith, old, none_left) in
      elim at [ inl same ↦ rw same old | inr there ↦ all_visited visited es later e there ]
  | inr new ↦ ground (arith, new, none_left)
]

verify_from-IsSealed :
    (p : Platform) (chain : Option ChainRow) (events : List AuditEventRow)
    (o : Option AuditEventRow)
    → HasIds events
    → find (λ x. x.previous_hash == "") events ≡ o
    → (verify_from p chain events o).valid ≡ true
    → (e : AuditEventRow) → IsIn e events
    → IsSealed p e.previous_hash e
unfolding verify_from
verify_from-IsSealed p chain events none ids found valid e at = absurd (ground (arith, valid))
verify_from-IsSealed p chain events (some genesis) ids found valid e at =
    let s = walk p events (enough events) (walk_from genesis) in
    let clean : (s.errors ++ orphans s.visited events)
          ++ dag_head_errors chain (select (no_children events) events)
        ≡ [] =
      no_errors_inv _ valid in
    let (walked, reached) = append-eq-nil s.errors _ (append-eq-nil _ _ clean).0 in
    let listed = (find-some (λ x. x.previous_hash == "") events genesis found).1 in
    let first : IsSound p events ids (walk_from genesis) = record {
      cache = λ id h none_yet. absurd (ground (arith, none_yet));
      sealed = λ x _ none_yet. absurd (ground (arith, none_yet));
    } in
    let sound =
      walk-IsSound p events ids (enough events) (walk_from genesis) (listed, tt) (λ _. first)
        walked in
    sound.sealed e at (all_visited s.visited events reached e at)
  where
    no_errors_inv : (errors : List DagError) → no_errors errors ≡ true → errors ≡ []
    no_errors_inv [] h = refl
    no_errors_inv (x ∷ xs) h = ground (arith, h)

-- Where the chain's events have identifiers of their own and none is empty, a valid answer of
-- `verifyChainDag` means that every event of the chain, on whatever branch, holds a body whose hash
-- after the event's own previous hash is the event's hash.
pub verify_chain_dag-IsSealed :
    (p : Platform) (w : World) (chain_id : String)
    → HasIds (sort event_le (chain_events w chain_id))
    → (verify_chain_dag p w chain_id).valid ≡ true
    → (e : AuditEventRow) → IsIn e (sort event_le (chain_events w chain_id))
    → IsSealed p e.previous_hash e
unfolding verify_chain_dag
verify_chain_dag-IsSealed p w chain_id =
    of_rows (sort event_le (chain_events w chain_id)) (find_chain chain_id w.chains)
  where
    of_rows :
        (events : List AuditEventRow) (chain : Option ChainRow)
        → HasIds events
        → (verify_dag p chain events).valid ≡ true
        → (e : AuditEventRow) → IsIn e events
        → IsSealed p e.previous_hash e
    of_rows [] chain ids valid = λ e at. absurd at
    of_rows (x ∷ xs) chain ids valid =
        verify_from-IsSealed p chain (x ∷ xs) (find (λ y. y.previous_hash == "") (x ∷ xs)) ids refl
          valid
