-- ===== src/Audit/Dag/Laws.antt =====
-- apps/edge/src/audit-chain.ts: the walk of `verifyChainDag` ends.
use native.Mathlib.Nat.{mul-le-mul_left}
use text.Mathlib.Text.{◌==◌}
use text.Mathlib.TextPositions.{eq_refl}
use challanse.Prelude.{
  ◌≡◌, refl, ap, ◌∙◌, ℕ, zero, suc, ◌+◌, ◌*◌, ◌≤◌, ◌<◌, arith, Bool, true, false, not, Option, none,
  some, List, [], ◌∷◌, String, length, length-append, select, All, All-append, All-map, Bool-cases,
  inl, inr, if◌then◌else◌,
}
use challanse.Json.{Fields}
use challanse.World.{Platform, AuditEventRow}
use challanse.Auth.Laws.{IsIn}
use challanse.Audit.Verify.{elem}
use challanse.Audit.Dag.{
  Walk, children_of, unvisited, walk_parsed, walk_event, walk_queue, walk, walk_from, enough,
}

module _ (q : AuditEventRow → Bool) where
  length-select : (es : List AuditEventRow) → length (select q es) ≤ length es
  length-select [] = omega arith
  length-select (e ∷ es) = ground (arith, length-select es)

  select-IsIn : (es : List AuditEventRow) → All (λ e. IsIn e es) (select q es)
  select-IsIn [] = tt
  select-IsIn (e ∷ es) =
      elim (q e) as (λ b. All (λ x. IsIn x (e ∷ es)) (if b then e ∷ select q es else select q es)) [
        | true ↦ (inl refl, All-map (select q es) (λ x at. inr at) (select-IsIn es))
        | false ↦ All-map (select q es) (λ x at. inr at) (select-IsIn es)
      ]

-- An event that is visited now leaves the events that are not.
unvisited-shrinks :
    (visited : List String) (ev : AuditEventRow) (es : List AuditEventRow)
    → length (unvisited (ev.event_id ∷ visited) es) ≤ length (unvisited visited es)
unvisited-shrinks visited ev [] = omega arith
unvisited-shrinks visited ev (e ∷ es) = ground (arith, unvisited-shrinks visited ev es)

unvisited-drops :
    (visited : List String) (ev : AuditEventRow) (es : List AuditEventRow)
    → elem ev.event_id visited ≡ false
    → IsIn ev es
    → length (unvisited (ev.event_id ∷ visited) es) < length (unvisited visited es)
unvisited-drops visited ev [] new at = absurd at
unvisited-drops visited ev (e ∷ es) new (inl same) =
    let newly : elem e.event_id visited ≡ false = rw (← same) new in
    let there : (ev.event_id == e.event_id) ≡ true = rw same (eq_refl e.event_id) in
    ground (arith, newly, there, unvisited-shrinks visited ev es)
unvisited-drops visited ev (e ∷ es) new (inr at) =
    ground (arith, unvisited-drops visited ev es new at)

-- What is left to do: the queue, and as many events for each that is not visited.
abbrev pub left_over : List AuditEventRow → Walk → ℕ
left_over events s = length s.queue + length events * length (unvisited s.visited events)

mul_drops : (n u v : ℕ) → u < v → n * u + n ≤ n * v
mul_drops zero u v h = grind arith
mul_drops (suc n) u v h = grind (arith, mul_drops n u v h)

walk_parsed-left_over :
    (p : Platform) (events rest : List AuditEventRow) (s : Walk) (ev : AuditEventRow)
    (o : Option Fields)
    → elem ev.event_id s.visited ≡ false
    → IsIn ev events
    → left_over events (walk_parsed p events rest s ev o)
      < suc (length rest) + length events * length (unvisited s.visited events)
walk_parsed-left_over p events rest s ev none new at =
    let drop =
      mul_drops (length events) (length (unvisited (ev.event_id ∷ s.visited) events))
        (length (unvisited s.visited events)) (unvisited-drops s.visited ev events new at) in
    omega (arith, drop)
walk_parsed-left_over p events rest s ev (some body) new at =
    let visited = ev.event_id ∷ s.visited in
    let children = children_of events ev.event_hash in
    let drop =
      mul_drops (length events) (length (unvisited visited events))
        (length (unvisited s.visited events)) (unvisited-drops s.visited ev events new at) in
    let long = length-append rest (unvisited visited children) in
    let few = length-select (λ e. not (elem e.event_id visited)) children in
    let fewer = length-select (λ e. e.previous_hash == ev.event_hash) events in
    omega (arith, drop, long, few, fewer)

abbrev pub Listed : List AuditEventRow → List AuditEventRow → Type 0
Listed events queue = All (λ e. IsIn e events) queue

select-Listed :
    (q : AuditEventRow → Bool) (events es : List AuditEventRow)
    → Listed events es
    → Listed events (select q es)
select-Listed q events [] h = tt
select-Listed q events (e ∷ es) (h, hs) =
    elim (q e) as (λ b. Listed events (if b then e ∷ select q es else select q es)) [
      | true ↦ (h, select-Listed q events es hs)
      | false ↦ select-Listed q events es hs
    ]

walk_parsed-Listed :
    (p : Platform) (events rest : List AuditEventRow) (s : Walk) (ev : AuditEventRow)
    (o : Option Fields)
    → Listed events rest
    → Listed events (walk_parsed p events rest s ev o).queue
walk_parsed-Listed p events rest s ev none h = h
walk_parsed-Listed p events rest s ev (some body) h =
    let visited = ev.event_id ∷ s.visited in
    let children = children_of events ev.event_hash in
    All-append (λ e. IsIn e events) rest (unvisited visited children) h
      (select-Listed (λ e. not (elem e.event_id visited)) events children
        (select-IsIn (λ e. e.previous_hash == ev.event_hash) events))

-- A round keeps the events of the queue among the events, and leaves less to do.
pub walk_event-shrinks :
    (p : Platform) (events rest : List AuditEventRow) (s : Walk) (ev : AuditEventRow)
    → IsIn ev events
    → Listed events rest
    → Listed events (walk_event p events rest s ev).queue
      × (left_over events (walk_event p events rest s ev)
          < suc (length rest) + length events * length (unvisited s.visited events))
walk_event-shrinks p events rest s ev at h = elim (Bool-cases (elem ev.event_id s.visited)) [
  | inl old ↦ rw old (h, omega arith)
  | inr new ↦
      let o = p.json_parse ev.event_json in
      rw new (
        walk_parsed-Listed p events rest s ev o h,
        walk_parsed-left_over p events rest s ev o new at,
      )
]

walk_empty :
    (p : Platform) (events : List AuditEventRow) (fuel : ℕ) (s : Walk)
    → s.queue ≡ []
    → walk p events fuel s ≡ s
unfolding walk
walk_empty p events zero s h = refl
walk_empty p events (suc fuel) s h =
    ap (λ queue. walk p events fuel (walk_queue p events queue s)) h ∙ walk_empty p events fuel s h

-- The walk on more fuel than is left to do ends with the empty queue.
walk_ends :
    (p : Platform) (events : List AuditEventRow) (fuel : ℕ) (s : Walk)
    → Listed events s.queue
    → left_over events s < fuel
    → (walk p events fuel s).queue ≡ []
unfolding walk
walk_ends p events zero s h m = absurd (omega (arith, m))
walk_ends p events (suc fuel) s h m = round (walk_ends p events fuel) s.queue h refl
  where
    round :
        ((t : Walk)
          → Listed events t.queue
          → left_over events t < fuel
          → (walk p events fuel t).queue ≡ [])
        → (queue : List AuditEventRow) → Listed events queue
        → s.queue ≡ queue
        → (walk p events fuel (walk_queue p events queue s)).queue ≡ []
    round ends [] _ e = ap (λ (x : Walk). x.queue) (walk_empty p events fuel s e) ∙ e
    round ends (ev ∷ rest) (at, listed) e =
        let (kept, less) = walk_event-shrinks p events rest s ev at listed in
        let long : length s.queue ≡ suc (length rest) = ap length e in
        ends (walk_event p events rest s ev) kept (omega (arith, less, long, m))

walk-plus :
    (p : Platform) (events : List AuditEventRow) (fuel more : ℕ) (s : Walk)
    → walk p events (fuel + more) s ≡ walk p events more (walk p events fuel s)
unfolding walk
walk-plus p events zero more s =
    let k : 0 + more ≡ more = omega arith in ap (λ n. walk p events n s) k
walk-plus p events (suc fuel) more s =
    let k : suc fuel + more ≡ suc (fuel + more) = omega arith in
    ap (λ n. walk p events n s) k ∙ walk-plus p events fuel more (walk_queue p events s.queue s)

-- The walk of a chain from one of its events ends: with the fuel that the model gives it the queue is
-- empty, and more fuel gives the same result.
pub walk_terminates :
    (p : Platform) (events : List AuditEventRow) (genesis : AuditEventRow) (more : ℕ)
    → IsIn genesis events
    → ((walk p events (enough events) (walk_from genesis)).queue ≡ [])
      × (walk p events (enough events + more) (walk_from genesis)
          ≡ walk p events (enough events) (walk_from genesis))
walk_terminates p events genesis more at =
    let s = walk_from genesis in
    let few = length-select (λ e. not (elem e.event_id [])) events in
    let product = mul-le-mul_left (length events) few in
    let ended = walk_ends p events (enough events) s (at, tt) (omega (arith, product)) in
    (
      ended,
      walk-plus p events (enough events) more s
          ∙ walk_empty p events more (walk p events (enough events) s) ended,
    )
