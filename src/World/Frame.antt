-- ===== src/World/Frame.antt =====
-- Actions that write records of what happened only: the audit chain, the property graph, the
-- identifiers drawn and the clock.
use challanse.Prelude.{Bool, true, false, ◌≡◌, refl, ap, ◌∙◌}
use challanse.World.{
  World, Outcome, value, stop, Stop, Act, Platform, now_iso, draw_uuid, continue, ◌>>=◌, pure,
  guard,
}

abbrev pub LogOnly : World → World → Type 0
LogOnly w v = v ≡ record w {
  chains = v.chains;
  events = v.events;
  forks = v.forks;
  alerts = v.alerts;
  nodes = v.nodes;
  edges = v.edges;
  uuids = v.uuids;
  reads = v.reads;
}

pub LogOnly-trans : (w v u : World) → LogOnly w v → LogOnly v u → LogOnly w u
LogOnly-trans w v u first second =
    second
    ∙ ap
        (λ (x : World). record x {
          chains = u.chains;
          events = u.events;
          forks = u.forks;
          alerts = u.alerts;
          nodes = u.nodes;
          edges = u.edges;
          uuids = u.uuids;
          reads = u.reads;
        })
        first

-- The action has returned, and has written records only.
pub record Logged {ℓ} {A : Type ℓ} (w : World) (r : Outcome A × World) : Type ℓ where
  pub result : A
  pub after : World
  pub returned : r ≡ (value result, after)
  pub only : LogOnly w after

module _ {A B : Type 0} where
  pub bind-Logged :
      (m : Act A) (f : A → Act B) (w : World) (first : Logged w (m w))
      → Logged first.after (f first.result first.after)
      → Logged w ((m >>= f) w)
  bind-Logged m f w first second = record {
    result = second.result;
    after = second.after;
    returned = rw first.returned second.returned;
    only = LogOnly-trans w first.after second.after first.only second.only;
  }

pub pure-Logged : {A : Type 0} (a : A) (w : World) → Logged w (pure a w)
pure-Logged a w = record { result = a; after = w; returned = refl; only = refl }

-- Whatever the action does, return or stop, it has written records only.
pub record Logs {A : Type 0} (m : Act A) : Type 0 where
  pub logs : (w : World) → LogOnly w (m w).1

-- The action leaves what is read off the world.
pub record Keeps {A B : Type 0} (g : World → B) (m : Act A) : Type 0 where
  pub keeps : (w : World) → g (m w).1 ≡ g w

-- What is read off the tables that are no records.
abbrev pub Durable : {B : Type 0} → (World → B) → Type 0
Durable g = (w v : World) → LogOnly w v → g v ≡ g w

pub Logs-Keeps : {A B : Type 0} (g : World → B) (m : Act A) → Durable g → Logs m → Keeps g m
Logs-Keeps g m durable l = record { keeps = λ w. durable w (m w).1 (l.logs w) }

module _ {A B : Type 0} where
  pub bind-Logs : {m : Act A} {f : A → Act B} → Logs m → ((a : A) → Logs (f a)) → Logs (m >>= f)
  bind-Logs {m = m} {f = f} first next = record {
    logs = λ w. elim (m w).0 as (λ r. LogOnly w (continue r f (m w).1).1) [
      | value a ↦ LogOnly-trans w (m w).1 (f a (m w).1).1 (first.logs w) ((next a).logs (m w).1)
      | stop s ↦ first.logs w
    ];
  }

  pub bind-Keeps :
      {C : Type 0} (g : World → C) {m : Act A} {f : A → Act B}
      → Keeps g m
      → ((a : A) → Keeps g (f a))
      → Keeps g (m >>= f)
  bind-Keeps g {m = m} {f = f} first next = record {
    keeps = λ w. elim (m w).0 as (λ r. g (continue r f (m w).1).1 ≡ g w) [
      | value a ↦ (next a).keeps (m w).1 ∙ first.keeps w
      | stop s ↦ first.keeps w
    ];
  }

pub guard-Logs : (b : Bool) (s : Stop) → Logs (guard b s)
guard-Logs true s = record { logs = λ w. refl }
guard-Logs false s = record { logs = λ w. refl }

pub pure-Logs : {A : Type 0} (a : A) → Logs (pure a)
pure-Logs a = record { logs = λ w. refl }

pub now_iso-Logs : (p : Platform) → Logs (now_iso p)
now_iso-Logs p = record { logs = λ w. refl }

pub draw_uuid-Logs : (p : Platform) → Logs (draw_uuid p)
draw_uuid-Logs p = record { logs = λ w. refl }
