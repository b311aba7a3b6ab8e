-- ===== src/World/Laws.antt =====
-- How an action that returns has run (World/Actions).
use challanse.Prelude.{◌≡◌, refl, arith, Bool, true, false, Option, none, some}
use challanse.World.{World, Outcome, value, stop, Stop, Act, guard, or_stop, continue, ◌>>=◌, ◌>>◌}

module _ {A : Type 0} where
  pub guard_value :
      (b : Bool) (s : Stop) (m : Act A) (w : World) (a : A)
      → ((guard b s >> m) w).0 ≡ value a
      → (b ≡ true) × ((guard b s >> m) w ≡ m w)
  guard_value true s m w a h = (refl, refl)
  guard_value false s m w a h = ground (arith, h)

module _ {A B : Type 0} where
  pub continue_value :
      (r : Outcome A) (f : A → Act B) (w : World) (b : B)
      → (continue r f w).0 ≡ value b
      → (a : A) × (r ≡ value a) × (continue r f w ≡ f a w)
  continue_value (value a) f w b h = (a, refl, refl)
  continue_value (stop s) f w b h = ground (arith, h)

  pub or_stop_value :
      (o : Option A) (s : Stop) (f : A → Act B) (w : World) (b : B)
      → ((or_stop o s >>= f) w).0 ≡ value b
      → (a : A) × (o ≡ some a) × ((or_stop o s >>= f) w ≡ f a w)
  or_stop_value (some a) s f w b h = (a, refl, refl)
  or_stop_value none s f w b h = ground (arith, h)

-- The action stops and writes nothing.
pub record Refused {ℓ} {A : Type ℓ} (w : World) (r : Outcome A × World) : Type ℓ where
  pub reason : Stop
  pub stopped : r ≡ (stop reason, w)

module _ {A : Type 0} where
  pub guard-Refused :
      (b : Bool) (s : Stop) (m : Act A) (w : World)
      → (b ≡ true → Refused w (m w))
      → Refused w ((guard b s >> m) w)
  guard-Refused true s m w h = h refl
  guard-Refused false s m w h = record { reason = s; stopped = refl }

module _ {A B : Type 0} where
  pub or_stop-Refused :
      (o : Option A) (s : Stop) (f : A → Act B) (w : World)
      → ((a : A) → o ≡ some a → Refused w (f a w))
      → Refused w ((or_stop o s >>= f) w)
  or_stop-Refused none s f w h = record { reason = s; stopped = refl }
  or_stop-Refused (some a) s f w h = h a refl
