-- ===== src/Tally/Floats.antt =====
-- The floating-point numbers that apps/edge/src/tally.ts computes with: a parameter, since the
-- language has none. Only `parseFloat`, `+`, `>` and the tests of the source are used.
use challanse.Prelude.{Bool, Text, if◌then◌else◌}

pub record Floats : Type 1 where
  pub Number : Type 0
  pub zero : Number
  -- `parseFloat`
  pub parse_float : Text → Number
  -- `Number.isFinite`
  pub is_finite : Number → Bool
  -- `x <= 0`
  pub at_most_zero : Number → Bool
  -- whether `x` counts as true: neither a zero nor NaN
  pub truthy : Number → Bool
  pub add : Number → Number → Number
  -- `x > y`
  pub exceeds : Number → Number → Bool

-- `x || 0`
abbrev pub or_zero : (f : Floats) → f.Number → f.Number
or_zero f x = if f.truthy x then x else f.zero
