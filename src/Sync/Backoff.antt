-- ===== src/Sync/Backoff.antt =====
-- apps/mobile/src/sync/receiptBackgroundSync.ts: the pause between two attempts of an upload.
use native.Mathlib.Numerals.{unary_clauses}
use challanse.Prelude.{◌≡◌, ℕ, zero, suc, ◌+◌, ◌^◌, ◌≤◌, arith}
use challanse.Sync.{backoff}

power-pos : (n : ℕ) → 1 ≤ 2 ^ n
power-pos zero = omega arith
power-pos (suc n) = simp unary_clauses (omega (arith, power-pos n))

power-suc : (n : ℕ) → 2 ^ (n + 1) ≡ 2 ^ n + 2 ^ n
power-suc n = simp unary_clauses (omega arith)

-- The pause is between 5 seconds and 15 minutes, and a further attempt never makes it shorter.
pub backoff_bounded :
    (n : ℕ) → (5000 ≤ backoff n) × (backoff n ≤ 900000) × (backoff n ≤ backoff (n + 1))
unfolding backoff
backoff_bounded n = (omega (arith, power-pos n), omega arith, omega (arith, power-suc n))
