-- ===== src/Devices/Token.antt =====
-- apps/edge/src/handlers/devices.ts: the token of a new device passes the checks of
-- apps/edge/src/auth.ts.
use Prim.Native.String.{String, ◌++◌}
use text.Mathlib.TextLemmas.{nil-append, cons-append}
use challanse.Prelude.{
  ◌≡◌, refl, ap, ◌∙◌, ℕ, zero, suc, ◌+◌, ◌*◌, ◌<◌, arith, Bool, true, ◌&&◌, List, [], ◌∷◌, length,
  nat_eq, string_length, is_space, no_space, trim_string, trim_string-no_space, pad_start,
  print_hex, All, Bool-cases, inl, inr, starts_with, drop,
}
use challanse.World.{Platform}
use challanse.Devices.{hex}

abbrev all_below : ℕ → (ℕ → Bool) → Bool
all_below zero q = true
all_below (suc n) q = q n && all_below n q

all_below-holds : (n : ℕ) (q : ℕ → Bool) → all_below n q ≡ true → (k : ℕ) → k < n → q k ≡ true
all_below-holds zero q h k below = absurd (omega (arith, below))
all_below-holds (suc n) q h k below = elim (Bool-cases (nat_eq k n)) [
  | inl e ↦ let same : k ≡ n = ground (arith, e) in rw same (ground (arith, h))
  | inr e ↦ all_below-holds n q (ground (arith, h)) k (ground (arith, below, e))
]

-- A byte prints as two characters, neither of them white space.
abbrev prints_well : ℕ → Bool
prints_well b =
    nat_eq (string_length (pad_start 2 (print_hex b))) 2 && no_space (pad_start 2 (print_hex b))

bytes_print_well : all_below 256 prints_well ≡ true
unfolding pad_start print_hex is_space
bytes_print_well = refl

no_space-append : (s t : String) → no_space s ≡ true → no_space t ≡ true → no_space (s ++ t) ≡ true
no_space-append String.[] t h k = ap no_space (nil-append t) ∙ k
no_space-append (String.◌∷◌ c s) t h k =
    ap no_space (cons-append c s t) ∙ ground (arith, h, no_space-append s t (ground (arith, h)) k)

string_length-append : (s t : String) → string_length (s ++ t) ≡ string_length s + string_length t
string_length-append String.[] t = ap string_length (nil-append t) ∙ omega arith
string_length-append (String.◌∷◌ c s) t =
    ap string_length (cons-append c s t) ∙ omega (arith, string_length-append s t)

-- What the platform promises of random bytes.
pub record GivesBytes (p : Platform) : Type 0 where
  pub count : (n k : ℕ) → length (p.random_bytes n k) ≡ k
  pub small : (n k : ℕ) → All (λ b. b < 256) (p.random_bytes n k)

hex_lem :
    (bytes : List ℕ)
    → All (λ b. b < 256) bytes
    → (no_space (hex bytes) ≡ true) × (string_length (hex bytes) ≡ 2 * length bytes)
unfolding hex
hex_lem [] h = (refl, refl)
hex_lem (b ∷ bytes) (h, hs) =
    let (blank, long) = hex_lem bytes hs in
    let well = all_below-holds 256 prints_well bytes_print_well b h in
    let digits = pad_start 2 (print_hex b) in
    (
      no_space-append digits (hex bytes) (ground (arith, well)) blank,
      string_length-append digits (hex bytes) ∙ ground (arith, well, long),
    )

starts_with-append : (s t : String) → starts_with s (s ++ t) ≡ true
starts_with-append String.[] t = refl
starts_with-append (String.◌∷◌ c s) t =
    ap (starts_with (String.◌∷◌ c s)) (cons-append c s t) ∙ ground (arith, starts_with-append s t)

drop-append : (s t : String) → drop (string_length s) (s ++ t) ≡ t
drop-append String.[] t = nil-append t
drop-append (String.◌∷◌ c s) t =
    ap (drop (suc (string_length s))) (cons-append c s t) ∙ drop-append s t

-- The token of a new device, in a header `Bearer `, is read back, and it has 64 characters.
pub token_lem :
    (p : Platform)
    → GivesBytes p
    → (n : ℕ)
    → let token = hex (p.random_bytes n 32) in
      (starts_with "Bearer " ("Bearer " ++ token) ≡ true)
      × (trim_string (drop 7 ("Bearer " ++ token)) ≡ token)
      × (string_length token ≡ 64)
token_lem p gives n =
    let token = hex (p.random_bytes n 32) in
    let (blank, long) = hex_lem (p.random_bytes n 32) (gives.small n 32) in
    (
      starts_with-append "Bearer " token,
      ap trim_string (drop-append "Bearer " token) ∙ trim_string-no_space token blank,
      omega (arith, long, gives.count n 32),
    )
