-- ===== src/Prelude/Strings.antt =====
-- The string operations of the program on native strings: `startsWith`, `slice`, `trim`, `length`,
-- `String(n)` and `padStart`. A string here is a sequence of characters of the basic plane.
use Prim.Native.Nat.{ℕ, zero, suc, ◌/◌, ◌%◌, ◌-◌}
use Prim.Native.Char.{code}
use Prim.Native.String.{String, ◌++◌}
use mathlib.Core.Path.{◌≡◌, refl, ap, ◌∙◌}
use mathlib.Core.Bool.{Bool, true, false, not, ◌&&◌}
use native.Mathlib.Omega.{arith}
use mathlib.Core.Option.{none, some}
use mathlib.Core.List.{List, [], ◌∷◌}
use challanse.Prelude.Tests.{nat_eq, ltb, leb}
use challanse.Prelude.Lists.{get_elem?}
use challanse.Prelude.Texts.{is_space}
use challanse.Prelude.Tests.{if◌then◌else◌}

abbrev pub starts_with : String → String → Bool
starts_with String.[] s = true
starts_with (String.◌∷◌ c p) String.[] = false
starts_with (String.◌∷◌ c p) (String.◌∷◌ d s) = nat_eq (code c) (code d) && starts_with p s

-- `s.slice(n)`
abbrev pub drop : ℕ → String → String
drop zero s = s
drop (suc n) String.[] = ""
drop (suc n) (String.◌∷◌ c s) = drop n s

-- `s.slice(0, n)`
abbrev pub take_string : ℕ → String → String
take_string zero s = ""
take_string (suc n) String.[] = ""
take_string (suc n) (String.◌∷◌ c s) = String.◌∷◌ c (take_string n s)

abbrev pub string_length : String → ℕ
string_length String.[] = 0
string_length (String.◌∷◌ c s) = suc (string_length s)

abbrev trim_left : String → String
trim_left String.[] = ""
trim_left (String.◌∷◌ c s) = if is_space (code c) then trim_left s else String.◌∷◌ c s

abbrev trim_right : String → String
trim_right String.[] = ""
trim_right (String.◌∷◌ c s) = elim (trim_right s) [
  | String.[] ↦ (if is_space (code c) then "" else String.◌∷◌ c "")
  | String.◌∷◌ d t ↦ String.◌∷◌ c (String.◌∷◌ d t)
]

unfoldable pub trim_string : String → String
unfolding is_space
trim_string s = trim_right (trim_left s)

-- No character is white space: `trim` leaves such a text as it is.
abbrev pub no_space : String → Bool
no_space String.[] = true
no_space (String.◌∷◌ c s) = not (is_space (code c)) && no_space s

trim_left-no_space : (s : String) → no_space s ≡ true → trim_left s ≡ s
trim_left-no_space String.[] h = refl
trim_left-no_space (String.◌∷◌ c s) h = ground (arith, h)

trim_right-no_space : (s : String) → no_space s ≡ true → trim_right s ≡ s
trim_right-no_space String.[] h = refl
trim_right-no_space (String.◌∷◌ c String.[]) h = ground (arith, h)
trim_right-no_space (String.◌∷◌ c (String.◌∷◌ d s)) h =
    rw (trim_right-no_space (String.◌∷◌ d s) (ground (arith, h))) refl

pub trim_string-no_space : (s : String) → no_space s ≡ true → trim_string s ≡ s
unfolding trim_string
trim_string-no_space s h = ap trim_right (trim_left-no_space s h) ∙ trim_right-no_space s h

abbrev digits : List String
digits = "0" ∷ "1" ∷ "2" ∷ "3" ∷ "4" ∷ "5" ∷ "6" ∷ "7" ∷ "8" ∷ "9" ∷ []

abbrev digit : ℕ → String
digit n = elim (get_elem? digits n) [ none ↦ "" | some d ↦ d ]

abbrev print_digits : ℕ → ℕ → String
print_digits zero n = ""
print_digits (suc fuel) n = elim (ltb n 10) [
  | true ↦ digit n
  | false ↦ print_digits fuel (n / 10) ++ digit (n % 10)
]

-- `String(n)`: a whole number below 10 ^ 21 prints as its digits.
unfoldable pub print_number : ℕ → String
print_number n = print_digits 21 n

abbrev repeat : ℕ → String → String
repeat zero s = ""
repeat (suc n) s = s ++ repeat n s

-- `s.padStart(n, '0')`
unfoldable pub pad_start : ℕ → String → String
pad_start n s = repeat (n - string_length s) "0" ++ s

abbrev upper_letters : List String
upper_letters =
    "A" ∷ "B" ∷ "C" ∷ "D" ∷ "E" ∷ "F" ∷ "G" ∷ "H" ∷ "I" ∷ "J" ∷ "K" ∷ "L" ∷ "M" ∷ "N" ∷ "O" ∷ "P"
    ∷ "Q" ∷ "R" ∷ "S" ∷ "T" ∷ "U" ∷ "V" ∷ "W" ∷ "X" ∷ "Y" ∷ "Z" ∷ []

-- `s.toUpperCase()`, on the letters of ASCII.
abbrev upper_from : String → String
upper_from String.[] = ""
upper_from (String.◌∷◌ c s) =
    let rest = upper_from s in
    elim (leb 97 (code c)) [
      | true ↦ elim (get_elem? upper_letters (code c - 97)) [
        | none ↦ String.◌∷◌ c rest
        | some u ↦ u ++ rest
      ]
      | false ↦ String.◌∷◌ c rest
    ]

unfoldable pub upper_string : String → String
upper_string s = upper_from s

abbrev hex_digits : List String
hex_digits =
    "0" ∷ "1" ∷ "2" ∷ "3" ∷ "4" ∷ "5" ∷ "6" ∷ "7" ∷ "8" ∷ "9" ∷ "a" ∷ "b" ∷ "c" ∷ "d" ∷ "e" ∷ "f"
    ∷ []

abbrev pub hex_digit : ℕ → String
hex_digit n = elim (get_elem? hex_digits n) [ none ↦ "" | some d ↦ d ]

-- `n.toString(16)`, for a byte.
unfoldable pub print_hex : ℕ → String
print_hex n = if ltb n 16 then hex_digit n else hex_digit (n / 16) ++ hex_digit (n % 16)
