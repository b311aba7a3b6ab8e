-- ===== src/Tally/Units.antt =====
-- apps/edge/src/tally.ts, `normalizeUnit`: units of measure in one spelling.
pub mod Laws
use challanse.Prelude.{
  Option, none, some, List, [], ◌∷◌, map, Text, String, codes, text_eq, trim, to_upper, strip_last,
  if◌then◌else◌,
}

abbrev entry : String → String → Text × Text
entry name unit = (codes name, codes unit)

-- The object literal `unitMap`.
abbrev pub unit_map : List (Text × Text)
unit_map =
    entry "NOS" "NOS"
    ∷ entry "NO" "NOS"
    ∷ entry "NUM" "NOS"
    ∷ entry "KG" "KG"
    ∷ entry "KGS" "KG"
    ∷ entry "KILO" "KG"
    ∷ entry "KILOGRAM" "KG"
    ∷ entry "TON" "TONNE"
    ∷ entry "TONNE" "TONNE"
    ∷ entry "TONNES" "TONNE"
    ∷ entry "LTR" "LITRE"
    ∷ entry "LITRE" "LITRE"
    ∷ entry "LITRES" "LITRE"
    ∷ entry "M" "METRE"
    ∷ entry "MTR" "METRE"
    ∷ entry "METRE" "METRE"
    ∷ entry "METRES" "METRE"
    ∷ entry "SQFT" "SQFT"
    ∷ entry "SQ.M" "SQM"
    ∷ entry "SQM" "SQM"
    ∷ entry "BAG" "BAG"
    ∷ entry "BAGS" "BAG"
    ∷ entry "PCS" "PCS"
    ∷ entry "PC" "PCS"
    ∷ entry "PIECE" "PCS"
    ∷ entry "PIECES" "PCS"
    ∷ []

abbrev pub find_unit : Text → List (Text × Text) → Option Text
find_unit name [] = none
find_unit name ((n, u) ∷ rest) = if text_eq n name then some u else find_unit name rest

-- The chain of `trim`, `toUpperCase` and the two replacements.
unfoldable pub cleaned : Text → Text
unfolding trim to_upper strip_last
cleaned value = strip_last b'S' (strip_last b'.' (map to_upper (trim value)))

abbrev pub or_cleaned : Option Text → Text → Text
or_cleaned none t = t
or_cleaned (some u) t = u

unfoldable pub normalize_unit : Text → Text
unfolding cleaned
normalize_unit value = or_cleaned (find_unit (cleaned value) unit_map) (cleaned value)
