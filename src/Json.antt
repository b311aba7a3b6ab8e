-- ===== src/Json.antt =====
-- JSON values, and `JSON.stringify` with and without an allow-list of keys, as the audit chain uses
-- it (apps/edge/src/audit-chain.ts). A number is the text that it prints as. The keys of an object are
-- distinct and no array indices, so they are printed in the order of insertion.
pub mod Laws
pub mod Order
pub mod Texts
use Prim.Native.Nat.{ℕ, ◌-◌}
use Prim.Native.Char.{Char, code}
use Prim.Native.String
use Prim.Native.String.{String, ◌++◌}
use mathlib.Core.Bool.{Bool, true, false, ◌&&◌}
use mathlib.Core.Option.{Option, none, some}
use mathlib.Core.List.{List, [], ◌∷◌}
use text.Mathlib.Text.{◌==◌}
use challanse.Prelude.{hex_digit, ltb, nat_eq, if◌then◌else◌, sort}

mutual
  pub data Json : Type 0 where
    undefined null : Json
    bool : Bool → Json
    num : String → Json
    str : String → Json
    arr : Items → Json
    obj : Fields → Json

  pub data Items : Type 0 where
    nil : Items
    cons : Json → Items → Items

  pub data Fields : Type 0 where
    end : Fields
    field : String → Json → Fields → Fields

-- `Object.keys`
abbrev pub field_names : Fields → List String
field_names end = []
field_names (field k v fs) = k ∷ field_names fs

-- One character of a quoted text.
abbrev pub quote_char : Char → String
quote_char c =
    if nat_eq (code c) b'"'
    then "\\\""
    else if nat_eq (code c) 92
    then "\\\\"
    else if nat_eq (code c) 8
    then "\\b"
    else if nat_eq (code c) 9
    then "\\t"
    else if nat_eq (code c) 10
    then "\\n"
    else if nat_eq (code c) 12
    then "\\f"
    else if nat_eq (code c) 13
    then "\\r"
    else if ltb (code c) 16
    then "\\u000" ++ hex_digit (code c)
    else if ltb (code c) 32
    then "\\u001" ++ hex_digit (code c - 16)
    else String.◌∷◌ c ""

abbrev pub quote_chars : String → String
quote_chars String.[] = ""
quote_chars (String.◌∷◌ c s) = quote_char c ++ quote_chars s

-- A text as JSON writes it.
unfoldable pub quote : String → String
quote s = "\"" ++ (quote_chars s ++ "\"")

abbrev pub join : List String → String
join [] = ""
join (s ∷ []) = s
join (s ∷ t ∷ rest) = s ++ ("," ++ join (t ∷ rest))

abbrev pub lookup_member : String → List (String × String) → Option String
lookup_member k [] = none
lookup_member k ((j, v) ∷ rest) = if j == k then some v else lookup_member k rest

abbrev pub cons_member : String → Option String → List String → List String
cons_member k none rest = rest
cons_member k (some v) rest = (quote k ++ (":" ++ v)) ∷ rest

-- The members of an object, by an allow-list in its order or all of them in theirs.
abbrev pub listed_members : List String → List (String × String) → List String
listed_members [] printed = []
listed_members (k ∷ ks) printed =
    cons_member k (lookup_member k printed) (listed_members ks printed)

abbrev pub all_members : List (String × String) → List String
all_members [] = []
all_members ((k, v) ∷ rest) = (quote k ++ (":" ++ v)) ∷ all_members rest

-- The second argument of `JSON.stringify`: an array of keys, which holds at every depth.
abbrev pub Replacer : Type 0
Replacer = Option (List String)

abbrev pub print_members : Replacer → List (String × String) → String
print_members none printed = "{" ++ (join (all_members printed) ++ "}")
print_members (some ks) printed = "{" ++ (join (listed_members ks printed) ++ "}")

abbrev pub or_null : Option String → String
or_null none = "null"
or_null (some s) = s

abbrev pub cons_printed : String → Option String → List (String × String) → List (String × String)
cons_printed k none rest = rest
cons_printed k (some v) rest = (k, v) ∷ rest

unfoldable mutual
  -- `JSON.stringify(value, replacer)`; `none` is `undefined`.
  pub print : Replacer → Json → Option String
  print r undefined = none
  print r null = some "null"
  print r (bool true) = some "true"
  print r (bool false) = some "false"
  print r (num n) = some n
  print r (str s) = some (quote s)
  print r (arr xs) = some ("[" ++ (join (print_items r xs) ++ "]"))
  print r (obj fs) = some (print_members r (print_fields r fs))

  pub print_items : Replacer → Items → List String
  print_items r nil = []
  print_items r (cons x xs) = or_null (print r x) ∷ print_items r xs

  -- The members that are not `undefined`, printed.
  pub print_fields : Replacer → Fields → List (String × String)
  print_fields r end = []
  print_fields r (field k v fs) = cons_printed k (print r v) (print_fields r fs)

-- `JSON.stringify` of an object.
unfoldable pub stringify : Fields → String
unfolding print_fields
stringify fs = print_members none (print_fields none fs)

-- The order of JavaScript's `sort` on texts, by the values of their characters.
abbrev pub text_le : String → String → Bool
text_le String.[] t = true
text_le (String.◌∷◌ c s) String.[] = false
text_le (String.◌∷◌ c s) (String.◌∷◌ d t) =
    if ltb (code c) (code d) then true else nat_eq (code c) (code d) && text_le s t

-- `JSON.stringify(value, keys)` of an object, `keys` its own keys sorted.
unfoldable pub stringify_sorted : Fields → String
unfolding print_fields
stringify_sorted fs =
    let keys = sort text_le (field_names fs) in
    print_members (some keys) (print_fields (some keys) fs)
