-- ===== src/Tally/Columns/Laws.antt =====
-- Which header each column of a Tally export is read from.
use challanse.Prelude.{
  ◌≡◌, refl, ap, ◌∙◌, ℕ, ◌+◌, Bool, true, false, ◌&&◌, ◌||◌, not, Option, none, some, List, [], ◌∷◌,
  map, arith, Text, ◌==◌, select, includes, text_eq, text_eq_iff, is_space, trim, to_lower,
  if◌then◌else◌, inl, inr, Bool-cases,
}
use challanse.Tally.Columns.{
  Column, ColumnMap, name_variants, is_alnum, clean_header, assign, assign_all, build_from,
  build_column_map,
}

abbrev pub column : Column → ColumnMap → Option ℕ
column Column.po_number m = m.po_number
column Column.material_code m = m.material_code
column Column.material_description m = m.material_description
column Column.quantity m = m.quantity
column Column.unit m = m.unit
column Column.rate m = m.rate
column Column.amount m = m.amount

-- The position of the first header that is one of the variants, counted from `i`.
abbrev pub first_match : List Text → ℕ → List Text → Option ℕ
first_match variants i [] = none
first_match variants i (h ∷ header) =
    if includes variants (clean_header h) then some i else first_match variants (i + 1) header

column-assign_all :
    (c : Column) (clean : Text) (i : ℕ) (m : ColumnMap)
    → column c (assign_all clean i m) ≡ assign (name_variants c) clean i (column c m)
column-assign_all Column.po_number clean i m = refl
column-assign_all _ clean i m = refl

abbrev or_first : List Text → ℕ → List Text → Option ℕ → Option ℕ
or_first variants i header none = first_match variants i header
or_first variants i header (some j) = some j

assign-or_first :
    (variants : List Text) (h : Text) (i : ℕ) (header : List Text) (o : Option ℕ)
    → or_first variants (i + 1) header (assign variants (clean_header h) i o)
      ≡ or_first variants i (h ∷ header) o
assign-or_first variants h i header none = ground arith
assign-or_first variants h i header (some j) = refl

column-build_from :
    (c : Column) (i : ℕ) (header : List Text) (m : ColumnMap)
    → column c (build_from i header m) ≡ or_first (name_variants c) i header (column c m)
unfolding build_from
column-build_from c i [] m = elim (column c m) as (λ o. o ≡ or_first (name_variants c) i [] o) [
  | none ↦ refl
  | some j ↦ refl
]
column-build_from c i (h ∷ header) m =
    column-build_from c (i + 1) header (assign_all (clean_header h) i m)
    ∙ ap (or_first (name_variants c) (i + 1) header) (column-assign_all c (clean_header h) i m)
    ∙ assign-or_first (name_variants c) h i header (column c m)

column-empty : (c : Column) → column c (build_column_map []) ≡ none
unfolding build_column_map
column-empty Column.po_number = refl
column-empty _ = refl

-- Each column is read from the first header, from the left, whose cleaned text is one of the names of
-- that column, and from none if no header is.
pub column-build_column_map :
    (c : Column) (header : List Text)
    → column c (build_column_map header) ≡ first_match (name_variants c) 0 header
column-build_column_map c header =
    let found : column c (build_column_map header)
        ≡ or_first (name_variants c) 0 header (column c (build_column_map [])) =
      (unfold build_column_map in column-build_from c 0 header (build_column_map [])) in
    found ∙ ap (or_first (name_variants c) 0 header) (column-empty c)

-- Only letters and digits.
abbrev pub all_alnum : Text → Bool
all_alnum [] = true
all_alnum (c ∷ t) = is_alnum c && all_alnum t

kept_alnum : (c : ℕ) → (is_alnum c || (c == b' ')) ≡ true → is_space c ≡ false → is_alnum c ≡ true
unfolding is_space
kept_alnum c h k = ground arith

selects_alnum :
    (t : Text)
    → all_alnum (select (λ c. not (is_space c)) (select (λ c. is_alnum c || (c == b' ')) t)) ≡ true
selects_alnum [] = refl
selects_alnum (c ∷ t) = elim (Bool-cases (is_alnum c || (c == b' '))) [
  | inr dropped ↦ rw dropped (selects_alnum t)
  | inl kept ↦ elim (Bool-cases (is_space c)) [
    | inl space ↦ rw (kept, space) (selects_alnum t)
    | inr solid ↦ rw (kept, solid, kept_alnum c kept solid) (selects_alnum t)
  ]
]

clean_header-all_alnum : (h : Text) → all_alnum (clean_header h) ≡ true
unfolding clean_header
clean_header-all_alnum h = selects_alnum (map to_lower (trim h))

includes-select :
    (variants : List Text) (clean : Text)
    → all_alnum clean ≡ true
    → includes variants clean ≡ includes (select all_alnum variants) clean
includes-select [] clean h = refl
includes-select (v ∷ vs) clean h = elim (Bool-cases (all_alnum v)) [
  | inl plain ↦ rw plain (ap (λ b. text_eq v clean || b) (includes-select vs clean h))
  | inr other ↦ elim (Bool-cases (text_eq v clean)) [
    | inl same ↦ cc (ap all_alnum ((text_eq_iff v clean).0 same))
    | inr differs ↦ rw (other, differs) (includes-select vs clean h)
  ]
]

-- The names of a column that hold a space, an underscore or a dot match no header: cleaning takes
-- these characters out of every header, so only the names of letters and digits are ever found.
pub name_variants_reachable :
    (c : Column) (h : Text)
    → includes (name_variants c) (clean_header h)
      ≡ includes (select all_alnum (name_variants c)) (clean_header h)
name_variants_reachable c h =
    includes-select (name_variants c) (clean_header h) (clean_header-all_alnum h)
