-- ===== src/Tally/Import.antt =====
-- apps/edge/src/tally.ts, `parseTallyCsv`: a CSV export into purchase order rows and error messages.
-- A message is the data that its text shows.
pub mod Laws
pub mod Lines
use challanse.Prelude.{
  ℕ, ◌+◌, ◌*◌, Bool, true, false, not, ◌&&◌, ◌||◌, Option, none, some, List, [], ◌∷◌, ◌++◌, map,
  Text, codes, ltb, ◌==◌, length, select, get_elem?, trim, if◌then◌else◌,
}
use challanse.Tally.Csv.{parse_csv_line}
use challanse.Tally.Units.{normalize_unit}
use challanse.Tally.Columns.{ColumnMap, build_column_map}
use challanse.Tally.Floats.{Floats, or_zero}

pub data ImportError : Type 0 where
  -- CSV must have a header row and at least one data row
  too_few_lines : ImportError
  -- CSV missing required columns; the header that was found
  missing_columns : List Text → ImportError
  -- Row i: insufficient fields
  insufficient_fields : (row count : ℕ) → ImportError
  -- Row i: empty PoNumber or MaterialCode
  empty_key : (row : ℕ) → ImportError
  -- Row i: invalid quantity
  invalid_quantity : (row : ℕ) → Text → ImportError
  -- Row i: parse error, which is what an exception becomes
  parse_error : (row : ℕ) → ImportError

abbrev pub is_empty : Text → Bool
is_empty [] = true
is_empty (_ ∷ _) = false

-- `content.replace(/^\uFEFF/, '')`
abbrev pub drop_bom : Text → Text
drop_bom [] = []
drop_bom (c ∷ t) = if c == 0xfeff then t else c ∷ t

-- `.replace(/\r\n/g, '\n')`
unfoldable pub join_crlf : Text → Text
join_crlf [] = []
join_crlf (c ∷ []) = c ∷ []
join_crlf (c ∷ d ∷ t) =
    let joined = join_crlf t in
    let kept = join_crlf (d ∷ t) in if (c == 13) && (d == 10) then 10 ∷ joined else c ∷ kept

-- `.replace(/\r/g, '\n')`
abbrev pub cr_to_lf : ℕ → ℕ
cr_to_lf c = if c == 13 then 10 else c

-- `text.split('\n')`
abbrev pub cons_line : ℕ → List Text → List Text
cons_line c [] = (c ∷ []) ∷ []
cons_line c (l ∷ ls) = (c ∷ l) ∷ ls

unfoldable pub split_lines : Text → List Text
split_lines [] = [] ∷ []
split_lines (c ∷ t) = let rest = split_lines t in if c == 10 then [] ∷ rest else cons_line c rest

unfoldable pub content_lines : Text → List Text
unfolding join_crlf split_lines trim
content_lines content =
    select (λ line. not (is_empty (trim line)))
      (split_lines (map cr_to_lf (join_crlf (drop_bom content))))

-- `.replace(/[,"]/g, '')`
abbrev pub drop_separators : Text → Text
drop_separators t = select (λ c. not ((c == b',') || (c == b'"'))) t

abbrev pub max : ℕ → ℕ → ℕ
max a b = if ltb a b then b else a

module _ (f : Floats) where
  open f use {Number, zero, parse_float, is_finite, at_most_zero}

  pub record PurchaseOrderRow : Type 0 where
    pub po_number : Text
    pub material_code : Text
    pub material_description : Text
    pub quantity : Number
    pub unit : Text
    pub rate : Number
    pub amount : Number

  pub record ParseResult : Type 0 where
    pub rows : List PurchaseOrderRow
    pub errors : List ImportError
    pub total_rows : ℕ

  -- What one data line adds: a row or a message.
  pub data LineResult : Type 0 where
    row : PurchaseOrderRow → LineResult
    bad : ImportError → LineResult

  -- An optional column: its default without the column; `none` is the exception that reading a field
  -- past the end of the line throws.
  abbrev pub optional_field {ℓ} : {A : Type ℓ} → List Text → Option ℕ → A → (Text → A) → Option A
  optional_field fields none default read = some default
  optional_field fields (some i) default read = elim (get_elem? fields i) [
    | none ↦ none
    | some t ↦ some (read t)
  ]

  abbrev pub numeric : Text → Number
  numeric t = or_zero f (parse_float (drop_separators t))

  -- The last part of the body of the loop: the optional columns, then `rows.push`.
  abbrev pub complete_row :
      ℕ
      → Text
      → Text
      → Number
      → Option Text
      → Option Text
      → Option Number
      → Option Number
      → LineResult
  complete_row n po code q (some description) (some unit) (some rate) (some amount) = row (record {
    po_number = po;
    material_code = code;
    material_description = description;
    quantity = q;
    unit = unit;
    rate = rate;
    amount = amount;
  })
  complete_row n po code q _ _ _ _ = bad (parse_error n)

  -- The body of the loop once the fields of the required columns are there.
  unfoldable pub parse_fields : ColumnMap → ℕ → List Text → Text → Text → Text → LineResult
  unfolding normalize_unit trim
  parse_fields columns n fields po_field code_field quantity_field =
      let po = trim po_field in
      let code = trim code_field in
      let q = parse_float (drop_separators quantity_field) in
      if is_empty po || is_empty code
      then bad (empty_key n)
      else if not (is_finite q) || at_most_zero q
      then bad (invalid_quantity n quantity_field)
      else complete_row n po code q (optional_field fields columns.material_description [] trim)
          (optional_field fields columns.unit (codes "NOS") normalize_unit)
          (optional_field fields columns.rate zero numeric)
          (optional_field fields columns.amount zero numeric)

  -- The body of the loop, at the columns that were found; the row number is `i + 1`.
  unfoldable pub parse_row : ColumnMap → (po code quantity : ℕ) → ℕ → Text → LineResult
  unfolding parse_fields parse_csv_line
  parse_row columns po code quantity n line =
      let fields = parse_csv_line line in
      if ltb (length fields) (max (max po code) quantity + 1)
      then bad (insufficient_fields n (length fields))
      else elim (get_elem? fields po) [
        | none ↦ bad (parse_error n)
        | some p ↦ elim (get_elem? fields code) [
          | none ↦ bad (parse_error n)
          | some c ↦ elim (get_elem? fields quantity) [
            | none ↦ bad (parse_error n)
            | some q ↦ parse_fields columns n fields p c q
          ]
        ]
      ]

  abbrev pub push_result : LineResult → ParseResult → ParseResult
  push_result (row r) result = record result { rows = result.rows ++ (r ∷ []) }
  push_result (bad e) result = record result { errors = result.errors ++ (e ∷ []) }

  -- The loop over the data lines; `n` is the number of the next row.
  unfoldable pub parse_rows :
      ColumnMap → (po code quantity : ℕ) → ℕ → List Text → ParseResult → ParseResult
  unfolding parse_row
  parse_rows columns po code quantity n [] result = result
  parse_rows columns po code quantity n (line ∷ lines) result =
      parse_rows columns po code quantity (n + 1) lines
        (push_result (parse_row columns po code quantity n line) result)

  abbrev pub failed : ImportError → ParseResult
  failed e = record { rows = []; errors = e ∷ []; total_rows = 0 }

  abbrev pub with_total : ParseResult → ParseResult
  with_total result = record result { total_rows = length result.rows }

  abbrev pub parse_data :
      List Text → ColumnMap → Option ℕ → Option ℕ → Option ℕ → List Text → ParseResult
  parse_data header columns (some po) (some code) (some quantity) lines = with_total (
      parse_rows columns po code quantity 2 lines
        (record { rows = []; errors = []; total_rows = 0 }))
  parse_data header columns _ _ _ lines = failed (missing_columns header)

  abbrev pub parse_lines : List Text → ParseResult
  parse_lines [] = failed too_few_lines
  parse_lines (_ ∷ []) = failed too_few_lines
  parse_lines (first ∷ second ∷ lines) =
      let header = parse_csv_line first in
      let columns = build_column_map header in
      parse_data header columns columns.po_number columns.material_code columns.quantity
        (second ∷ lines)

  unfoldable pub parse_tally_csv : Text → ParseResult
  unfolding content_lines parse_rows build_column_map
  parse_tally_csv content = parse_lines (content_lines content)
