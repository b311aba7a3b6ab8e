-- ===== src/Tests/Tally.antt =====
-- The import of a small Tally export, and the theorems on it.
use challanse.Prelude.{
  ◌≡◌, ◌≢◌, not, ◌&&◌, ◌||◌, ◌==◌, false, refl, ◌+◌, to_lower, Bool, true, some, List, [], ◌∷◌,
  ◌++◌, map, arith, All, Text, codes, length, includes, select, to_upper, trim, is_space,
  strip_last,
}
use challanse.Tally.Csv.{csv_loop, parse_csv_line}
use challanse.Tally.Csv.RoundTrip.{Field, bare, quoted, print_line, parse_csv_line-print_line}
use challanse.Tally.Units.{normalize_unit, cleaned}
use challanse.Tally.Units.Laws.{normalize_unit_double_s}
use challanse.Tally.Columns.{build_from, quantity, name_variants, clean_header, build_column_map}
use challanse.Tally.Columns.Laws.{
  column, first_match, all_alnum, column-build_column_map, name_variants_reachable,
}
use challanse.Tally.Import.{parse_tally_csv, PurchaseOrderRow}
use challanse.Tally.Import.Laws.{IsImportable, parse_tally_csv-rows}
use challanse.Tally.Import.Lines.{
  IsOneLine, write_lines, with_bom, texts, filled, parse_tally_csv_accounts,
}
use challanse.Tally.Deltas.{join_key, SiteReceipt, calculate_reconciliation_deltas}
use challanse.Tally.Deltas.Laws.{
  row_key, IsDelta, IsPlainOrder, IsPlainReceipt, calculate_reconciliation_deltas-IsDelta,
  calculate_reconciliation_deltas_once,
}
use challanse.Tally.Deltas.Groups.{occurrences}
use challanse.Tests.Data.{whole_numbers}

abbrev said : Field
said = quoted (codes "a,\"b\"")

parse_csv_line-print_line_example :
    parse_csv_line (print_line said (bare (codes "7") ∷ [])) ≡ codes "a,\"b\"" ∷ codes "7" ∷ []
parse_csv_line-print_line_example =
    parse_csv_line-print_line said (bare (codes "7") ∷ []) tt
      (((λ e. omega (arith, e), λ e. omega (arith, e)), tt), tt)

normalize_unit_double_s_example :
    (normalize_unit ((codes "GLA" ++ (b'S' ∷ [])) ++ (b'S' ∷ [])) ≡ codes "GLA" ++ (b'S' ∷ []))
    × (normalize_unit (normalize_unit ((codes "GLA" ++ (b'S' ∷ [])) ++ (b'S' ∷ []))) ≡ codes "GLA")
normalize_unit_double_s_example =
    normalize_unit_double_s (codes "GLA")
      ((omega arith, omega arith), ((omega arith, omega arith), ((omega arith, omega arith), tt)))
      refl refl

abbrev header : List Text
header = codes "PONumber" ∷ codes "Item" ∷ codes "Qty" ∷ codes "Unit" ∷ []

column-build_column_map_example :
    column quantity (build_column_map header) ≡ first_match (name_variants quantity) 0 header
column-build_column_map_example = column-build_column_map quantity header

name_variants_reachable_example :
    includes (name_variants quantity) (clean_header (codes "Qty."))
    ≡ includes (select all_alnum (name_variants quantity)) (clean_header (codes "Qty."))
name_variants_reachable_example = name_variants_reachable quantity (codes "Qty.")

abbrev export_text : Text
export_text = codes "PONumber,MaterialCode,Qty,Unit\nP1,M1,5,Bags\nP2,,3,kg\n"

parse_tally_csv-rows_example :
    All (IsImportable whole_numbers) (parse_tally_csv whole_numbers export_text).rows
parse_tally_csv-rows_example = parse_tally_csv-rows whole_numbers export_text

abbrev export_header : Text
export_header = codes "PONumber,MaterialCode,Qty,Unit"

-- The columns of the header.
export_columns :
    ((build_column_map (parse_csv_line export_header)).po_number ≡ some 0)
    × ((build_column_map (parse_csv_line export_header)).material_code ≡ some 1)
    × ((build_column_map (parse_csv_line export_header)).quantity ≡ some 2)
unfolding build_column_map build_from clean_header parse_csv_line csv_loop trim is_space to_lower
export_columns = (refl, refl, refl)

abbrev breaks_no_line : Text → Bool
breaks_no_line [] = true
breaks_no_line (c ∷ t) = not ((c == 10) || ((c == 13) || (c == 0xfeff))) && breaks_no_line t

breaks_no_line-IsOneLine : (t : Text) → breaks_no_line t ≡ true → IsOneLine t
breaks_no_line-IsOneLine [] h = tt
breaks_no_line-IsOneLine (c ∷ t) h = (
  (λ e. ground (arith, h, e), λ e. ground (arith, h, e), λ e. ground (arith, h, e)),
  breaks_no_line-IsOneLine t (ground (arith, h)),
)

-- A row, a blank line and a row without a code, after a byte order mark; the last line has no end.
abbrev data_lines : List (Text × Bool)
data_lines = (codes "P1,M1,5,Bags", true) ∷ (codes " ", false) ∷ []

abbrev last_line : Text
last_line = codes "P2,,3,kg"

header_filled : trim export_header ≢ []
unfolding trim is_space
header_filled e = cc

two_filled : filled (texts data_lines last_line) ≡ 2
unfolding trim is_space
two_filled = refl

parse_tally_csv_accounts_example :
    let result =
      parse_tally_csv whole_numbers
        (with_bom true (write_lines ((export_header, true) ∷ data_lines) last_line)) in
    (length result.rows + length result.errors ≡ filled (texts data_lines last_line))
    × (result.total_rows ≡ length result.rows)
parse_tally_csv_accounts_example =
    parse_tally_csv_accounts whole_numbers true true export_header data_lines last_line 0 1 2
      (
        breaks_no_line-IsOneLine export_header refl,
        (
          breaks_no_line-IsOneLine (codes "P1,M1,5,Bags") refl,
          (
            breaks_no_line-IsOneLine (codes " ") refl,
            (breaks_no_line-IsOneLine (codes "P2,,3,kg") refl, tt),
          ),
        ),
      )
      header_filled (omega (arith, two_filled)) export_columns.0 export_columns.1 export_columns.2

abbrev order : PurchaseOrderRow whole_numbers
order = record {
  po_number = codes "P";
  material_code = codes "M";
  material_description = [];
  quantity = 5;
  unit = codes "KG";
  rate = 0;
  amount = 0;
}

abbrev receipt : SiteReceipt whole_numbers
receipt = record {
  po_number = codes "P";
  material_code = codes "M";
  verified_quantity = 7;
  unit = codes "kg";
}

abbrev in_order : Text → Text → Bool
in_order a b = true

order_plain : All (IsPlainOrder whole_numbers) (order ∷ [])
unfolding normalize_unit cleaned trim is_space to_upper strip_last
order_plain = (
  (
    (λ e. omega (arith, e), tt),
    (λ e. omega (arith, e), tt),
    (λ e. omega (arith, e), (λ e. omega (arith, e), tt)),
  ),
  tt,
)

receipt_plain : All (IsPlainReceipt whole_numbers) (receipt ∷ [])
unfolding normalize_unit cleaned trim is_space to_upper strip_last
receipt_plain = (
  (
    (λ e. omega (arith, e), tt),
    (λ e. omega (arith, e), tt),
    (λ e. omega (arith, e), (λ e. omega (arith, e), tt)),
  ),
  tt,
)

calculate_reconciliation_deltas-IsDelta_example :
    All
      (IsDelta whole_numbers (order ∷ []) (receipt ∷ []))
      (calculate_reconciliation_deltas whole_numbers in_order (order ∷ []) (receipt ∷ []))
calculate_reconciliation_deltas-IsDelta_example =
    calculate_reconciliation_deltas-IsDelta whole_numbers in_order (order ∷ []) (receipt ∷ [])
      order_plain receipt_plain

calculate_reconciliation_deltas_once_example :
    occurrences (join_key (codes "P") (codes "M") (codes "KG")) (
      map
        (row_key whole_numbers)
        (calculate_reconciliation_deltas whole_numbers in_order (order ∷ []) (receipt ∷ [])))
    ≡ 1
unfolding normalize_unit cleaned trim is_space to_upper strip_last
calculate_reconciliation_deltas_once_example =
    calculate_reconciliation_deltas_once whole_numbers in_order (order ∷ []) (receipt ∷ [])
      order_plain receipt_plain (join_key (codes "P") (codes "M") (codes "KG"))
