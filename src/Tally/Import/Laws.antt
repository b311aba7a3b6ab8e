-- ===== src/Tally/Import/Laws.antt =====
-- apps/edge/src/tally.ts, `parseTallyCsv`: what an import accepts, and what becomes of every line.
use challanse.Prelude.{
  not, ◌||◌, ltb, All-append, suc, ◌≡◌, ◌≢◌, refl, ◌∙◌, ℕ, ◌+◌, Bool, true, false, Option, none,
  some, List, [], ◌∷◌, arith, Text, length, length-append, get_elem?, All, trim, Bool-cases, inl,
  inr,
}
use challanse.Tally.Csv.{parse_csv_line}
use challanse.Tally.Columns.{ColumnMap, build_column_map}
use challanse.Tally.Floats.{Floats}
use challanse.Tally.Import.{
  PurchaseOrderRow, ParseResult, LineResult, row, bad, parse_fields, parse_row, push_result,
  parse_rows, parse_data, parse_lines, content_lines, parse_tally_csv, complete_row, is_empty,
  drop_separators, max, parse_error,
}

nonempty_left : (s t : Text) → (is_empty s || is_empty t) ≡ false → s ≢ []
nonempty_left [] t h = cc
nonempty_left (c ∷ s) t h = cc

nonempty_right : (s t : Text) → (is_empty s || is_empty t) ≡ false → t ≢ []
nonempty_right s [] h = ground arith
nonempty_right s (c ∷ t) h = cc

finite_of : (a b : Bool) → (not a || b) ≡ false → a ≡ true
finite_of a b h = ground arith

positive_of : (a b : Bool) → (not a || b) ≡ false → b ≡ false
positive_of a b h = ground arith

module _ (f : Floats) where
  -- A row that may be stored.
  pub record IsImportable (r : PurchaseOrderRow f) : Type 0 where
    pub named : r.po_number ≢ []
    pub coded : r.material_code ≢ []
    pub finite : f.is_finite r.quantity ≡ true
    pub positive : f.at_most_zero r.quantity ≡ false

  abbrev IsSound : LineResult f → Type 0
  IsSound (row r) = IsImportable r
  IsSound (bad e) = Unit

  complete_row-IsSound :
      (n : ℕ) (po code : Text) (q : f.Number) (d u : Option Text) (r a : Option f.Number)
      → po ≢ []
      → code ≢ []
      → f.is_finite q ≡ true
      → f.at_most_zero q ≡ false
      → IsSound (complete_row f n po code q d u r a)
  complete_row-IsSound n po code q (some d) (some u) (some r) (some a) h k l m = record {
    named = h;
    coded = k;
    finite = l;
    positive = m;
  }
  complete_row-IsSound n po code q _ _ _ _ h k l m = tt

  parse_fields-IsSound :
      (columns : ColumnMap) (n : ℕ) (fields : List Text) (p c q : Text)
      → IsSound (parse_fields f columns n fields p c q)
  unfolding parse_fields
  parse_fields-IsSound columns n fields p c q =
      let po = trim p in
      let code = trim c in
      let x = f.parse_float (drop_separators q) in
      elim (Bool-cases (is_empty po || is_empty code)) [
        | inl e ↦ rw e tt
        | inr present ↦ elim (Bool-cases (not (f.is_finite x) || f.at_most_zero x)) [
          | inl e ↦ rw (present, e) tt
          | inr fit ↦
              rw (present, fit)
                (complete_row-IsSound n po code x _ _ _ _ (nonempty_left po code present)
                  (nonempty_right po code present)
                  (finite_of (f.is_finite x) (f.at_most_zero x) fit)
                  (positive_of (f.is_finite x) (f.at_most_zero x) fit))
        ]
      ]

  parse_row-IsSound :
      (columns : ColumnMap) (po code quantity n : ℕ) (line : Text)
      → IsSound (parse_row f columns po code quantity n line)
  unfolding parse_row
  parse_row-IsSound columns po code quantity n line =
      let fields = parse_csv_line line in
      elim (Bool-cases (ltb (length fields) (max (max po code) quantity + 1))) [
        | inl short ↦ rw short tt
        | inr long ↦
            rw long
              (reads (get_elem? fields po) (get_elem? fields code) (get_elem? fields quantity))
      ]
    where
      reads :
          (p c q : Option Text)
          → IsSound (elim p [
            | none ↦ bad (parse_error n)
            | some x ↦ elim c [
              | none ↦ bad (parse_error n)
              | some y ↦ elim q [
                | none ↦ bad (parse_error n)
                | some z ↦ parse_fields f columns n (parse_csv_line line) x y z
              ]
            ]
          ])
      reads none c q = tt
      reads (some x) none q = tt
      reads (some x) (some y) none = tt
      reads (some x) (some y) (some z) = parse_fields-IsSound columns n (parse_csv_line line) x y z

  -- The loop keeps: every row so far may be stored, and each line has added a row or a message.
  parse_rows_lem :
      (columns : ColumnMap) (po code quantity n : ℕ) (lines : List Text) (result : ParseResult f)
      → All IsImportable result.rows
      → All IsImportable (parse_rows f columns po code quantity n lines result).rows
        × (length (parse_rows f columns po code quantity n lines result).rows
              + length (parse_rows f columns po code quantity n lines result).errors
            ≡ length result.rows + length result.errors + length lines)
  unfolding parse_rows
  parse_rows_lem columns po code quantity n [] result h = (h, omega arith)
  parse_rows_lem columns po code quantity n (line ∷ lines) result h =
      let r = parse_row f columns po code quantity n line in
      let (rows_ok, counted) =
        parse_rows_lem columns po code quantity (n + 1) lines (push_result f r result)
          (pushed r (parse_row-IsSound columns po code quantity n line)) in
      (rows_ok, counted ∙ adds r)
    where
      pushed : (r : LineResult f) → IsSound r → All IsImportable (push_result f r result).rows
      pushed (row r) k = All-append IsImportable result.rows (r ∷ []) h (k, tt)
      pushed (bad e) k = h

      adds :
          (r : LineResult f)
          → length (push_result f r result).rows
              + length (push_result f r result).errors
              + length lines
            ≡ length result.rows + length result.errors + suc (length lines)
      adds (row r) = omega (arith, length-append {0} result.rows (r ∷ []))
      adds (bad e) = omega (arith, length-append {0} result.errors (e ∷ []))

  parse_lines-rows : (lines : List Text) → All IsImportable (parse_lines f lines).rows
  parse_lines-rows [] = tt
  parse_lines-rows (_ ∷ []) = tt
  parse_lines-rows (first ∷ second ∷ lines) =
      let header = parse_csv_line first in
      let columns = build_column_map header in
      found header columns columns.po_number columns.material_code columns.quantity
    where
      found :
          (header : List Text) (columns : ColumnMap) (po code quantity : Option ℕ)
          → All IsImportable (parse_data f header columns po code quantity (second ∷ lines)).rows
      found header columns (some po) (some code) (some quantity) =
          (parse_rows_lem columns po code quantity 2 (second ∷ lines) _ tt).0
      found header columns none _ _ = tt
      found header columns (some _) none _ = tt
      found header columns (some _) (some _) none = tt

  -- Every row that an import returns has a purchase order number and a material code that are not
  -- empty, and a quantity that is finite and above zero.
  pub parse_tally_csv-rows : (content : Text) → All IsImportable (parse_tally_csv f content).rows
  unfolding parse_tally_csv
  parse_tally_csv-rows content = parse_lines-rows (content_lines content)

  pub parse_tally_csv-content_lines :
      (content header second : Text) (lines : List Text) (po code quantity : ℕ)
      → content_lines content ≡ header ∷ second ∷ lines
      → (build_column_map (parse_csv_line header)).po_number ≡ some po
      → (build_column_map (parse_csv_line header)).material_code ≡ some code
      → (build_column_map (parse_csv_line header)).quantity ≡ some quantity
      → (length (parse_tally_csv f content).rows + length (parse_tally_csv f content).errors
          ≡ length lines + 1)
        × ((parse_tally_csv f content).total_rows ≡ length (parse_tally_csv f content).rows)
  unfolding parse_tally_csv
  parse_tally_csv-content_lines content header second lines po code quantity split p c q =
      rw (split, p, c, q)
        (
          (parse_rows_lem (build_column_map (parse_csv_line header)) po code quantity 2
                (second ∷ lines) _ tt).1
              ∙ omega arith,
          refl,
        )
