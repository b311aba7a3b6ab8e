-- ===== src/Tally/Import/Lines.antt =====
-- apps/edge/src/tally.ts, `parseTallyCsv`: the lines of a file, however they end, and that an import
-- accounts for each of them.
use challanse.Prelude.{
  ◌≡◌, ◌≢◌, refl, ap, ◌∙◌, ℕ, ◌+◌, ◌≤◌, Bool, true, false, not, some, List, [], ◌∷◌, ◌++◌, map,
  arith, Text, length, select, All, trim, if◌then◌else◌,
}
use challanse.Tally.Csv.{parse_csv_line}
use challanse.Tally.Columns.{build_column_map}
use challanse.Tally.Floats.{Floats}
use challanse.Tally.Import.{
  is_empty, drop_bom, join_crlf, cr_to_lf, cons_line, split_lines, content_lines, parse_tally_csv,
}
use challanse.Tally.Import.Laws.{parse_tally_csv-content_lines}

-- A text that holds no end of a line and no byte order mark.
abbrev pub IsOneLine : Text → Type 0
IsOneLine t = All (λ c. (c ≢ 10) × (c ≢ 13) × (c ≢ 0xfeff)) t

-- How a line ends: with CR and LF, or with LF alone.
abbrev pub ending : Bool → Text
ending true = 13 ∷ 10 ∷ []
ending false = 10 ∷ []

-- The lines, each with its end, and a last one without an end.
abbrev pub write_lines : List (Text × Bool) → Text → Text
write_lines [] last = last
write_lines ((line, crlf) ∷ lines) last = line ++ (ending crlf ++ write_lines lines last)

abbrev pub with_bom : Bool → Text → Text
with_bom true t = 0xfeff ∷ t
with_bom false t = t

abbrev pub texts : List (Text × Bool) → Text → List Text
texts [] last = last ∷ []
texts ((line, crlf) ∷ lines) last = line ∷ texts lines last

-- How many lines hold more than space.
abbrev pub filled : List Text → ℕ
filled [] = 0
filled (line ∷ lines) = (if is_empty (trim line) then 0 else 1) + filled lines

abbrev lines_of : Text → List Text
lines_of t = split_lines (map cr_to_lf (join_crlf t))

join_crlf-cons : (c : ℕ) (t : Text) → c ≢ 13 → join_crlf (c ∷ t) ≡ c ∷ join_crlf t
unfolding join_crlf
join_crlf-cons c [] h = refl
join_crlf-cons c (d ∷ t) h = ground (arith, h)

split_lines-cons : (c : ℕ) (t : Text) → c ≢ 10 → split_lines (c ∷ t) ≡ cons_line c (split_lines t)
unfolding split_lines
split_lines-cons c t h = ground (arith, h)

cr_to_lf_other : (c : ℕ) → c ≢ 13 → cr_to_lf c ≡ c
cr_to_lf_other c h = ground (arith, h)

lines_of-cons : (c : ℕ) (t : Text) → c ≢ 10 → c ≢ 13 → lines_of (c ∷ t) ≡ cons_line c (lines_of t)
lines_of-cons c t h k =
    ap (λ u. split_lines (map cr_to_lf u)) (join_crlf-cons c t k)
    ∙ ap (λ d. split_lines (d ∷ map cr_to_lf (join_crlf t))) (cr_to_lf_other c k)
    ∙ split_lines-cons c (map cr_to_lf (join_crlf t)) h

lines_of-ending : (crlf : Bool) (rest : Text) → lines_of (ending crlf ++ rest) ≡ [] ∷ lines_of rest
unfolding split_lines join_crlf
lines_of-ending true rest = refl
lines_of-ending false rest =
    ap (λ u. split_lines (map cr_to_lf u)) (join_crlf-cons 10 rest (λ e. omega (arith, e)))

lines_of-line :
    (line : Text) (crlf : Bool) (rest : Text)
    → IsOneLine line
    → lines_of (line ++ (ending crlf ++ rest)) ≡ line ∷ lines_of rest
lines_of-line [] crlf rest h = lines_of-ending crlf rest
lines_of-line (c ∷ line) crlf rest ((a, b, _), hs) =
    lines_of-cons c (line ++ (ending crlf ++ rest)) a b
    ∙ ap (cons_line c) (lines_of-line line crlf rest hs)

lines_of-last : (line : Text) → IsOneLine line → lines_of line ≡ line ∷ []
unfolding split_lines join_crlf
lines_of-last [] h = refl
lines_of-last (c ∷ line) ((a, b, _), hs) =
    lines_of-cons c line a b ∙ ap (cons_line c) (lines_of-last line hs)

lines_of-write_lines :
    (lines : List (Text × Bool)) (last : Text)
    → All IsOneLine (texts lines last)
    → lines_of (write_lines lines last) ≡ texts lines last
lines_of-write_lines [] last (h, _) = lines_of-last last h
lines_of-write_lines ((line, crlf) ∷ lines) last (h, hs) =
    lines_of-line line crlf (write_lines lines last) h
    ∙ ap (λ ls. line ∷ ls) (lines_of-write_lines lines last hs)

drop_bom-with_bom :
    (bom : Bool) (lines : List (Text × Bool)) (last : Text)
    → All IsOneLine (texts lines last)
    → drop_bom (with_bom bom (write_lines lines last)) ≡ write_lines lines last
drop_bom-with_bom true lines last h = refl
drop_bom-with_bom false [] [] h = refl
drop_bom-with_bom false [] (c ∷ last) (((_, _, k), _), _) = ground (arith, k)
drop_bom-with_bom false (([], true) ∷ lines) last h = refl
drop_bom-with_bom false (([], false) ∷ lines) last h = refl
drop_bom-with_bom false ((c ∷ line, crlf) ∷ lines) last (((_, _, k), _), _) = ground (arith, k)

content_lines-write_lines :
    (bom : Bool) (lines : List (Text × Bool)) (last : Text)
    → All IsOneLine (texts lines last)
    → content_lines (with_bom bom (write_lines lines last))
      ≡ select (λ line. not (is_empty (trim line))) (texts lines last)
unfolding content_lines
content_lines-write_lines bom lines last h =
    ap (select (λ line. not (is_empty (trim line))))
      (ap lines_of (drop_bom-with_bom bom lines last h) ∙ lines_of-write_lines lines last h)

not_blank : (t : Text) → t ≢ [] → is_empty t ≡ false
not_blank [] h = absurd (h refl)
not_blank (c ∷ t) h = refl

length-filled :
    (lines : List Text) → length (select (λ line. not (is_empty (trim line))) lines) ≡ filled lines
length-filled [] = refl
length-filled (line ∷ lines) = ground (arith, length-filled lines)

module _ (f : Floats) where
  -- A file of lines that end with CR LF or LF, the last without an end, after a byte order mark or
  -- not. When its first line is no blank one and names the three required columns, and a line below
  -- holds more than space, the import accounts for every line: the rows and the messages together are
  -- as many as the lines below the header that hold more than space, and `totalRows` counts the rows.
  pub parse_tally_csv_accounts :
      (bom crlf : Bool) (header : Text) (lines : List (Text × Bool)) (last : Text)
      (po code quantity : ℕ)
      → All IsOneLine (header ∷ texts lines last)
      → trim header ≢ []
      → 1 ≤ filled (texts lines last)
      → (build_column_map (parse_csv_line header)).po_number ≡ some po
      → (build_column_map (parse_csv_line header)).material_code ≡ some code
      → (build_column_map (parse_csv_line header)).quantity ≡ some quantity
      → let result = parse_tally_csv f (with_bom bom (write_lines ((header, crlf) ∷ lines) last)) in
        (length result.rows + length result.errors ≡ filled (texts lines last))
        × (result.total_rows ≡ length result.rows)
  parse_tally_csv_accounts bom crlf header lines last po code quantity one named some_line p c q =
      below (select (λ line. not (is_empty (trim line))) (texts lines last)) refl
    where
      content : Text
      content = with_bom bom (write_lines ((header, crlf) ∷ lines) last)

      below :
          (rest : List Text)
          → select (λ line. not (is_empty (trim line))) (texts lines last) ≡ rest
          → (length (parse_tally_csv f content).rows + length (parse_tally_csv f content).errors
              ≡ filled (texts lines last))
            × ((parse_tally_csv f content).total_rows ≡ length (parse_tally_csv f content).rows)
      below [] at =
          let none_filled = length-filled (texts lines last) in
          let no_line = ap length at in absurd (omega (arith, none_filled, no_line, some_line))
      below (second ∷ rest) at =
          let split : content_lines content ≡ header ∷ second ∷ rest =
            (content_lines-write_lines bom ((header, crlf) ∷ lines) last one
              ∙ ap
                  (λ (b : Bool).
                    let below_it = select (λ line. not (is_empty (trim line))) (texts lines last) in
                    if not b then header ∷ below_it else below_it)
                  (not_blank (trim header) named)
              ∙ ap (λ ls. header ∷ ls) at) in
          let (counted, totalled) =
            parse_tally_csv-content_lines f content header second rest po code quantity split p c
              q in
          let all = length-filled (texts lines last) in
          let long = ap length at in (omega (arith, counted, all, long), totalled)
