-- ===== src/Tally/Csv/RoundTrip.antt =====
-- A CSV line as RFC 4180 writes it, and the way back through the parser.
use challanse.Prelude.{
  ◌≡◌, ◌≢◌, refl, sym, ap, ◌∙◌, Bool, true, false, not, ◌&&◌, List, [], ◌∷◌, ◌++◌, append_assoc,
  append-nil, map, arith, Text, ◌==◌, if◌then◌else◌, All, ℕ, inl, inr, Bool-cases,
}
use challanse.Tally.Csv.{csv_loop, parse_csv_line}

-- A field as it is written: bare, or between quotes with its own quotes doubled.
pub data Field : Type 0 where
  bare quoted : Text → Field

abbrev pub content : Field → Text
content (bare t) = t
content (quoted t) = t

-- A bare field has no comma and no quote.
abbrev pub IsWritable : Field → Type 0
IsWritable (bare t) = All (λ c. (c ≢ b',') × (c ≢ b'"')) t
IsWritable (quoted t) = Unit

abbrev pub escape : Text → Text
escape [] = []
escape (c ∷ t) = if c == b'"' then b'"' ∷ b'"' ∷ escape t else c ∷ escape t

abbrev pub print_field : Field → Text
print_field (bare t) = t
print_field (quoted t) = b'"' ∷ (escape t ++ (b'"' ∷ []))

-- At least one field, joined by commas.
abbrev pub print_line : Field → List Field → Text
print_line f [] = print_field f
print_line f (g ∷ gs) = print_field f ++ (b',' ∷ print_line g gs)

module _ (fields : List Text) where
  -- A character that is neither a quote nor an active comma is appended.
  loop_plain :
      (c : ℕ) (rest cur : Text) (q : Bool)
      → c ≢ b'"'
      → ((c == b',') && not q) ≡ false
      → csv_loop (c ∷ rest) cur q fields ≡ csv_loop rest (cur ++ (c ∷ [])) q fields
  unfolding csv_loop
  loop_plain c [] cur q h k = ground arith
  loop_plain c (d ∷ rest) cur q h k = ground arith

  loop_bare :
      (t rest cur : Text)
      → All (λ c. (c ≢ b',') × (c ≢ b'"')) t
      → csv_loop (t ++ rest) cur false fields ≡ csv_loop rest (cur ++ t) false fields
  loop_bare [] rest cur h = ap (λ u. csv_loop rest u false fields) (sym (append-nil cur))
  loop_bare (c ∷ t) rest cur ((nc, nq), h) =
      loop_plain c (t ++ rest) cur false nq (ground arith)
      ∙ loop_bare t rest (cur ++ (c ∷ [])) h
      ∙ ap (λ u. csv_loop rest u false fields) (append_assoc cur (c ∷ []) t)

  loop_open :
      (rest cur : Text) → csv_loop (b'"' ∷ rest) cur false fields ≡ csv_loop rest cur true fields
  unfolding csv_loop
  loop_open [] cur = refl
  loop_open (d ∷ rest) cur = refl

  loop_escaped :
      (rest cur : Text)
      → csv_loop (b'"' ∷ b'"' ∷ rest) cur true fields
        ≡ csv_loop rest (cur ++ (b'"' ∷ [])) true fields
  unfolding csv_loop
  loop_escaped rest cur = refl

  loop_quoted :
      (t rest cur : Text)
      → csv_loop (escape t ++ rest) cur true fields ≡ csv_loop rest (cur ++ t) true fields
  loop_quoted [] rest cur = ap (λ u. csv_loop rest u true fields) (sym (append-nil cur))
  loop_quoted (c ∷ t) rest cur = elim (Bool-cases (c == b'"')) [
    | inl e ↦ rw e (
        loop_escaped (escape t ++ rest) cur
        ∙ loop_quoted t rest (cur ++ (b'"' ∷ []))
        ∙ ap (λ u. csv_loop rest u true fields)
            (append_assoc cur (b'"' ∷ []) t ∙ ap (λ (d : ℕ). cur ++ (d ∷ t)) (ground arith)))
    | inr e ↦ rw e (
        loop_plain c (escape t ++ rest) cur true (ground arith) (ground arith)
        ∙ loop_quoted t rest (cur ++ (c ∷ []))
        ∙ ap (λ u. csv_loop rest u true fields) (append_assoc cur (c ∷ []) t))
  ]

  -- A closing quote that ends the line, and one before a comma.
  loop_close_end :
      (cur : Text) → csv_loop (b'"' ∷ []) cur true fields ≡ csv_loop [] cur false fields
  unfolding csv_loop
  loop_close_end cur = refl

  loop_close_comma :
      (rest cur : Text)
      → csv_loop (b'"' ∷ b',' ∷ rest) cur true fields ≡ csv_loop (b',' ∷ rest) cur false fields
  unfolding csv_loop
  loop_close_comma rest cur = refl

  loop_comma :
      (rest cur : Text)
      → csv_loop (b',' ∷ rest) cur false fields ≡ csv_loop rest [] false (fields ++ (cur ∷ []))
  unfolding csv_loop
  loop_comma [] cur = refl
  loop_comma (d ∷ rest) cur = refl

  loop_field_end :
      (f : Field)
      → IsWritable f
      → csv_loop (print_field f) [] false fields ≡ fields ++ (content f ∷ [])
  loop_field_end (bare t) h =
      ap (λ u. csv_loop u [] false fields) (sym (append-nil t))
      ∙ loop_bare t [] [] h
      ∙ (unfold csv_loop in refl)
  loop_field_end (quoted t) h =
      loop_open (escape t ++ (b'"' ∷ [])) []
      ∙ loop_quoted t (b'"' ∷ []) []
      ∙ loop_close_end t
      ∙ (unfold csv_loop in refl)

  loop_field_comma :
      (f : Field) (rest : Text)
      → IsWritable f
      → csv_loop (print_field f ++ (b',' ∷ rest)) [] false fields
        ≡ csv_loop rest [] false (fields ++ (content f ∷ []))
  loop_field_comma (bare t) rest h = loop_bare t (b',' ∷ rest) [] h ∙ loop_comma rest t
  loop_field_comma (quoted t) rest h =
      ap (λ u. csv_loop (b'"' ∷ u) [] false fields)
        (append_assoc (escape t) (b'"' ∷ []) (b',' ∷ rest))
      ∙ loop_open (escape t ++ (b'"' ∷ b',' ∷ rest)) []
      ∙ loop_quoted t (b'"' ∷ b',' ∷ rest) []
      ∙ loop_close_comma rest t
      ∙ loop_comma rest t

loop_line :
    (fields : List Text) (f : Field) (fs : List Field)
    → IsWritable f
    → All IsWritable fs
    → csv_loop (print_line f fs) [] false fields ≡ fields ++ (content f ∷ map content fs)
loop_line fields f [] h hs = loop_field_end fields f h
loop_line fields f (g ∷ gs) h (k, ks) =
    loop_field_comma fields f (print_line g gs) h
    ∙ loop_line (fields ++ (content f ∷ [])) g gs k ks
    ∙ append_assoc fields (content f ∷ []) (content g ∷ map content gs)

-- A line that is written by RFC 4180 from one or more fields, each bare (with no comma and no quote
-- in it) or between quotes with its quotes doubled, is parsed into exactly the contents of its
-- fields.
pub parse_csv_line-print_line :
    (f : Field) (fs : List Field)
    → IsWritable f
    → All IsWritable fs
    → parse_csv_line (print_line f fs) ≡ content f ∷ map content fs
unfolding parse_csv_line
parse_csv_line-print_line f fs h hs = loop_line [] f fs h hs
