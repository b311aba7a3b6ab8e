-- ===== src/Tally/Csv.antt =====
-- apps/edge/src/tally.ts, `parseCsvLine`: one line of CSV into its fields. A text is the list of its
-- code units.
pub mod RoundTrip
use challanse.Prelude.{Bool, false, not, ◌&&◌, List, [], ◌∷◌, ◌++◌, Text, ◌==◌, if◌then◌else◌}

-- The loop of `parseCsvLine`: the text from position `i` on, and its variables `current`, `inQuotes`
-- and `fields`. The lookahead `line[i + 1]` is the second character of the pattern.
unfoldable pub csv_loop : Text → Text → Bool → List Text → List Text
csv_loop [] current in_quotes fields = fields ++ (current ∷ [])
csv_loop (char ∷ []) current in_quotes fields =
    let toggled = csv_loop [] current (not in_quotes) fields in
    let closed = csv_loop [] [] in_quotes (fields ++ (current ∷ [])) in
    let longer = csv_loop [] (current ++ (char ∷ [])) in_quotes fields in
    if char == b'"' then toggled else if (char == b',') && not in_quotes then closed else longer
csv_loop (char ∷ next ∷ rest) current in_quotes fields =
    let escaped = csv_loop rest (current ++ (b'"' ∷ [])) in_quotes fields in
    let toggled = csv_loop (next ∷ rest) current (not in_quotes) fields in
    let closed = csv_loop (next ∷ rest) [] in_quotes (fields ++ (current ∷ [])) in
    let longer = csv_loop (next ∷ rest) (current ++ (char ∷ [])) in_quotes fields in
    if char == b'"'
    then if in_quotes && (next == b'"') then escaped else toggled
    else if (char == b',') && not in_quotes
    then closed
    else longer

unfoldable pub parse_csv_line : Text → List Text
unfolding csv_loop
parse_csv_line line = csv_loop line [] false []
