-- ===== src/Tally/Columns.antt =====
-- apps/edge/src/tally.ts, `buildColumnMap`: the positions of the known columns in a header.
pub mod Laws
use challanse.Prelude.{
  ℕ, ◌+◌, Bool, ◌&&◌, ◌||◌, Option, none, some, List, [], ◌∷◌, map, Text, String, codes, leb, ◌==◌,
  select, includes, not, is_space, trim, to_lower, if◌then◌else◌,
}

-- The keys of `nameVariants`, in their order.
pub data Column : Type 0 where
  po_number material_code material_description quantity unit rate amount : Column

-- `map`, which has a position for each key that was found.
pub record ColumnMap : Type 0 where
  pub po_number : Option ℕ
  pub material_code : Option ℕ
  pub material_description : Option ℕ
  pub quantity : Option ℕ
  pub unit : Option ℕ
  pub rate : Option ℕ
  pub amount : Option ℕ

-- The object literal `nameVariants`.
abbrev pub name_variants : Column → List Text
name_variants Column.po_number =
    map codes ("ponumber" ∷ "po_number" ∷ "po no" ∷ "po no." ∷ "purchase order" ∷ "orderno" ∷ [])
name_variants Column.material_code =
    map codes
      ("materialcode" ∷ "material_code" ∷ "itemcode" ∷ "item_code" ∷ "code" ∷ "productcode" ∷ [])
name_variants Column.material_description = map codes (
    "materialdescription" ∷ "material_description" ∷ "description" ∷ "itemdescription" ∷ "item name"
    ∷ "productname" ∷ [])
name_variants Column.quantity =
    map codes ("quantity" ∷ "qty" ∷ "orderqty" ∷ "ordered quantity" ∷ "po quantity" ∷ [])
name_variants Column.unit = map codes ("unit" ∷ "uom" ∷ "unitofmeasure" ∷ "measurement" ∷ [])
name_variants Column.rate = map codes ("rate" ∷ "unitrate" ∷ "price" ∷ "unit price" ∷ [])
name_variants Column.amount = map codes ("amount" ∷ "total" ∷ "value" ∷ "totalamount" ∷ [])

-- `[a-z0-9]`
abbrev pub is_alnum : ℕ → Bool
is_alnum c = (leb b'a' c && leb c b'z') || (leb b'0' c && leb c b'9')

-- `.trim().toLowerCase().replace(/[^a-z0-9 ]/g, '').replace(/\s+/g, '')`
unfoldable pub clean_header : Text → Text
unfolding trim to_lower is_space
clean_header h =
    select (λ c. not (is_space c)) (select (λ c. is_alnum c || (c == b' ')) (map to_lower (trim h)))

-- `if (variants.includes(clean) && map[key] === undefined) map[key] = i`
abbrev pub assign : List Text → Text → ℕ → Option ℕ → Option ℕ
assign variants clean i none = if includes variants clean then some i else none
assign variants clean i (some j) = some j

abbrev pub assign_all : Text → ℕ → ColumnMap → ColumnMap
assign_all clean i m = record {
  po_number = assign (name_variants Column.po_number) clean i m.po_number;
  material_code = assign (name_variants Column.material_code) clean i m.material_code;
  material_description =
      assign (name_variants Column.material_description) clean i m.material_description;
  quantity = assign (name_variants Column.quantity) clean i m.quantity;
  unit = assign (name_variants Column.unit) clean i m.unit;
  rate = assign (name_variants Column.rate) clean i m.rate;
  amount = assign (name_variants Column.amount) clean i m.amount;
}

-- The loop over the header, from index `i` on.
unfoldable pub build_from : ℕ → List Text → ColumnMap → ColumnMap
build_from i [] m = m
build_from i (h ∷ header) m = build_from (i + 1) header (assign_all (clean_header h) i m)

unfoldable pub build_column_map : List Text → ColumnMap
unfolding build_from clean_header
build_column_map header = build_from 0 header (record {
  po_number = none;
  material_code = none;
  material_description = none;
  quantity = none;
  unit = none;
  rate = none;
  amount = none;
})
