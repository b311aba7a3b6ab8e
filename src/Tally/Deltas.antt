-- ===== src/Tally/Deltas.antt =====
-- apps/edge/src/tally.ts, `calculateReconciliationDeltas`: what was ordered against what was
-- received, for each purchase order number, material and unit. A `Map` is the list of its entries in
-- the order of insertion, which is the order of its iteration.
pub mod Keys
pub mod Groups
pub mod Laws
use challanse.Prelude.{
  ℕ, Bool, ◌&&◌, List, [], ◌∷◌, ◌++◌, map, Text, ◌==◌, text_eq, includes, sort, if◌then◌else◌,
}
use challanse.Tally.Units.{normalize_unit}
use challanse.Tally.Floats.{Floats, or_zero}
use challanse.Tally.Import.{PurchaseOrderRow}

abbrev pub separator : Text
separator = b':' ∷ b':' ∷ []

-- `${poNumber}::${materialCode}::${unit}`
abbrev pub join_key : Text → Text → Text → Text
join_key po code unit = po ++ (separator ++ (code ++ (separator ++ unit)))

-- `key.split('::')`
abbrev pub cons_part : ℕ → List Text → List Text
cons_part c [] = (c ∷ []) ∷ []
cons_part c (p ∷ ps) = (c ∷ p) ∷ ps

unfoldable pub split_key : Text → List Text
split_key [] = [] ∷ []
split_key (c ∷ []) = (c ∷ []) ∷ []
split_key (c ∷ d ∷ t) =
    let cut = split_key t in
    let kept = split_key (d ∷ t) in
    if (c == b':') && (d == b':') then [] ∷ cut else cons_part c kept

-- `const [poNumber, materialCode, unit] = parts`; a key has at least the three.
abbrev pub three_parts : List Text → Text × Text × Text
three_parts (p ∷ c ∷ u ∷ _) = (p, c, u)
three_parts (p ∷ c ∷ []) = (p, c, [])
three_parts (p ∷ []) = (p, [], [])
three_parts [] = ([], [], [])

module _ (f : Floats) where
  open f use {Number, zero, add, exceeds}

  pub record SiteReceipt : Type 0 where
    pub po_number : Text
    pub material_code : Text
    pub verified_quantity : Number
    pub unit : Text

  pub record ReconciliationRow : Type 0 where
    pub po_number : Text
    pub material_code : Text
    pub unit : Text
    pub po_quantity : Number
    pub site_received : Number
    pub is_over : Bool

  -- `map.get(key) || 0`
  abbrev pub get_or_zero : Text → List (Text × Number) → Number
  get_or_zero key [] = zero
  get_or_zero key ((k, v) ∷ rest) = if text_eq k key then or_zero f v else get_or_zero key rest

  -- `map.set(key, value)`
  abbrev pub set_entry : Text → Number → List (Text × Number) → List (Text × Number)
  set_entry key value [] = (key, value) ∷ []
  set_entry key value ((k, v) ∷ rest) =
      if text_eq k key then (key, value) ∷ rest else (k, v) ∷ set_entry key value rest

  -- The two grouping loops: `map.set(key, (map.get(key) || 0) + quantity)` for each row.
  unfoldable pub group : List (Text × Number) → List (Text × Number) → List (Text × Number)
  group by_key [] = by_key
  group by_key ((key, q) ∷ rows) =
      group (set_entry key (add (get_or_zero key by_key) q) by_key) rows

  abbrev pub po_entry : PurchaseOrderRow f → Text × Number
  po_entry po = (join_key po.po_number po.material_code (normalize_unit po.unit), po.quantity)

  abbrev pub receipt_entry : SiteReceipt → Text × Number
  receipt_entry r =
      (join_key r.po_number r.material_code (normalize_unit r.unit), r.verified_quantity)

  abbrev pub keys : List (Text × Number) → List Text
  keys [] = []
  keys ((k, v) ∷ rest) = k ∷ keys rest

  -- `new Set([...])`: each key once, at its first place.
  unfoldable pub distinct : List Text → List Text → List Text
  distinct seen [] = seen
  distinct seen (k ∷ ks) = distinct (if includes seen k then seen else seen ++ (k ∷ [])) ks

  -- The body of the last loop.
  abbrev pub delta_row : List (Text × Number) → List (Text × Number) → Text → ReconciliationRow
  delta_row pos receipts key =
      let (po, code, unit) = three_parts (split_key key) in
      record {
        po_number = po;
        material_code = code;
        unit = unit;
        po_quantity = get_or_zero key pos;
        site_received = get_or_zero key receipts;
        is_over = exceeds (get_or_zero key receipts) (get_or_zero key pos);
      }

  -- `before a b` is `a.localeCompare(b) <= 0`; the sort is stable.
  unfoldable pub calculate_reconciliation_deltas :
      (Text → Text → Bool) → List (PurchaseOrderRow f) → List SiteReceipt → List ReconciliationRow
  unfolding group distinct split_key normalize_unit
  calculate_reconciliation_deltas before purchase_orders site_receipts =
      let po_by_key = group [] (map po_entry purchase_orders) in
      let receipt_by_key = group [] (map receipt_entry site_receipts) in
      sort (λ a b. before a.po_number b.po_number)
        (map (delta_row po_by_key receipt_by_key)
          (distinct [] (keys po_by_key ++ keys receipt_by_key)))
