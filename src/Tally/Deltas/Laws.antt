-- ===== src/Tally/Deltas/Laws.antt =====
-- apps/edge/src/tally.ts, `calculateReconciliationDeltas`: the rows of a reconciliation, their keys and
-- their totals.
use challanse.Prelude.{
  ◌≡◌, refl, sym, ap, ◌∙◌, ◌+◌, Bool, ◌||◌, ◌&&◌, List, [], ◌∷◌, ◌++◌, map, arith, Text, text_eq,
  includes, if◌then◌else◌, All, All-append, sort, insert_sorted, sort-All,
}
use challanse.Tally.Units.{normalize_unit}
use challanse.Tally.Floats.{Floats, or_zero}
use challanse.Tally.Import.{PurchaseOrderRow}
use challanse.Tally.Deltas.{
  join_key, split_key, SiteReceipt, ReconciliationRow, group, keys, distinct, delta_row,
  three_parts, po_entry, receipt_entry, calculate_reconciliation_deltas,
}
use challanse.Tally.Deltas.Keys.{HasNoColon, split_key-join_key, text_eq-join_key}
use challanse.Tally.Deltas.Groups.{
  occurrences, total, get_or_zero-group, includes-group, includes-append, group-All, distinct-All,
  occurrences-distinct,
}

-- A key of three parts without a colon.
pub record IsJoined (key : Text) : Type 0 where
  pub po : Text
  pub code : Text
  pub unit : Text
  pub po_plain : HasNoColon po
  pub code_plain : HasNoColon code
  pub unit_plain : HasNoColon unit
  pub joined : key ≡ join_key po code unit

module _ (f : Floats) where
  -- The number, the code and the normalised unit of a row hold no colon.
  abbrev pub IsPlainOrder : PurchaseOrderRow f → Type 0
  IsPlainOrder po =
      HasNoColon po.po_number × HasNoColon po.material_code × HasNoColon (normalize_unit po.unit)

  abbrev pub IsPlainReceipt : SiteReceipt f → Type 0
  IsPlainReceipt r =
      HasNoColon r.po_number × HasNoColon r.material_code × HasNoColon (normalize_unit r.unit)

  abbrev pub row_key : ReconciliationRow f → Text
  row_key r = join_key r.po_number r.material_code r.unit

  -- Whether three parts are those of a row.
  abbrev pub same_parts : (number code unit : Text) → (po material normalised : Text) → Bool
  same_parts number code unit po material normalised =
      text_eq number po && (text_eq code material && text_eq unit normalised)

  -- The quantities of the orders of this number, material and normalised unit, added from left to
  -- right.
  abbrev pub ordered_quantity :
      f.Number → (po material unit : Text) → List (PurchaseOrderRow f) → f.Number
  ordered_quantity sum po material unit [] = sum
  ordered_quantity sum po material unit (o ∷ orders) =
      ordered_quantity
        (if same_parts o.po_number o.material_code (normalize_unit o.unit) po material unit
          then or_zero f (f.add sum o.quantity)
          else sum)
        po material unit orders

  -- The same of what was received.
  abbrev pub received_quantity :
      f.Number → (po material unit : Text) → List (SiteReceipt f) → f.Number
  received_quantity sum po material unit [] = sum
  received_quantity sum po material unit (r ∷ receipts) =
      received_quantity
        (if same_parts r.po_number r.material_code (normalize_unit r.unit) po material unit
          then or_zero f (f.add sum r.verified_quantity)
          else sum)
        po material unit receipts

  -- A row with the totals of its number, material and unit, and `isOver` as their comparison.
  pub record IsDelta (orders : List (PurchaseOrderRow f)) (receipts : List (SiteReceipt f))
      (r : ReconciliationRow f) : Type 0 where
    pub ordered : r.po_quantity ≡ ordered_quantity f.zero r.po_number r.material_code r.unit orders
    pub received :
        r.site_received ≡ received_quantity f.zero r.po_number r.material_code r.unit receipts
    pub over : r.is_over ≡ f.exceeds r.site_received r.po_quantity

  total-ordered_quantity :
      (j : Text) (k : IsJoined j) (orders : List (PurchaseOrderRow f)) (h : All IsPlainOrder orders)
      (sum : f.Number)
      → total f sum j (map (po_entry f) orders) ≡ ordered_quantity sum k.po k.code k.unit orders
  total-ordered_quantity j k [] h sum = refl
  total-ordered_quantity j k (o ∷ orders) (h, hs) sum =
      let same =
        ap (text_eq (join_key o.po_number o.material_code (normalize_unit o.unit))) k.joined
        ∙ text_eq-join_key o.po_number o.material_code (normalize_unit o.unit) k.po k.code k.unit h
            (k.po_plain, k.code_plain, k.unit_plain) in
      ap
        (λ (b : Bool).
          total f (if b then or_zero f (f.add sum o.quantity) else sum) j (map (po_entry f) orders))
        same
      ∙ total-ordered_quantity j k orders hs _

  total-received_quantity :
      (j : Text) (k : IsJoined j) (receipts : List (SiteReceipt f))
      (h : All IsPlainReceipt receipts) (sum : f.Number)
      → total f sum j (map (receipt_entry f) receipts)
        ≡ received_quantity sum k.po k.code k.unit receipts
  total-received_quantity j k [] h sum = refl
  total-received_quantity j k (r ∷ receipts) (h, hs) sum =
      let same =
        ap (text_eq (join_key r.po_number r.material_code (normalize_unit r.unit))) k.joined
        ∙ text_eq-join_key r.po_number r.material_code (normalize_unit r.unit) k.po k.code k.unit h
            (k.po_plain, k.code_plain, k.unit_plain) in
      ap
        (λ (b : Bool).
          total f (if b then or_zero f (f.add sum r.verified_quantity) else sum) j
            (map (receipt_entry f) receipts))
        same
      ∙ total-received_quantity j k receipts hs _

  orders-IsJoined :
      (pos : List (PurchaseOrderRow f))
      → All IsPlainOrder pos
      → All IsJoined (keys f (map (po_entry f) pos))
  orders-IsJoined [] h = tt
  orders-IsJoined (po ∷ pos) ((a, b, c), hs) = (
    record {
      po = po.po_number;
      code = po.material_code;
      unit = normalize_unit po.unit;
      po_plain = a;
      code_plain = b;
      unit_plain = c;
      joined = refl;
    },
    orders-IsJoined pos hs,
  )

  receipts-IsJoined :
      (rs : List (SiteReceipt f))
      → All IsPlainReceipt rs
      → All IsJoined (keys f (map (receipt_entry f) rs))
  receipts-IsJoined [] h = tt
  receipts-IsJoined (r ∷ rs) ((a, b, c), hs) = (
    record {
      po = r.po_number;
      code = r.material_code;
      unit = normalize_unit r.unit;
      po_plain = a;
      code_plain = b;
      unit_plain = c;
      joined = refl;
    },
    receipts-IsJoined rs hs,
  )

  module _ (pos receipts : List (Text × f.Number)) where
    abbrev row_at : Text → ReconciliationRow f
    row_at = delta_row f (group f [] pos) (group f [] receipts)

    row_key-row_at : (key : Text) → IsJoined key → row_key (row_at key) ≡ key
    row_key-row_at key j =
        ap (λ p. join_key (three_parts p).0 (three_parts p).1 (three_parts p).2)
          (ap split_key j.joined
            ∙ split_key-join_key j.po j.code j.unit j.po_plain j.code_plain j.unit_plain)
        ∙ sym j.joined

    rows-keys : (ks : List Text) → All IsJoined ks → map row_key (map row_at ks) ≡ ks
    rows-keys [] h = refl
    rows-keys (k ∷ ks) (h, hs) = cc (row_key-row_at k h, rows-keys ks hs)

  occurrences-insert :
      (j : Text) (le : ReconciliationRow f → ReconciliationRow f → Bool) (r : ReconciliationRow f)
      (rs : List (ReconciliationRow f))
      → occurrences j (map row_key (insert_sorted le r rs)) ≡ occurrences j (map row_key (r ∷ rs))
  occurrences-insert j le r [] = refl
  occurrences-insert j le r (s ∷ rs) = ground (arith, occurrences-insert j le r rs)

  occurrences-sort :
      (j : Text) (le : ReconciliationRow f → ReconciliationRow f → Bool)
      (rs : List (ReconciliationRow f))
      → occurrences j (map row_key (sort le rs)) ≡ occurrences j (map row_key rs)
  occurrences-sort j le [] = refl
  occurrences-sort j le (r ∷ rs) =
      occurrences-insert j le r (sort le rs)
      ∙ ap (λ n. (if text_eq (row_key r) j then 1 else 0) + n) (occurrences-sort j le rs)

  module _ (before : Text → Text → Bool) (pos : List (PurchaseOrderRow f))
      (rs : List (SiteReceipt f)) (plain_orders : All IsPlainOrder pos)
      (plain_receipts : All IsPlainReceipt rs) where
    abbrev ordered : List (Text × f.Number)
    ordered = map (po_entry f) pos

    abbrev received : List (Text × f.Number)
    received = map (receipt_entry f) rs

    abbrev all_keys : List Text
    all_keys = distinct f [] (keys f (group f [] ordered) ++ keys f (group f [] received))

    all_keys-IsJoined : All IsJoined all_keys
    all_keys-IsJoined =
        distinct-All f IsJoined _ []
          (All-append IsJoined _ _
            (group-All f IsJoined ordered [] (orders-IsJoined pos plain_orders) tt)
            (group-All f IsJoined received [] (receipts-IsJoined rs plain_receipts) tt))
          tt

    parts_of :
        (key : Text) (j : IsJoined key) → three_parts (split_key key) ≡ (j.po, j.code, j.unit)
    parts_of key j = ap three_parts (
        ap split_key j.joined
        ∙ split_key-join_key j.po j.code j.unit j.po_plain j.code_plain j.unit_plain)

    row_at-IsDelta : (key : Text) → IsJoined key → IsDelta pos rs (row_at ordered received key)
    row_at-IsDelta key j = record {
      ordered =
          get_or_zero-group f key ordered []
          ∙ total-ordered_quantity key j pos plain_orders f.zero
          ∙ ap (λ p. ordered_quantity f.zero p.0 p.1 p.2 pos) (sym (parts_of key j));
      received =
          get_or_zero-group f key received []
          ∙ total-received_quantity key j rs plain_receipts f.zero
          ∙ ap (λ p. received_quantity f.zero p.0 p.1 p.2 rs) (sym (parts_of key j));
      over = refl;
    }

    rows-IsDelta :
        (ks : List Text) → All IsJoined ks → All (IsDelta pos rs) (map (row_at ordered received) ks)
    rows-IsDelta [] h = tt
    rows-IsDelta (k ∷ ks) (h, hs) = (row_at-IsDelta k h, rows-IsDelta ks hs)

    -- Where no number, code or normalised unit holds a colon, every row of the result has as
    -- `poQuantity` the quantities of the orders with its number, code and normalised unit, added from
    -- left to right, as `siteReceived` the verified quantities of such receipts, and `isOver` says
    -- whether the second exceeds the first.
    pub calculate_reconciliation_deltas-IsDelta :
        All (IsDelta pos rs) (calculate_reconciliation_deltas f before pos rs)
    unfolding calculate_reconciliation_deltas
    calculate_reconciliation_deltas-IsDelta =
        sort-All (IsDelta pos rs) (λ a b. before a.po_number b.po_number)
          (map (row_at ordered received) all_keys) (rows-IsDelta all_keys all_keys-IsJoined)

    -- Where no number, code or normalised unit holds a colon, the result has exactly one row for a
    -- key that an order or a receipt has, and none for any other key.
    pub calculate_reconciliation_deltas_once :
        (key : Text)
        → occurrences key (map row_key (calculate_reconciliation_deltas f before pos rs)) ≡ (
            if includes (keys f (map (po_entry f) pos)) key
              || includes (keys f (map (receipt_entry f) rs)) key
            then 1
            else 0)
    unfolding calculate_reconciliation_deltas
    calculate_reconciliation_deltas_once key =
        occurrences-sort key (λ a b. before a.po_number b.po_number)
          (map (row_at ordered received) all_keys)
        ∙ ap (occurrences key) (rows-keys ordered received all_keys all_keys-IsJoined)
        ∙ occurrences-distinct f key (keys f (group f [] ordered) ++ keys f (group f [] received))
            [] refl
        ∙ ap (λ (b : Bool). if b then 1 else 0)
            (includes-append (keys f (group f [] ordered)) (keys f (group f [] received)) key
              ∙ cc (includes-group f key ordered [], includes-group f key received []))
