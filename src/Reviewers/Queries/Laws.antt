-- ===== src/Reviewers/Queries/Laws.antt =====
-- apps/edge/src/handlers/reviewers.ts: what a page of receipts holds.
use text.Mathlib.Text.{◌==◌}
use text.Mathlib.TextEquality.{eq_iff}
use challanse.Prelude.{
  ◌≡◌, refl, ap, ◌∙◌, ◌+◌, ◌&&◌, if◌then◌else◌, some, All-map, Ordered, IsOrder, sort-Ordered,
  count, count-sort, count-append, ℕ, zero, suc, ◌≤◌, min, arith, Option, List, [], ◌∷◌, map,
  String, select, sort, take, length, All, All-append, sort-All, Bool-cases, inl, inr, ltb,
}
use challanse.Json.{text_le}
use challanse.Json.Order.{text_le_total, text_le_trans}
use challanse.World.{World, Act, ReceiptRow, VendorRow, value}
use challanse.Auth.{ReviewerContext, plus, parse_int}
use challanse.Auth.Laws.{IsIn}
use challanse.Reviewers.{Identity, reviewer_of}
use challanse.Reviewers.Queries.{
  ListedReceipt, ReceiptPage, listed, with_vendors, newest_first, of_status, query_receipts,
  page_of, status_or, limit_text, handle_list_receipts,
}

-- The item is a receipt of the table, of the site and with the status, with its vendor.
pub record IsListed (w : World) (site_id status : String) (l : ListedReceipt) : Type 0 where
  pub vendor : VendorRow
  pub stored : IsIn l.receipt w.receipts
  pub at_site : l.receipt.site_id ≡ site_id
  pub in_status : l.receipt.status ≡ status
  pub vendor_stored : IsIn vendor w.vendors
  pub of_vendor : vendor.id ≡ l.receipt.vendor_id
  pub name : l.vendor_name ≡ vendor.name
  pub initials : l.vendor_initials ≡ vendor.initials
  pub color : l.vendor_color ≡ vendor.color

-- How many vendors have the identifier.
abbrev pub vendors_with : String → List VendorRow → ℕ
vendors_with vendor_id [] = 0
vendors_with vendor_id (v ∷ vendors) =
    (if v.id == vendor_id then 1 else 0) + vendors_with vendor_id vendors

-- How often a receipt is to be listed: once for each of its vendors.
abbrev pub listings : (id site_id status : String) → List VendorRow → List ReceiptRow → ℕ
listings id site_id status vendors [] = 0
listings id site_id status vendors (r ∷ rows) =
    (if r.id == id && (r.site_id == site_id && r.status == status)
      then vendors_with r.vendor_id vendors
      else 0)
    + listings id site_id status vendors rows

length-take_le : {A : Type 0} (n : ℕ) (xs : List A) → length (take n xs) ≤ n
length-take_le zero xs = omega arith
length-take_le (suc n) [] = omega arith
length-take_le (suc n) (x ∷ xs) = omega (arith, length-take_le n xs)

take-take : {A : Type 0} (n : ℕ) (xs : List A) → take n (take (suc n) xs) ≡ take n xs
take-take zero xs = refl
take-take (suc n) [] = refl
take-take (suc n) (x ∷ xs) = ap (λ l. x ∷ l) (take-take n xs)

length-take_more :
    {A : Type 0} (n : ℕ) (xs : List A) → ltb n (length (take (suc n) xs)) ≡ ltb n (length xs)
length-take_more zero [] = refl
length-take_more zero (x ∷ xs) = ground arith
length-take_more (suc n) [] = refl
length-take_more (suc n) (x ∷ xs) = ground (arith, length-take_more n xs)

members_listed : {A : Type 0} (xs : List A) → All (λ x. IsIn x xs) xs
members_listed [] = tt
members_listed (x ∷ xs) = (inl refl, All-map xs (λ y at. inr at) (members_listed xs))

newest_first-IsOrder : IsOrder newest_first
newest_first-IsOrder = record {
  total = λ a b h. text_le_total b.receipt.created_at a.receipt.created_at h;
  trans =
      λ a b c h k. text_le_trans c.receipt.created_at b.receipt.created_at a.receipt.created_at k h;
}

module _ (w : World) (site_id status : String) where
  listed-All :
      (r : ReceiptRow) (vendors : List VendorRow)
      → IsIn r w.receipts
      → r.site_id ≡ site_id
      → r.status ≡ status
      → All (λ v. IsIn v w.vendors) vendors
      → All (IsListed w site_id status) (map (listed r) (select (λ v. v.id == r.vendor_id) vendors))
  listed-All r [] stored at in_status h = tt
  listed-All r (v ∷ vendors) stored at in_status (h, hs) = elim (Bool-cases (v.id == r.vendor_id)) [
    | inl e ↦ rw e (
      record {
        vendor = v;
        stored = stored;
        at_site = at;
        in_status = in_status;
        vendor_stored = h;
        of_vendor = (eq_iff v.id r.vendor_id).0 e;
        name = refl;
        initials = refl;
        color = refl;
      },
      listed-All r vendors stored at in_status hs,
    )
    | inr n ↦ rw n (listed-All r vendors stored at in_status hs)
  ]

  with_vendors-All :
      (rows : List ReceiptRow)
      → All (λ r. IsIn r w.receipts) rows
      → All
          (IsListed w site_id status)
          (with_vendors w.vendors (select (of_status site_id status) rows))
  with_vendors-All [] h = tt
  with_vendors-All (r ∷ rows) (h, hs) = elim (Bool-cases (of_status site_id status r)) [
    | inl e ↦ rw e (
        All-append (IsListed w site_id status)
          (map (listed r) (select (λ v. v.id == r.vendor_id) w.vendors))
          (with_vendors w.vendors (select (of_status site_id status) rows))
          (listed-All r w.vendors h (ground (arith, e, eq_iff r.site_id site_id))
            (ground (arith, e, eq_iff r.status status)) (members_listed w.vendors))
          (with_vendors-All rows hs))
    | inr n ↦ rw n (with_vendors-All rows hs)
  ]

  count-listed :
      (id : String) (r : ReceiptRow) (vendors : List VendorRow)
      → count (λ l. l.receipt.id == id) (map (listed r) (select (λ v. v.id == r.vendor_id) vendors))
        ≡ (if r.id == id then vendors_with r.vendor_id vendors else 0)
  count-listed id r [] = ground arith
  count-listed id r (v ∷ vendors) = ground (arith, count-listed id r vendors)

  count-with_vendors :
      (id : String) (rows : List ReceiptRow)
      → count
          (λ l. l.receipt.id == id)
          (with_vendors w.vendors (select (of_status site_id status) rows))
        ≡ listings id site_id status w.vendors rows
  count-with_vendors id [] = refl
  count-with_vendors id (r ∷ rows) = elim (Bool-cases (of_status site_id status r)) [
    | inl e ↦
        let both =
          count-append (λ l. l.receipt.id == id)
            (map (listed r) (select (λ v. v.id == r.vendor_id) w.vendors))
            (with_vendors w.vendors (select (of_status site_id status) rows)) in
        rw e (both ∙ ground (arith, e, count-listed id r w.vendors, count-with_vendors id rows))
    | inr n ↦ rw n (ground (arith, n, count-with_vendors id rows))
  ]

-- What a page is of: all that is to be listed, the newest first.
pub record IsPageOf (w : World) (site_id status : String) (n : ℕ) (page : ReceiptPage)
    : Type 0 where
  pub all : List ListedReceipt
  pub newest : Ordered (λ a b. text_le b.receipt.created_at a.receipt.created_at) all
  pub only : All (IsListed w site_id status) all
  pub every :
      (id : String)
      → count (λ l. l.receipt.id == id) all ≡ listings id site_id status w.vendors w.receipts
  pub receipts : page.receipts ≡ take n all
  pub has_more : page.has_more ≡ ltb n (length all)

-- When the limit reads as a number that is not negative, a page is the beginning of the list of all
-- receipts of the reviewer's site with the status that was asked for, the newest first, each with its
-- vendor and as often as the table has vendors with its vendor's identifier. It has as many as were
-- asked for, if there are, and at most 100; it says whether there are more, and asking for it writes
-- nothing.
pub handle_list_receipts_lem :
    (nan_limit : Act (Unit {0})) (identity : Identity) (status limit cursor : Option String)
    (reviewer : ReviewerContext) (asked : ℕ) (w : World)
    → reviewer_of identity w ≡ (value reviewer, w)
    → parse_int (limit_text limit) ≡ some (plus asked)
    → (page : ReceiptPage) × (handle_list_receipts nan_limit identity status limit cursor w
        ≡ (value page, w))
      × IsPageOf w reviewer.site_id (status_or status) (min asked 100) page
      × (length page.receipts ≤ 100)
unfolding handle_list_receipts query_receipts page_of
handle_list_receipts_lem nan_limit identity status limit cursor reviewer asked w h limited_to =
    let n = min asked 100 in
    let site_id = reviewer.site_id in
    let rows = with_vendors w.vendors (select (of_status site_id (status_or status)) w.receipts) in
    let all = sort newest_first rows in
    let page = page_of (plus n) (query_receipts w site_id (status_or status) (plus n)) in
    (
      page,
      rw (h, limited_to) refl,
      record {
        all = all;
        newest = sort-Ordered newest_first newest_first-IsOrder rows;
        only =
            sort-All (IsListed w site_id (status_or status)) newest_first rows (
              with_vendors-All w site_id (status_or status) w.receipts (members_listed w.receipts));
        every = λ id.
            count-sort (λ l. l.receipt.id == id) newest_first rows
            ∙ count-with_vendors w site_id (status_or status) id w.receipts;
        receipts = take-take n all;
        has_more = length-take_more n all;
      },
      omega (arith, length-take_le n (take (suc n) all)),
    )
