-- ===== src/Reviewers/Queries.antt =====
-- apps/edge/src/handlers/reviewers.ts: `handleReviewerContext`, `handleListReceipts` and
-- `handleReceiptImage`, with the queries `getSitesByOrg` and `getVendorsBySite` of
-- apps/edge/src/db.ts. What the database does with a limit that is not a number is a parameter.
pub mod Laws
use text.Mathlib.Text.{◌==◌}
use challanse.Prelude.{
  ℕ, zero, suc, ◌-◌, Bool, true, false, not, ◌&&◌, Option, none, some, List, [], ◌∷◌, ◌++◌, String,
  map, select, sort, take, length, ltb, leb, min, nat_eq, if◌then◌else◌,
}
use challanse.Json.{text_le}
use challanse.World.{
  World, Act, ReceiptRow, VendorRow, SiteRow, response, pure, gets, or_stop, ◌>>=◌, ◌>>◌,
}
use challanse.Auth.{ReviewerContext, given, or_empty, Signed, plus, minus, parse_int}
use challanse.Uploads.{Bucket}
use challanse.Reviewers.{Identity, reviewer_of, receipt_of_site}

-- `ORDER BY name`
abbrev pub site_le : SiteRow → SiteRow → Bool
site_le a b = text_le a.name b.name

unfoldable pub get_sites_by_org : World → String → List SiteRow
get_sites_by_org w organization_id =
    sort site_le (select (λ s. s.organization_id == organization_id && s.active) w.sites)

-- `ORDER BY display_order, name`
abbrev pub vendor_le : VendorRow → VendorRow → Bool
vendor_le a b =
    if nat_eq a.display_order b.display_order
    then text_le a.name b.name
    else ltb a.display_order b.display_order

unfoldable pub get_vendors_by_site : World → String → List VendorRow
get_vendors_by_site w site_id =
    sort vendor_le (select (λ v. v.site_id == site_id && v.active) w.vendors)

pub record ContextAnswer : Type 0 where
  pub reviewer : ReviewerContext
  -- identifiers and names; identifiers, names, initials and colours
  pub sites : List (String × String)
  pub vendors : List (String × String × String × String)

unfoldable pub handle_reviewer_context : Identity → Act ContextAnswer
handle_reviewer_context identity = do
  reviewer ← reviewer_of identity
  sites ← gets (λ w. get_sites_by_org w reviewer.organization_id)
  vendors ← gets (λ w. get_vendors_by_site w reviewer.site_id)
  pure (record {
    reviewer = reviewer;
    sites = map (λ s. (s.id, s.name)) sites;
    vendors = map (λ v. (v.id, v.name, v.initials, v.color)) vendors;
  })

-- A receipt with its vendor.
pub record ListedReceipt : Type 0 where
  pub receipt : ReceiptRow
  pub vendor_name : String
  pub vendor_initials : String
  pub vendor_color : String

pub record ReceiptPage : Type 0 where
  pub receipts : List ListedReceipt
  pub has_more : Bool
  pub cursor : Option String

abbrev pub listed : ReceiptRow → VendorRow → ListedReceipt
listed r v = record {
  receipt = r;
  vendor_name = v.name;
  vendor_initials = v.initials;
  vendor_color = v.color;
}

-- `JOIN vendors v ON v.id = r.vendor_id`
abbrev pub with_vendors : List VendorRow → List ReceiptRow → List ListedReceipt
with_vendors vendors [] = []
with_vendors vendors (r ∷ rows) =
    map (listed r) (select (λ v. v.id == r.vendor_id) vendors) ++ with_vendors vendors rows

-- `ORDER BY r.created_at DESC`
abbrev pub newest_first : ListedReceipt → ListedReceipt → Bool
newest_first a b = text_le b.receipt.created_at a.receipt.created_at

abbrev pub of_status : (site_id status : String) → ReceiptRow → Bool
of_status site_id status r = r.site_id == site_id && r.status == status

-- `Math.min(n, 100)`
abbrev pub capped : Signed → Signed
capped (plus n) = plus (min n 100)
capped (minus n) = minus n

-- `LIMIT n + 1`; a limit below zero is none.
abbrev pub limited : Signed → List ListedReceipt → List ListedReceipt
limited (plus n) rows = take (suc n) rows
limited (minus zero) rows = take 1 rows
limited (minus (suc zero)) rows = []
limited (minus (suc (suc n))) rows = rows

unfoldable pub query_receipts : World → (site_id status : String) → Signed → List ListedReceipt
query_receipts w site_id status n =
    limited n
      (sort newest_first (with_vendors w.vendors (select (of_status site_id status) w.receipts)))

abbrev pub last_id : List ListedReceipt → Option String
last_id [] = none
last_id (l ∷ []) = some l.receipt.id
last_id (l ∷ m ∷ ls) = last_id (m ∷ ls)

-- `rows.length > limit`
abbrev pub more_than : Signed → ℕ → Bool
more_than (plus n) length = ltb n length
more_than (minus zero) length = ltb 0 length
more_than (minus (suc n)) length = true

-- `rows.slice(0, limit)`; an end below zero is counted from the end.
abbrev pub slice_to : Signed → List ListedReceipt → List ListedReceipt
slice_to (plus n) rows = take n rows
slice_to (minus zero) rows = []
slice_to (minus (suc n)) rows = take (length rows - suc n) rows

-- One row more than the page tells whether there are more.
unfoldable pub page_of : Signed → List ListedReceipt → ReceiptPage
page_of limit rows =
    let has_more = more_than limit (length rows) in
    let receipts = slice_to limit rows in
    record {
      receipts = receipts;
      has_more = has_more;
      cursor = if has_more then last_id receipts else none;
    }

-- No length is above `NaN`, and `slice(0, NaN)` is empty.
abbrev pub no_page : ReceiptPage
no_page = record { receipts = []; has_more = false; cursor = none }

abbrev pub status_or : Option String → String
status_or status = if given status then or_empty status else "NEEDS_REVIEW"

-- `url.searchParams.get('limit') || '25'`
abbrev pub limit_text : Option String → String
limit_text limit = if given limit then or_empty limit else "25"

-- The query and the page of a limit; `none` is `NaN`.
abbrev pub list_page : Act (Unit {0}) → (site_id status : String) → Option Signed → Act ReceiptPage
list_page nan_limit site_id status none = do nan_limit; pure no_page
list_page nan_limit site_id status (some n) = do
  rows ← gets (λ w. query_receipts w site_id status (capped n))
  pure (page_of (capped n) rows)

-- The cursor of the request is read and not used. `nan_limit` is what the statement with the limit
-- `NaN` does.
unfoldable pub handle_list_receipts :
    Act (Unit {0}) → Identity → (status limit cursor : Option String) → Act ReceiptPage
handle_list_receipts nan_limit identity status limit cursor = do
  reviewer ← reviewer_of identity
  list_page nan_limit reviewer.site_id (status_or status) (parse_int (limit_text limit))

pub record ImageAnswer : Type 0 where
  pub content_type : String
  pub body : List ℕ

unfoldable pub handle_receipt_image : Bucket → Identity → (receipt_id : String) → Act ImageAnswer
handle_receipt_image b identity receipt_id = do
  reviewer ← reviewer_of identity
  receipt ← receipt_of_site reviewer.site_id receipt_id
  found ← gets (λ w. b.get receipt.image_key w.objects)
  body ← or_stop found (response 404 "IMAGE_NOT_FOUND")
  pure (record {
    content_type = if receipt.mime_type == "" then "image/webp" else receipt.mime_type;
    body = body;
  })
