-- ===== src/Admin/Summary.antt =====
-- apps/edge/src/handlers/admin.ts: `handleAdminSummary` and `handleAdminConfiguration`.
use text.Mathlib.Text.{◌==◌}
use challanse.Prelude.{
  ℕ, ◌+◌, Bool, ◌&&◌, not, Option, none, some, List, [], ◌∷◌, ◌++◌, String, map, select, sort,
  length, if◌then◌else◌, take_string,
}
use challanse.Json.{text_le}
use challanse.World.{
  World, Platform, Act, OrganizationRow, SiteRow, VendorRow, ReviewerRow, DeviceRow, ReceiptRow,
  gets, ◌>>=◌, now_iso,
}
use challanse.Auth.{get_organization}
use challanse.Uploads.Create.{total_image_bytes}
use challanse.Reviewers.{Identity, reviewer_as}
use challanse.Reviewers.Queries.{get_sites_by_org, vendor_le}
use challanse.Admin.{admins}

-- `JOIN sites s ON s.id = r.site_id AND s.organization_id = ?`: a receipt for each such site.
abbrev pub org_receipts : World → String → List ReceiptRow → List ReceiptRow
org_receipts w organization_id [] = []
org_receipts w organization_id (r ∷ rows) =
    map (λ _. r) (select (λ s. s.id == r.site_id && s.organization_id == organization_id) w.sites)
    ++ org_receipts w organization_id rows

-- A `SUM` over no row is null.
abbrev pub sum_or_null : List DeviceRow → (DeviceRow → Bool) → Option ℕ
sum_or_null [] q = none
sum_or_null (d ∷ ds) q = some (length (select q (d ∷ ds)))

abbrev pub count_status : String → List (String × ℕ) → List (String × ℕ)
count_status s [] = (s, 1) ∷ []
count_status s ((t, n) ∷ counts) =
    if s == t then (t, n + 1) ∷ counts else (t, n) ∷ count_status s counts

abbrev pub counted_le : (String × ℕ) → (String × ℕ) → Bool
counted_le a b = text_le a.0 b.0

-- `GROUP BY r.status`
abbrev pub by_status : List ReceiptRow → List (String × ℕ)
by_status [] = []
by_status (r ∷ rows) = count_status r.status (by_status rows)

pub record Summary : Type 0 where
  pub organization : Option OrganizationRow
  pub devices_total : ℕ
  pub devices_active : Option ℕ
  pub devices_inactive : Option ℕ
  pub receipts : List (String × ℕ)
  pub reviewers : ℕ
  pub sites : ℕ
  pub today_receipts : ℕ
  pub storage_used_bytes : ℕ

unfoldable pub summary_of :
    World → (organization_id today : String) → Option OrganizationRow → Summary
summary_of w organization_id today organization =
    let devices = select (λ d. d.organization_id == organization_id) w.devices in
    let receipts = org_receipts w organization_id w.receipts in
    record {
      organization = organization;
      devices_total = length devices;
      devices_active = sum_or_null devices (λ d. d.active);
      devices_inactive = sum_or_null devices (λ d. not d.active);
      receipts = sort counted_le (by_status receipts);
      reviewers =
          length (select (λ r. r.organization_id == organization_id && r.active) w.reviewers);
      sites = length (get_sites_by_org w organization_id);
      today_receipts = length (select (λ r. take_string 10 r.created_at == today) receipts);
      storage_used_bytes = total_image_bytes receipts;
    }

unfoldable pub handle_admin_summary : Platform → Identity → Act Summary
handle_admin_summary p identity = do
  reviewer ← reviewer_as admins identity
  organization ← gets (λ w. get_organization w reviewer.organization_id)
  today ← now_iso p
  gets (λ w. summary_of w reviewer.organization_id (take_string 10 today) organization)

pub record Configuration : Type 0 where
  pub organization : Option OrganizationRow
  pub sites : List SiteRow
  pub vendors : List VendorRow
  pub reviewers : List ReviewerRow

-- `ORDER BY r.email`
abbrev pub email_le : ReviewerRow → ReviewerRow → Bool
email_le a b = text_le a.email b.email

unfoldable pub handle_admin_configuration : Identity → Act Configuration
handle_admin_configuration identity = do
  reviewer ← reviewer_as admins identity
  gets (λ w. record {
    organization = get_organization w reviewer.organization_id;
    sites = get_sites_by_org w reviewer.organization_id;
    vendors =
        sort vendor_le (select (λ v. v.organization_id == reviewer.organization_id) w.vendors);
    reviewers =
        sort email_le (select (λ r. r.organization_id == reviewer.organization_id) w.reviewers);
  })
