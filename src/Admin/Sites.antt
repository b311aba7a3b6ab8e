-- ===== src/Admin/Sites.antt =====
-- apps/edge/src/handlers/admin.ts: `handleUpsertSite` and `handleUpsertVendor`.
use text.Mathlib.Text.{◌==◌}
use challanse.Prelude.{
  ℕ, Bool, true, ◌&&◌, ◌||◌, not, Option, none, some, List, [], ◌∷◌, String, update, add_last,
  or_else, if◌then◌else◌, is_none, take_string, upper_string,
}
use challanse.Json.{str, arr, Fields, end, field, print}
use challanse.World.{Platform, Act, response, pure, modify, guard, ◌>>=◌, ◌>>◌, draw_uuid, now_iso}
use challanse.Auth.{ReviewerContext, given, or_empty}
use challanse.Audit.Events.{members, site_changed_event, config_changed_event, vendor_changed_event}
use challanse.Graph.{append_field, ensure_site_in_graph, ensure_vendor_in_graph}
use challanse.Reviewers.{Identity, reviewer_as, chain_at}
use challanse.Admin.{admins, number, optional_number, text_items, list_or_empty, audit_timed}

pub record SiteBody : Type 0 where
  pub id : Option String
  pub name : Option String
  pub allowed_wifi_ssids : Option (List String)
  pub configuration_version : Option ℕ
  pub daily_receipt_limit : Option ℕ
  pub image_byte_limit : Option ℕ
  pub storage_byte_limit : Option ℕ

-- `JSON.stringify(body.allowedWifiSsids || [])`
abbrev pub ssids_json : SiteBody → String
ssids_json body = or_empty (print none (arr (text_items (list_or_empty body.allowed_wifi_ssids))))

-- `UPDATE sites SET … WHERE id = ? AND organization_id = ?`
unfoldable pub update_site : (organization_id site_id now : String) → SiteBody → Act (Unit {0})
update_site organization_id site_id now body = modify (λ w. record w {
  sites =
      update (λ s. s.id == site_id && s.organization_id == organization_id)
        (λ s. record s {
          name = or_empty body.name;
          allowed_wifi_ssids_json = ssids_json body;
          configuration_version = or_else body.configuration_version 1;
          daily_receipt_limit = or_else body.daily_receipt_limit 100;
          image_byte_limit = or_else body.image_byte_limit 10000000;
          storage_byte_limit = or_else body.storage_byte_limit 1000000000;
          updated_at = now;
        })
        w.sites;
})

unfoldable pub insert_site : (organization_id site_id now : String) → SiteBody → Act (Unit {0})
insert_site organization_id site_id now body = modify (λ w. record w {
  sites = add_last w.sites (record {
    id = site_id;
    organization_id = organization_id;
    name = or_empty body.name;
    active = true;
    allowed_wifi_ssids_json = ssids_json body;
    configuration_version = or_else body.configuration_version 1;
    daily_receipt_limit = or_else body.daily_receipt_limit 100;
    image_byte_limit = or_else body.image_byte_limit 10000000;
    storage_byte_limit = or_else body.storage_byte_limit 1000000000;
    created_at = now;
    updated_at = now;
  });
})

abbrev pub add_number : String → Option ℕ → Fields → Fields
add_number k none fs = fs
add_number k (some n) fs = append_field fs k (number n)

-- `siteChanges`
unfoldable pub site_changes : SiteBody → Fields
site_changes body = add_number "storageByteLimit" body.storage_byte_limit (
    add_number "imageByteLimit" body.image_byte_limit (
      add_number "dailyReceiptLimit" body.daily_receipt_limit
        (field "name" (str (or_empty body.name)) end)))

abbrev pub changes_configuration : SiteBody → Bool
changes_configuration body =
    not (is_none body.daily_receipt_limit)
    || (not (is_none body.image_byte_limit)
        || (not (is_none body.storage_byte_limit) || not (is_none body.configuration_version)))

abbrev pub audit_site : Platform → ReviewerContext → String → SiteBody → Act (Unit {0})
audit_site p reviewer site_id body = do
  audit_timed p (chain_at reviewer.organization_id site_id) "SITE_CHANGED" (
      site_changed_event site_id reviewer.organization_id reviewer.email
        (if given body.id then "updated" else "created") (site_changes body))
  if changes_configuration body
      then audit_timed p (chain_at reviewer.organization_id site_id) "CONFIG_CHANGED" (
          config_changed_event reviewer.email reviewer.organization_id (
            append_field (site_changes body) "configuration_version"
              (optional_number body.configuration_version)))
      else pure tt

-- `body.id || uuid()`
abbrev pub id_or_new : Platform → Option String → Act String
id_or_new p id = if given id then pure (or_empty id) else draw_uuid p

abbrev pub write_site : Bool → (organization_id site_id now : String) → SiteBody → Act (Unit {0})
write_site there organization_id site_id now body =
    if there
    then update_site organization_id site_id now body
    else insert_site organization_id site_id now body

abbrev pub site_properties : SiteBody → Fields
site_properties body = members (
    ("name", str (or_empty body.name))
    ∷ ("allowed_wifi_ssids", arr (text_items (list_or_empty body.allowed_wifi_ssids)))
    ∷ ("configuration_version", number (or_else body.configuration_version 1))
    ∷ [])

abbrev pub record_site : Platform → ReviewerContext → String → SiteBody → Act (Unit {0})
record_site p reviewer site_id body =
    ensure_site_in_graph p site_id reviewer.organization_id (site_properties body)

-- Returns the identifier and the name.
unfoldable pub handle_upsert_site : Platform → Identity → SiteBody → Act (String × String)
handle_upsert_site p identity body = do
  reviewer ← reviewer_as admins identity
  guard (given body.name) (response 400 "MISSING_NAME")
  now ← now_iso p
  site_id ← id_or_new p body.id
  write_site (given body.id) reviewer.organization_id site_id now body
  record_site p reviewer site_id body
  audit_site p reviewer site_id body
  pure (site_id, or_empty body.name)

pub record VendorBody : Type 0 where
  pub id : Option String
  pub site_id : Option String
  pub name : Option String
  pub initials : Option String
  pub color : Option String
  pub display_order : Option ℕ

-- `text || other`
abbrev pub text_or : Option String → String → String
text_or o other = if given o then or_empty o else other

-- `body.name.slice(0, 2).toUpperCase()`
abbrev pub default_initials : VendorBody → String
default_initials body = upper_string (take_string 2 (or_empty body.name))

unfoldable pub update_vendor : (vendor_id site_id now : String) → VendorBody → Act (Unit {0})
update_vendor vendor_id site_id now body = modify (λ w. record w {
  vendors =
      update (λ v. v.id == vendor_id && v.site_id == site_id)
        (λ v. record v {
          name = or_empty body.name;
          initials = or_empty body.initials;
          color = text_or body.color "#666666";
          display_order = or_else body.display_order 0;
          updated_at = now;
        })
        w.vendors;
})

unfoldable pub insert_vendor :
    (organization_id vendor_id site_id now : String) → VendorBody → Act (Unit {0})
insert_vendor organization_id vendor_id site_id now body = modify (λ w. record w {
  vendors = add_last w.vendors (record {
    id = vendor_id;
    site_id = site_id;
    organization_id = organization_id;
    name = or_empty body.name;
    initials = text_or body.initials (default_initials body);
    color = text_or body.color "#666666";
    display_order = or_else body.display_order 0;
    active = true;
    created_at = now;
    updated_at = now;
  });
})

unfoldable pub handle_upsert_vendor : Platform → Identity → VendorBody → Act (String × String)
handle_upsert_vendor p identity body = do
  reviewer ← reviewer_as admins identity
  guard (given body.name) (response 400 "MISSING_NAME")
  now ← now_iso p
  vendor_id ← id_or_new p body.id
  let site_id = text_or body.site_id reviewer.site_id
  if given body.id
      then update_vendor vendor_id site_id now body
      else insert_vendor reviewer.organization_id vendor_id site_id now body
  ensure_vendor_in_graph p vendor_id site_id (
      members (
        ("name", str (or_empty body.name))
        ∷ ("initials", str (text_or body.initials (default_initials body)))
        ∷ ("color", str (text_or body.color "#666666"))
        ∷ ("display_order", number (or_else body.display_order 0))
        ∷ []))
  audit_timed p (chain_at reviewer.organization_id site_id) "VENDOR_CHANGED" (
      vendor_changed_event vendor_id site_id reviewer.organization_id reviewer.email
        (if given body.id then "updated" else "created"))
  pure (vendor_id, or_empty body.name)
