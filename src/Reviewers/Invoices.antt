-- ===== src/Reviewers/Invoices.antt =====
-- apps/edge/src/handlers/reviewers.ts: `handleCreateInvoice` and `handleInvoiceImage`. A unit is a text
-- of code units, as the import of orders has it.
pub mod Laws
use Prim.Native.String.{◌++◌}
use text.Mathlib.Text.{◌==◌}
use challanse.Prelude.{
  ℕ, ◌+◌, ◌/◌, Bool, true, false, not, ◌&&◌, Option, none, some, List, [], ◌∷◌, String, Text, codes,
  update, add_last, ltb, length, is_none, if◌then◌else◌, truthy_number,
}
use challanse.World.{
  Platform, Act, VerifiedReceiptRow, response, pure, modify, guard, or_stop, ◌>>=◌, ◌>>◌, draw_uuid,
  read_clock, now_iso,
}
use challanse.Auth.{ReviewerContext, given, or_empty, exists, Signed, plus, minus, parse_int}
use challanse.Audit.Events.{invoice_created_event}
use challanse.Audit.Chain.{append_audit_event}
use challanse.Tally.Units.{normalize_unit}
use challanse.Uploads.{Bucket, modify_objects}
use challanse.Uploads.Create.{insert_receipt}
use challanse.Reviewers.{Identity, reviewer_as, chain_of_reviewer}

pub record InvoiceBody : Type 0 where
  pub receipt_ids : Option (List String)
  pub po_number : Option String
  pub material_code : Option String
  pub verified_quantity : Option ℕ
  pub unit : Option String

pub record CreatedInvoice : Type 0 where
  pub invoice_id : String
  pub receipt_ids : List String
  pub po_number : String
  pub status : String

abbrev pub invoice_roles : List String
invoice_roles = "ORG_ADMIN" ∷ "SITE_ADMIN" ∷ "CONTROLLER" ∷ "AUDITOR" ∷ []

abbrev pub ids_of : Option (List String) → List String
ids_of none = []
ids_of (some ids) = ids

abbrev pub some_ids : List String → Bool
some_ids [] = false
some_ids (_ ∷ _) = true

abbrev pub invoice_complete : InvoiceBody → Bool
invoice_complete b =
    some_ids (ids_of b.receipt_ids)
    && (given b.po_number && (given b.material_code && truthy_number b.verified_quantity))

-- `body.unit || 'NOS'`
abbrev pub unit_or_nos : Option String → Text
unit_or_nos unit = if given unit then codes (or_empty unit) else codes "NOS"

abbrev pub or_none : Option ℕ → ℕ
or_none none = 0
or_none (some n) = n

-- The row that the statement inserts for a receipt.
unfoldable pub verified_row :
    ReviewerContext → InvoiceBody → (now receipt_id : String) → VerifiedReceiptRow
verified_row reviewer body now receipt_id = record {
  receipt_id = receipt_id;
  organization_id = reviewer.organization_id;
  site_id = reviewer.site_id;
  po_number = or_empty body.po_number;
  material_code = or_empty body.material_code;
  verified_quantity = or_none body.verified_quantity;
  unit = normalize_unit (unit_or_nos body.unit);
  reviewer_id = reviewer.email;
  review_version = 1;
  reviewed_at = now;
}

-- `ON CONFLICT(receipt_id) DO UPDATE SET …`
abbrev pub overwritten : (new old : VerifiedReceiptRow) → VerifiedReceiptRow
overwritten new old = record old {
  po_number = new.po_number;
  material_code = new.material_code;
  verified_quantity = new.verified_quantity;
  unit = new.unit;
  reviewer_id = new.reviewer_id;
  review_version = old.review_version + 1;
}

abbrev pub put_verified : VerifiedReceiptRow → List VerifiedReceiptRow → List VerifiedReceiptRow
put_verified row rows =
    if exists (λ r. r.receipt_id == row.receipt_id) rows
    then update (λ r. r.receipt_id == row.receipt_id) (overwritten row) rows
    else add_last rows row

abbrev pub put_all :
    (String → VerifiedReceiptRow) → List String → List VerifiedReceiptRow → List VerifiedReceiptRow
put_all row [] rows = rows
put_all row (id ∷ ids) rows = put_all row ids (put_verified (row id) rows)

abbrev pub audit_invoice : Platform → ReviewerContext → String → Act (Unit {0})
audit_invoice p reviewer invoice_id = do
  at ← now_iso p
  _ ←
      append_audit_event p (chain_of_reviewer reviewer) "INVOICE_CREATED" (
        invoice_created_event invoice_id reviewer.email reviewer.site_id reviewer.organization_id
          at)
  pure tt

unfoldable pub save_invoice : Platform → ReviewerContext → InvoiceBody → Act CreatedInvoice
save_invoice p reviewer body = do
  invoice_id ← draw_uuid p
  now ← now_iso p
  modify (λ w. record w {
    verified = put_all (verified_row reviewer body now) (ids_of body.receipt_ids) w.verified;
  })
  audit_invoice p reviewer invoice_id
  pure (record {
    invoice_id = invoice_id;
    receipt_ids = ids_of body.receipt_ids;
    po_number = or_empty body.po_number;
    status = "CREATED";
  })

-- `sent` is `none` where the request's body is no JSON.
unfoldable pub handle_create_invoice : Platform → Identity → Option InvoiceBody → Act CreatedInvoice
handle_create_invoice p identity sent = do
  reviewer ← reviewer_as invoice_roles identity
  body ← or_stop sent (response 400 "INVALID_REQUEST")
  guard (invoice_complete body) (response 400 "MISSING_FIELDS")
  save_invoice p reviewer body

pub record StoredInvoice : Type 0 where
  pub receipt_id : String
  pub image_bytes : ℕ
  pub image_sha256 : String
  pub status : String

-- `contentLength > 10_000_000`, which is false for `NaN`.
abbrev pub too_long : Option Signed → Bool
too_long none = false
too_long (some (plus n)) = ltb 10000000 n
too_long (some (minus n)) = false

abbrev pub invoice_key : ReviewerContext → String → String
invoice_key r receipt_id =
    "invoices/" ++ (r.organization_id ++ ("/" ++ (r.site_id ++ ("/" ++ (receipt_id ++ ".webp")))))

abbrev pub length_header : Option String → String
length_header o = if given o then or_empty o else "0"

unfoldable pub handle_invoice_image :
    Platform
    → Bucket
    → Identity
    → (content_type content_length : Option String) → List ℕ
    → Act StoredInvoice
handle_invoice_image p b identity content_type content_length body = do
  reviewer ← reviewer_as invoice_roles identity
  guard (not (too_long (parse_int (length_header content_length)))) (response 413 "IMAGE_TOO_LARGE")
  let image_sha256 = p.sha256_bytes body
  receipt_id ← draw_uuid p
  let image_key = invoice_key reviewer receipt_id
  modify_objects (b.put image_key body (or_empty content_type))
  now ← now_iso p
  captured ← read_clock p
  insert_receipt (record {
    id = receipt_id;
    site_id = reviewer.site_id;
    device_id = "";
    vendor_id = "";
    captured_at_unix = captured / 1000;
    captured_quantity = 0;
    image_key = image_key;
    image_bytes = length body;
    image_sha256 = image_sha256;
    mime_type = or_empty content_type;
    status = "NEEDS_REVIEW";
    version = 1;
    enrichment_status = "IMAGE_STORED";
    challan_number = "";
    material_description = "";
    verified_quantity = none;
    unit = "";
    notes = "";
    po_number = "";
    material_code = "";
    reviewed_by = none;
    reviewed_at = none;
    created_at = now;
    updated_at = now;
  })
  audit_invoice p reviewer receipt_id
  pure (record {
    receipt_id = receipt_id;
    image_bytes = length body;
    image_sha256 = image_sha256;
    status = "NEEDS_REVIEW";
  })
