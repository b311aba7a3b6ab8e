-- ===== src/Tests/Reviewers.antt =====
-- A reviewer of a small site with a receipt and an invitation, and the theorems on them.
use text.Mathlib.Text.{◌==◌}
use challanse.Prelude.{
  is_space, ◌≡◌, refl, ◌≤◌, true, none, some, [], ◌∷◌, find, length, print_number,
}
use challanse.Json.{stringify_sorted, quote}
use challanse.Audit.Hash.{canonical_event}
use challanse.World.{
  World, ReceiptRow, ReviewerRow, InvitationRow, VendorRow, value, foreign_key, stop, pure,
}
use challanse.World.Laws.{Refused}
use challanse.Auth.{ReviewerContext, plus, parse_int, authenticate_reviewer, get_reviewer}
use challanse.Audit.Chain.{append_audit_event, get_or_create_chain, create_chain, append_to_head}
use challanse.Reviewers.{Identity, reviewer_of, get_receipt}
use challanse.Reviewers.Review.{ReviewBody, save_review, handle_review}
use challanse.Reviewers.Review.Laws.{handle_review-stale}
use challanse.Reviewers.Review.Rewrites.{Rewritten, Replaces, save_review-Rewritten}
use challanse.Reviewers.Membership.{Membership, handle_accept_membership, join}
use challanse.Reviewers.Membership.Laws.{
  handle_accept_membership_once, handle_accept_membership-member,
}
use challanse.Reviewers.Invoices.{InvoiceBody}
use challanse.Reviewers.Queries.{ReceiptPage, handle_list_receipts, limit_text}
use challanse.Reviewers.Queries.Laws.{IsPageOf, handle_list_receipts_lem}
use challanse.Tests.Access.{platform, site_world}

abbrev identity : Identity
identity = record { issuer = "iss"; subject = "sub"; email = "r@x" }

abbrev reviewer_row : ReviewerRow
reviewer_row = record {
  email = "r@x";
  site_id = "s1";
  organization_id = "o1";
  role = "VIEWER";
  active = true;
  subject = "sub";
  issuer = "iss";
  created_at = "0";
  updated_at = none;
}

abbrev reviewer : ReviewerContext
reviewer = record {
  user_id = "r@x";
  organization_id = "o1";
  site_id = "s1";
  role = "VIEWER";
  email = "r@x";
  issuer = "iss";
  subject = "sub";
}

abbrev receipt_row : ReceiptRow
receipt_row = record {
  id = "r1";
  site_id = "s1";
  device_id = "d1";
  vendor_id = "v1";
  captured_at_unix = 5;
  captured_quantity = 7;
  image_key = "k";
  image_bytes = 4;
  image_sha256 = "10";
  mime_type = "image/webp";
  status = "NEEDS_REVIEW";
  version = 3;
  enrichment_status = "PENDING";
  challan_number = "";
  material_description = "";
  verified_quantity = none;
  unit = "";
  notes = "";
  po_number = "";
  material_code = "";
  reviewed_by = none;
  reviewed_at = none;
  created_at = "0";
  updated_at = "0";
}

abbrev vendor_row : VendorRow
vendor_row = record {
  id = "v1";
  site_id = "s1";
  organization_id = "o1";
  name = "Vendor";
  initials = "VE";
  color = "red";
  display_order = 0;
  active = true;
  created_at = "0";
  updated_at = "0";
}

-- The invitation is to another organization.
abbrev invitation_row : InvitationRow
invitation_row = record {
  id = "i1";
  organization_id = "o2";
  site_id = "s2";
  email = "r@x";
  role = "ORG_ADMIN";
  invited_by = "a@y";
  expires_at = none;
  active = true;
  created_at = "0";
}

abbrev review_world : World
review_world = record site_world {
  reviewers = reviewer_row ∷ [];
  receipts = receipt_row ∷ [];
  vendors = vendor_row ∷ [];
  invitations = invitation_row ∷ [];
}

abbrev verification_body : ReviewBody
verification_body = record {
  action = some "VERIFY";
  version = some 3;
  challan_number = none;
  po_number = some "PO1";
  material_code = none;
  material_description = none;
  verified_quantity = some 7;
  unit = none;
  notes = none;
}

-- The graph has no node for the reviewer's subject: the row is written, and the handler throws.
save_review-Rewritten_example :
    ((save_review platform reviewer verification_body "r1" receipt_row review_world).0
      ≡ stop foreign_key)
    × Rewritten
        (Replaces true verification_body reviewer "r1" receipt_row "1000000")
        (receipt_row ∷ [])
        (save_review platform reviewer verification_body "r1" receipt_row review_world).1.receipts
unfolding print_number
save_review-Rewritten_example =
    save_review-Rewritten platform reviewer verification_body "r1" receipt_row review_world

handle_review-stale_example :
    Refused (save_review platform reviewer verification_body "r1" receipt_row review_world).1 (
      handle_review platform identity "r1"
        (some verification_body)
        (save_review platform reviewer verification_body "r1" receipt_row review_world).1)
unfolding get_receipt
handle_review-stale_example =
    handle_review-stale platform reviewer verification_body verification_body "r1" receipt_row
      identity review_world refl refl

abbrev membership : Membership
membership = record { email = "r@x"; organization_id = "o2"; site_id = "s2"; role = "ORG_ADMIN" }

handle_accept_membership_once_example :
    Refused (handle_accept_membership platform identity (some "i1") review_world).1 (
      handle_accept_membership platform identity
        (some "i1")
        (handle_accept_membership platform identity (some "i1") review_world).1)
unfolding handle_accept_membership join append_audit_event get_or_create_chain create_chain
    append_to_head canonical_event stringify_sorted quote print_number
handle_accept_membership_once_example =
    handle_accept_membership_once platform identity identity (some "i1") membership review_world
      (handle_accept_membership platform identity (some "i1") review_world).1 refl

handle_accept_membership-member_example :
    (find
        (λ r. r.email == "r@x")
        (handle_accept_membership platform identity (some "i1") review_world).1.reviewers
      ≡ some (record reviewer_row { site_id = "s2"; role = "ORG_ADMIN" }))
    × (membership
        ≡ record { email = "r@x"; organization_id = "o2"; site_id = "s2"; role = "ORG_ADMIN" })
unfolding handle_accept_membership join append_audit_event get_or_create_chain create_chain
    append_to_head canonical_event stringify_sorted quote print_number
handle_accept_membership-member_example =
    handle_accept_membership-member platform identity "i1" membership invitation_row reviewer_row
      review_world (handle_accept_membership platform identity (some "i1") review_world).1 refl refl
      refl

abbrev invoice : InvoiceBody
invoice = record {
  receipt_ids = some ("r1" ∷ "r2" ∷ "r1" ∷ []);
  po_number = some "PO1";
  material_code = some "M1";
  verified_quantity = some 7;
  unit = none;
}

reviewer_known : reviewer_of identity review_world ≡ (value reviewer, review_world)
unfolding reviewer_of authenticate_reviewer get_reviewer
reviewer_known = refl

limit_read : parse_int (limit_text (some "5")) ≡ some (plus 5)
unfolding parse_int is_space
limit_read = refl

handle_list_receipts_lem_example :
    (page : ReceiptPage) × (handle_list_receipts
        (pure tt)
        identity
        none
        (some "5")
        none
        review_world
      ≡ (value page, review_world))
    × IsPageOf review_world "s1" "NEEDS_REVIEW" 5 page
    × (length page.receipts ≤ 100)
handle_list_receipts_lem_example =
    handle_list_receipts_lem (pure tt) identity none (some "5") none reviewer 5 review_world
      reviewer_known limit_read
