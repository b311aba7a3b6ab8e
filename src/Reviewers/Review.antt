-- ===== src/Reviewers/Review.antt =====
-- apps/edge/src/handlers/reviewers.ts: `handleReview`.
pub mod Laws
pub mod Rewrites
use Prim.Native.String.{◌++◌}
use text.Mathlib.Text.{◌==◌}
use challanse.Prelude.{
  ℕ, ◌+◌, Bool, true, false, ◌&&◌, ◌||◌, Option, none, some, List, [], ◌∷◌, String, update,
  if◌then◌else◌, or_else, nat_eq, print_number,
}
use challanse.Json.{str, num}
use challanse.World.{
  Platform, Act, ReceiptRow, response, pure, modify, guard, or_stop, ◌>>=◌, ◌>>◌, now_iso,
}
use challanse.Auth.{ReviewerContext, or_empty}
use challanse.Audit.Events.{members, receipt_reviewed_event, invoice_verified_event}
use challanse.Audit.Chain.{append_audit_event}
use challanse.Graph.{upsert_graph_edge}
use challanse.Reviewers.{Identity, reviewer_of, chain_of_reviewer, receipt_of_site}

pub record ReviewBody : Type 0 where
  pub action : Option String
  pub version : Option ℕ
  pub challan_number : Option String
  pub po_number : Option String
  pub material_code : Option String
  pub material_description : Option String
  pub verified_quantity : Option ℕ
  pub unit : Option String
  pub notes : Option String

pub record Reviewed : Type 0 where
  pub receipt_id : String
  pub status : String
  pub version : ℕ

-- `!body.action || !['VERIFY', 'REJECT'].includes(body.action)`
abbrev pub is_action : Option String → Bool
is_action none = false
is_action (some a) = a == "VERIFY" || a == "REJECT"

-- `body.version !== undefined && body.version !== receipt.version`
abbrev pub same_version : Option ℕ → ℕ → Bool
same_version none n = true
same_version (some m) n = nat_eq m n

abbrev pub or_other {ℓ} : {A : Type ℓ} → Option A → Option A → Option A
or_other none o = o
or_other (some a) o = some a

abbrev pub next_status : Bool → String
next_status verify = if verify then "VERIFIED" else "REJECTED"

-- The columns that a review sets.
unfoldable pub reviewed_row :
    Bool → ReviewBody → (email now : String) → (receipt row : ReceiptRow) → ReceiptRow
reviewed_row true body email now receipt row = record row {
  status = "VERIFIED";
  version = receipt.version + 1;
  challan_number = or_else body.challan_number receipt.challan_number;
  po_number = or_else body.po_number receipt.po_number;
  material_code = or_else body.material_code receipt.material_code;
  material_description = or_else body.material_description receipt.material_description;
  verified_quantity = or_other body.verified_quantity receipt.verified_quantity;
  unit = or_else body.unit receipt.unit;
  reviewed_by = some email;
  reviewed_at = some now;
  notes = or_else body.notes receipt.notes;
  updated_at = now;
}
reviewed_row false body email now receipt row = record row {
  status = "REJECTED";
  version = receipt.version + 1;
  notes = or_else body.notes receipt.notes;
  reviewed_by = some email;
  reviewed_at = some now;
  updated_at = now;
}

-- `WHERE id = ? AND version = ?`
abbrev pub at_version : String → ℕ → ReceiptRow → Bool
at_version receipt_id version r = r.id == receipt_id && nat_eq r.version version

abbrev pub write_review :
    Bool → ReviewBody → (email now receipt_id : String) → ReceiptRow → Act (Unit {0})
write_review verify body email now receipt_id receipt = modify (λ w. record w {
  receipts =
      update (at_version receipt_id receipt.version) (reviewed_row verify body email now receipt)
        w.receipts;
})

-- The event that a verification records before the event of the review.
abbrev pub audit_verification : Platform → ReviewerContext → String → Bool → Act (Unit {0})
audit_verification p reviewer receipt_id false = pure tt
audit_verification p reviewer receipt_id true = do
  at ← now_iso p
  _ ← append_audit_event p (chain_of_reviewer reviewer) "INVOICE_VERIFIED" (
      invoice_verified_event receipt_id reviewer.email reviewer.site_id reviewer.organization_id at)
  pure tt

abbrev pub audit_review :
    Platform → ReviewerContext → (receipt_id action : String) → ℕ → Act (Unit {0})
audit_review p reviewer receipt_id action version = do
  at ← now_iso p
  _ ←
      append_audit_event p (chain_of_reviewer reviewer) "RECEIPT_REVIEWED"
        (receipt_reviewed_event receipt_id reviewer.email action (print_number version) at)
  pure tt

-- The name of the edge has the reviewer's e-mail address, its target the subject.
abbrev pub review_edge_name : String → ReviewerContext → String
review_edge_name receipt_id reviewer = receipt_id ++ ("->" ++ (reviewer.email ++ ":REVIEWED_BY"))

-- `reviewer.subject || reviewer.email`
abbrev pub review_target : ReviewerContext → String
review_target reviewer = if reviewer.subject == "" then reviewer.email else reviewer.subject

abbrev pub connect_review :
    Platform → ReviewerContext → (receipt_id action now : String) → ℕ → Act String
connect_review p reviewer receipt_id action now version =
    upsert_graph_edge p (some (review_edge_name receipt_id reviewer)) receipt_id
      (review_target reviewer) "REVIEWED_BY"
      (members (
        ("action", str action)
        ∷ ("version", num (print_number version))
        ∷ ("reviewer_email", str reviewer.email)
        ∷ ("reviewed_at", str now)
        ∷ []))

-- What a review writes once it is checked.
unfoldable pub save_review :
    Platform → ReviewerContext → ReviewBody → String → ReceiptRow → Act Reviewed
save_review p reviewer body receipt_id receipt = do
  now ← now_iso p
  let action = or_empty body.action
  let verify = action == "VERIFY"
  let version = receipt.version + 1
  write_review verify body reviewer.email now receipt_id receipt
  audit_verification p reviewer receipt_id verify
  audit_review p reviewer receipt_id action version
  _ ← connect_review p reviewer receipt_id action now version
  pure (record { receipt_id = receipt_id; status = next_status verify; version = version })

-- `sent` is `none` where the request's body is no JSON.
unfoldable pub handle_review :
    Platform → Identity → (receipt_id : String) → Option ReviewBody → Act Reviewed
handle_review p identity receipt_id sent = do
  reviewer ← reviewer_of identity
  body ← or_stop sent (response 400 "INVALID_REQUEST")
  guard (is_action body.action) (response 400 "INVALID_ACTION")
  receipt ← receipt_of_site reviewer.site_id receipt_id
  guard (same_version body.version receipt.version) (response 409 "VERSION_CONFLICT")
  save_review p reviewer body receipt_id receipt
