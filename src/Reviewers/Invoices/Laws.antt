-- ===== src/Reviewers/Invoices/Laws.antt =====
-- apps/edge/src/handlers/reviewers.ts: what an invoice records for each of its receipts.
use text.Mathlib.Text.{◌==◌}
use challanse.Prelude.{◌≡◌, some, List, String, find, codes, if◌then◌else◌}
use challanse.World.{World, VerifiedReceiptRow}
use challanse.Auth.{ReviewerContext, given, or_empty}
use challanse.Tally.Units.{normalize_unit}
use challanse.Reviewers.Invoices.{InvoiceBody, verified_row}

-- The first row of the receipt has the values of the row that was put.
record HoldsInvoice (rows : List VerifiedReceiptRow) (new : VerifiedReceiptRow) : Type 0 where
  pub row : VerifiedReceiptRow
  pub found : find (λ r. r.receipt_id == new.receipt_id) rows ≡ some row
  pub po_number : row.po_number ≡ new.po_number
  pub material_code : row.material_code ≡ new.material_code
  pub verified_quantity : row.verified_quantity ≡ new.verified_quantity
  pub unit : row.unit ≡ new.unit
  pub reviewer_id : row.reviewer_id ≡ new.reviewer_id

module _ (reviewer : ReviewerContext) (body : InvoiceBody) (now : String) where
  abbrev new : String → VerifiedReceiptRow
  new id = verified_row reviewer body now id

-- The first row of the receipt has the columns of the request.
pub record Records (reviewer : ReviewerContext) (body : InvoiceBody)
    (rows : List VerifiedReceiptRow) (receipt_id : String) : Type 0 where
  pub row : VerifiedReceiptRow
  pub found : find (λ r. r.receipt_id == receipt_id) rows ≡ some row
  pub po_number : row.po_number ≡ or_empty body.po_number
  pub material_code : row.material_code ≡ or_empty body.material_code
  pub verified_quantity : some row.verified_quantity ≡ body.verified_quantity
  pub unit :
      row.unit
      ≡ normalize_unit (if given body.unit then codes (or_empty body.unit) else codes "NOS")
  pub reviewer_id : row.reviewer_id ≡ reviewer.email
