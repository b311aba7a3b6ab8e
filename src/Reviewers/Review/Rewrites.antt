-- ===== src/Reviewers/Review/Rewrites.antt =====
-- apps/edge/src/handlers/reviewers.ts: the row of a receipt after a review.
use text.Mathlib.Text.{◌==◌}
use text.Mathlib.TextEquality.{eq_iff}
use challanse.Prelude.{
  ◌⊎◌, or_else, ◌≡◌, refl, ap, ℕ, ◌+◌, arith, Bool, true, false, Option, none, some, List, [], ◌∷◌,
  String, update, if◌then◌else◌, Bool-cases, inl, inr,
}
use challanse.World.{World, Platform, ReceiptRow, value, stop, foreign_key}
use challanse.Auth.{ReviewerContext, or_empty}
use challanse.Reviewers.Review.{ReviewBody, reviewed_row, at_version, or_other, save_review}
use challanse.Reviewers.Review.Laws.{takes_review, save_review_lem}

-- Two lists of one length, related place by place.
abbrev pub Rewritten :
    (ReceiptRow → ReceiptRow → Type 0) → List ReceiptRow → List ReceiptRow → Type 0
Rewritten R [] [] = Unit
Rewritten R [] (_ ∷ _) = ⊥
Rewritten R (_ ∷ _) [] = ⊥
Rewritten R (r ∷ rs) (s ∷ ss) = R r s × Rewritten R rs ss

-- A column of a verification: what the request says, else what the receipt had; a rejection leaves it.
abbrev pub reviewed_text : Bool → Option String → (receipt row : String) → String
reviewed_text verify sent receipt row = if verify then or_else sent receipt else row

abbrev pub reviewed_quantity : Bool → Option ℕ → (receipt row : Option ℕ) → Option ℕ
reviewed_quantity true (some sent) receipt row = some sent
reviewed_quantity true none receipt row = receipt
reviewed_quantity false sent receipt row = row

-- The row after a review of it by the action, with every other column as it was.
abbrev pub after_review :
    (verify : Bool)
    → ReviewBody
    → (email : String) → (receipt : ReceiptRow) → (now : String) → ReceiptRow
    → ReceiptRow
after_review verify body email receipt now row = record row {
  status = if verify then "VERIFIED" else "REJECTED";
  version = receipt.version + 1;
  challan_number =
      reviewed_text verify body.challan_number receipt.challan_number row.challan_number;
  po_number = reviewed_text verify body.po_number receipt.po_number row.po_number;
  material_code = reviewed_text verify body.material_code receipt.material_code row.material_code;
  material_description =
      reviewed_text verify body.material_description receipt.material_description
        row.material_description;
  verified_quantity =
      reviewed_quantity verify body.verified_quantity receipt.verified_quantity
        row.verified_quantity;
  unit = reviewed_text verify body.unit receipt.unit row.unit;
  notes = or_else body.notes receipt.notes;
  reviewed_by = some email;
  reviewed_at = some now;
  updated_at = now;
}

-- The row is the receipt's at its version and is rewritten, or it is another and stays.
abbrev pub Replaces :
    (verify : Bool)
    → ReviewBody
    → ReviewerContext
    → (receipt_id : String) → (receipt : ReceiptRow) → (now : String) → (old new : ReceiptRow)
    → Type 0
Replaces verify body reviewer receipt_id receipt now old new =
    ((old.id ≡ receipt_id)
      × (old.version ≡ receipt.version)
      × (new ≡ after_review verify body reviewer.email receipt now old))
    ⊎ ((¬ ((old.id ≡ receipt_id) × (old.version ≡ receipt.version))) × (new ≡ old))

or_other_lem :
    (sent receipt row : Option ℕ) → or_other sent receipt ≡ reviewed_quantity true sent receipt row
or_other_lem none receipt row = refl
or_other_lem (some n) receipt row = refl

reviewed_row-after_review :
    (verify : Bool) (body : ReviewBody) (email now : String) (receipt row : ReceiptRow)
    → reviewed_row verify body email now receipt row
      ≡ after_review verify body email receipt now row
unfolding reviewed_row
reviewed_row-after_review true body email now receipt row =
    ap (λ q. record (after_review true body email receipt now row) { verified_quantity = q })
      (or_other_lem body.verified_quantity receipt.verified_quantity row.verified_quantity)
reviewed_row-after_review false body email now receipt row = refl

update-Rewritten :
    (verify : Bool) (body : ReviewBody) (reviewer : ReviewerContext) (receipt_id : String)
    (receipt : ReceiptRow) (now : String) (rows : List ReceiptRow)
    → Rewritten (Replaces verify body reviewer receipt_id receipt now) rows (
        update
          (at_version receipt_id receipt.version)
          (reviewed_row verify body reviewer.email now receipt)
          rows)
update-Rewritten verify body reviewer receipt_id receipt now [] = tt
update-Rewritten verify body reviewer receipt_id receipt now (r ∷ rows) =
    let rest = update-Rewritten verify body reviewer receipt_id receipt now rows in
    elim (Bool-cases (at_version receipt_id receipt.version r)) [
      | inl e ↦ rw e (
        inl (
          ground (arith, e, eq_iff r.id receipt_id),
          ground (arith, e),
          reviewed_row-after_review verify body reviewer.email now receipt r,
        ),
        rest,
      )
      | inr n ↦ rw n (
        inr (
          λ (same, at). let a = (eq_iff r.id receipt_id).1 same in ground (arith, n, a, at),
          refl,
        ),
        rest,
      )
    ]

-- A checked review rewrites the receipt's row at the version that was checked, and no other row. The
-- status becomes VERIFIED or REJECTED and the version is the next one; the reviewer's e-mail address
-- and the time are set, and the notes of the request, if it has any. A verification also sets the
-- delivery note's number, the order number, the material, the quantity and the unit to those of the
-- request, or to the receipt's where the request has none; a rejection leaves them, and every other
-- column stays. The review returns the new status and version where the graph has the edge already or
-- has nodes for the receipt and for the reviewer's subject (for the e-mail address, if the subject is
-- empty); otherwise it throws with the row written.
pub save_review-Rewritten :
    (p : Platform) (reviewer : ReviewerContext) (body : ReviewBody) (receipt_id : String)
    (receipt : ReceiptRow) (w : World)
    → ((save_review p reviewer body receipt_id receipt w).0 ≡ (
        if takes_review w reviewer receipt_id
        then value (record {
          receipt_id = receipt_id;
          status = if or_empty body.action == "VERIFY" then "VERIFIED" else "REJECTED";
          version = receipt.version + 1;
        })
        else stop foreign_key))
      × Rewritten
          (Replaces
            (or_empty body.action == "VERIFY")
            body
            reviewer
            receipt_id
            receipt
            (p.iso (p.now_ms w.reads)))
          w.receipts
          (save_review p reviewer body receipt_id receipt w).1.receipts
save_review-Rewritten p reviewer body receipt_id receipt w =
    let (outcome, receipts) = save_review_lem p reviewer body receipt_id receipt w in
    (
      outcome,
      rw receipts (
          update-Rewritten (or_empty body.action == "VERIFY") body reviewer receipt_id receipt
            (p.iso (p.now_ms w.reads)) w.receipts),
    )
