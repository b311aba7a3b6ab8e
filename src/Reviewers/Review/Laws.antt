-- ===== src/Reviewers/Review/Laws.antt =====
-- apps/edge/src/handlers/reviewers.ts: the outcome of a review, and that no second review of the same
-- version is written.
use text.Mathlib.Text.{◌==◌}
use challanse.Prelude.{
  ◌≡◌, refl, ap, ◌∙◌, ℕ, ◌+◌, arith, Bool, true, false, ◌&&◌, ◌||◌, Option, none, some, List, [],
  ◌∷◌, String, print_number, find, update, if◌then◌else◌, nat_eq, Bool-cases, inl, inr,
}
use challanse.World.{
  World, Platform, ReceiptRow, GraphEdgeRow, value, stop, foreign_key, pure, guard, ◌>>=◌, ◌>>◌,
}
use challanse.World.Laws.{Refused, guard-Refused, or_stop-Refused}
use challanse.Auth.{ReviewerContext, or_empty, exists}
use challanse.Audit.Events.{receipt_reviewed_event, invoice_verified_event}
use challanse.Audit.Chain.Frame.{AuditOnly-trans, Audited, timed-Audited, pure-Audited}
use challanse.Graph.{is_node, upsert_graph_edge, write_edge}
use challanse.Reviewers.{Identity, get_receipt, within_site, chain_of_reviewer}
use challanse.Reviewers.Laws.{reviewer_of-Refused}
use challanse.Reviewers.Review.{
  ReviewBody, Reviewed, is_action, same_version, next_status, reviewed_row, at_version,
  write_review, audit_verification, review_edge_name, review_target, connect_review, save_review,
  handle_review,
}

audit_verification-Audited :
    (p : Platform) (reviewer : ReviewerContext) (receipt_id : String) (verify : Bool) (w : World)
    → Audited w (audit_verification p reviewer receipt_id verify w)
audit_verification-Audited p reviewer receipt_id false w = pure-Audited tt w
audit_verification-Audited p reviewer receipt_id true w =
    timed-Audited p (chain_of_reviewer reviewer) "INVOICE_VERIFIED"
      (invoice_verified_event receipt_id reviewer.email reviewer.site_id reviewer.organization_id) w

-- Whether the graph takes the edge of a review.
abbrev pub takes_review : World → ReviewerContext → String → Bool
takes_review w reviewer receipt_id =
    exists (λ e. e.edge_id == review_edge_name receipt_id reviewer) w.edges
    || (is_node w receipt_id && is_node w (review_target reviewer))

edge_outcome :
    (row : GraphEdgeRow) (id : String) (there known : Bool) (x : Reviewed) (w : World)
    → ((((guard (there || known) foreign_key >> (write_edge row there >> pure id)) >>= λ _. pure x)
          w).0
        ≡ (if there || known then value x else stop foreign_key))
      × (((guard (there || known) foreign_key >> (write_edge row there >> pure id)) >>= λ _. pure x)
          w).1.receipts
        ≡ w.receipts
edge_outcome row id true known x w = (refl, refl)
edge_outcome row id false true x w = (refl, refl)
edge_outcome row id false false x w = (refl, refl)

connect_outcome :
    (p : Platform) (reviewer : ReviewerContext) (receipt_id action now : String) (version : ℕ)
    (x : Reviewed) (v : World)
    → (((connect_review p reviewer receipt_id action now version >>= λ _. pure x) v).0
        ≡ (if takes_review v reviewer receipt_id then value x else stop foreign_key))
      × (((connect_review p reviewer receipt_id action now version >>= λ _. pure x) v).1.receipts
          ≡ v.receipts)
unfolding upsert_graph_edge
connect_outcome p reviewer receipt_id action now version x v =
    edge_outcome _ (review_edge_name receipt_id reviewer)
      (exists (λ e. e.edge_id == review_edge_name receipt_id reviewer) v.edges)
      (is_node v receipt_id && is_node v (review_target reviewer)) x
      (record v { reads = v.reads + 1 })

pub save_review_lem :
    (p : Platform) (reviewer : ReviewerContext) (body : ReviewBody) (receipt_id : String)
    (receipt : ReceiptRow) (w : World)
    → let verify = or_empty body.action == "VERIFY" in
      ((save_review p reviewer body receipt_id receipt w).0 ≡ (
        if takes_review w reviewer receipt_id
        then value (record {
          receipt_id = receipt_id;
          status = next_status verify;
          version = receipt.version + 1;
        })
        else stop foreign_key))
      × ((save_review p reviewer body receipt_id receipt w).1.receipts
          ≡ update
              (at_version receipt_id receipt.version)
              (reviewed_row verify body reviewer.email (p.iso (p.now_ms w.reads)) receipt)
              w.receipts)
save_review_lem p reviewer body receipt_id receipt w =
    let now = p.iso (p.now_ms w.reads) in
    let action = or_empty body.action in
    let verify = action == "VERIFY" in
    let version = receipt.version + 1 in
    let written =
      (write_review verify body reviewer.email now receipt_id receipt
        (record w { reads = w.reads + 1 })).1 in
    let verified = audit_verification-Audited p reviewer receipt_id verify written in
    let audited =
      timed-Audited p (chain_of_reviewer reviewer) "RECEIPT_REVIEWED"
        (receipt_reviewed_event receipt_id reviewer.email action (print_number version))
        verified.after in
    let final : save_review p reviewer body receipt_id receipt w
        ≡ (connect_review p reviewer receipt_id action now version >>= λ _.
              pure (record {
                receipt_id = receipt_id;
                status = next_status verify;
                version = version;
              }))
            audited.after =
      (unfold save_review in rw (verified.returned, audited.returned) refl) in
    let only = AuditOnly-trans written verified.after audited.after verified.only audited.only in
    let (outcome, kept) =
      connect_outcome p reviewer receipt_id action now version
        (record { receipt_id = receipt_id; status = next_status verify; version = version })
        audited.after in
    let result : Reviewed = record {
      receipt_id = receipt_id;
      status = next_status verify;
      version = version;
    } in
    (
      ap (λ r. r.0) final
          ∙ outcome
          ∙ ap (λ u. if takes_review u reviewer receipt_id then value result else stop foreign_key)
              only,
      ap (λ r. r.1.receipts) final ∙ kept ∙ ap (λ (u : World). u.receipts) only,
    )

reviewed_row-id :
    (verify : Bool) (body : ReviewBody) (email now : String) (receipt row : ReceiptRow)
    → (reviewed_row verify body email now receipt row).id ≡ row.id
unfolding reviewed_row
reviewed_row-id true body email now receipt row = refl
reviewed_row-id false body email now receipt row = refl

reviewed_row-version :
    (verify : Bool) (body : ReviewBody) (email now : String) (receipt row : ReceiptRow)
    → (reviewed_row verify body email now receipt row).version ≡ receipt.version + 1
unfolding reviewed_row
reviewed_row-version true body email now receipt row = refl
reviewed_row-version false body email now receipt row = refl

find-reviewed :
    (verify : Bool) (body : ReviewBody) (email now receipt_id : String) (receipt : ReceiptRow)
    (rows : List ReceiptRow)
    → find (λ r. r.id == receipt_id) rows ≡ some receipt
    → find
        (λ r. r.id == receipt_id)
        (update
          (at_version receipt_id receipt.version)
          (reviewed_row verify body email now receipt)
          rows)
      ≡ some (reviewed_row verify body email now receipt receipt)
find-reviewed verify body email now receipt_id receipt [] h = cc
find-reviewed verify body email now receipt_id receipt (r ∷ rows) h =
    elim (Bool-cases (r.id == receipt_id)) [
      | inl e ↦
          let same : r ≡ receipt = ground (arith, h, e) in
          let there : nat_eq r.version receipt.version ≡ true = ground (arith, same) in
          let kept : ((reviewed_row verify body email now receipt r).id == receipt_id) ≡ true =
            (rw (reviewed_row-id verify body email now receipt r) e) in
          rw (e, there, kept, same) refl
      | inr n ↦
          rw (n, n)
            (find-reviewed verify body email now receipt_id receipt rows (ground (arith, h, n)))
    ]

within_site_same :
    (site_id : String) (o : Option ReceiptRow) (r c : ReceiptRow)
    → o ≡ some r
    → within_site site_id o ≡ some c
    → c ≡ r
within_site_same site_id none r c h k = cc
within_site_same site_id (some x) r c h k = ground (arith, h, k)

-- Once a review is written, whether or not its edge was refused, every other review that names the
-- version it was made from is refused, whoever sends it and whatever else it says, and writes nothing.
pub handle_review-stale :
    (p : Platform) (reviewer : ReviewerContext) (body later : ReviewBody) (receipt_id : String)
    (receipt : ReceiptRow) (other : Identity) (w : World)
    → get_receipt w receipt_id ≡ some receipt
    → later.version ≡ some receipt.version
    → let v = (save_review p reviewer body receipt_id receipt w).1 in
      Refused v (handle_review p other receipt_id (some later) v)
handle_review-stale p reviewer body later receipt_id receipt other w found named =
    let now = p.iso (p.now_ms w.reads) in
    let verify = or_empty body.action == "VERIFY" in
    let v = (save_review p reviewer body receipt_id receipt w).1 in
    let reviewed = reviewed_row verify body reviewer.email now receipt receipt in
    let after : get_receipt v receipt_id ≡ some reviewed =
      (unfold get_receipt in
        (ap (find (λ r. r.id == receipt_id))
            (save_review_lem p reviewer body receipt_id receipt w).1
          ∙ find-reviewed verify body reviewer.email now receipt_id receipt w.receipts
              (unfold get_receipt in found))) in
    unfold handle_review in
    reviewer_of-Refused other _ v λ r. guard-Refused (is_action later.action) _ _ v λ _.
      or_stop-Refused (within_site r.site_id (get_receipt v receipt_id)) _ _ v λ current e.
        let moved : current.version ≡ receipt.version + 1 =
          (ap (λ (x : ReceiptRow). x.version)
              (within_site_same r.site_id (get_receipt v receipt_id) reviewed current after e)
            ∙ reviewed_row-version verify body reviewer.email now receipt receipt) in
        guard-Refused (same_version later.version current.version) _ _ v
          λ fits. absurd (ground (arith, fits, named, moved))
