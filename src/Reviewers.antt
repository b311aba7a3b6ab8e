-- ===== src/Reviewers.antt =====
-- apps/edge/src/handlers/reviewers.ts: what the handlers for reviewers share. A number in a request is
-- whole, as the web application sends it.
pub mod Review
pub mod Invoices
pub mod Membership
pub mod Queries
pub mod Laws
use Prim.Native.String.{◌++◌}
use text.Mathlib.Text.{◌==◌}
use challanse.Prelude.{Bool, ◌&&◌, Option, none, some, List, String, find, update, if◌then◌else◌}
use challanse.World.{
  World, Platform, Act, ReceiptRow, Outcome, value, stop, response, reviewer_auth, pure, modify,
  gets, or_stop, ◌>>=◌, ◌>>◌,
}
use challanse.Auth.{ReviewerContext, authenticate_reviewer, require_role}

-- The identity that the access service vouches for.
pub record Identity : Type 0 where
  pub issuer : String
  pub subject : String
  pub email : String

-- `catch (err) { if (err instanceof ReviewerAuthError) return error(…, err.statusCode, err.code, …) }`
abbrev pub answered_reviewer {ℓ} : {A : Type ℓ} → Outcome A → Outcome A
answered_reviewer (value a) = value a
answered_reviewer (stop (reviewer_auth code status)) = stop (response status code)
answered_reviewer (stop other) = stop other

abbrev pub answer_reviewer_errors {ℓ} : {A : Type ℓ} → Act A → Act A
answer_reviewer_errors m w = let (r, w') = m w in (answered_reviewer r, w')

-- The guarded authentication at the top of the handlers, without and with a check of the role.
unfoldable pub reviewer_of : Identity → Act ReviewerContext
reviewer_of i = answer_reviewer_errors (authenticate_reviewer i.issuer i.subject)

unfoldable pub reviewer_as : List String → Identity → Act ReviewerContext
reviewer_as roles i = answer_reviewer_errors (do
  reviewer ← authenticate_reviewer i.issuer i.subject
  require_role reviewer roles
  pure reviewer)

abbrev pub chain_at : (organization_id site_id : String) → String
chain_at organization_id site_id = "org:" ++ (organization_id ++ (":site:" ++ site_id))

abbrev pub chain_of_reviewer : ReviewerContext → String
chain_of_reviewer r = chain_at r.organization_id r.site_id

unfoldable pub get_receipt : World → String → Option ReceiptRow
get_receipt w id = find (λ r. r.id == id) w.receipts

-- `!receipt || receipt.site_id !== reviewer.siteId`
abbrev pub within_site : String → Option ReceiptRow → Option ReceiptRow
within_site site_id none = none
within_site site_id (some r) = if r.site_id == site_id then some r else none

abbrev pub receipt_of_site : String → String → Act ReceiptRow
receipt_of_site site_id receipt_id = do
  found ← gets (λ w. within_site site_id (get_receipt w receipt_id))
  or_stop found (response 404 "RECEIPT_NOT_FOUND")
