-- ===== src/Admin/Chains.antt =====
-- apps/edge/src/handlers/admin.ts: `handleVerifyChain`, `handleVerifyAllChains` and
-- `handleChainEvents`. Offset and limit are whole numbers, as the web application sends them.
use challanse.Prelude.{ℕ, zero, suc, Option, List, [], ◌∷◌, String, take, sort, min, or_else}
use challanse.World.{World, Platform, Act, AuditEventRow, gets, ◌>>=◌}
use challanse.Audit.Verify.{
  VerifyResult, AllVerified, verify_chain, verify_all_chains, event_le, chain_events,
}
use challanse.Reviewers.{Identity, reviewer_as}

abbrev pub chain_readers : List String
chain_readers = "ORG_ADMIN" ∷ "SITE_ADMIN" ∷ "AUDITOR" ∷ []

abbrev pub all_chain_readers : List String
all_chain_readers = "ORG_ADMIN" ∷ "AUDITOR" ∷ []

-- The chain may be another organization's.
unfoldable pub handle_verify_chain : Platform → Identity → (chain_id : String) → Act VerifyResult
handle_verify_chain p identity chain_id = do
  _ ← reviewer_as chain_readers identity
  gets (λ w. verify_chain p w chain_id)

unfoldable pub handle_verify_all_chains : Platform → Identity → Act AllVerified
handle_verify_all_chains p identity = do
  _ ← reviewer_as all_chain_readers identity
  gets (verify_all_chains p)

abbrev pub skip {ℓ} : {A : Type ℓ} → ℕ → List A → List A
skip zero xs = xs
skip (suc n) [] = []
skip (suc n) (x ∷ xs) = skip n xs

-- `ORDER BY created_at ASC, event_id ASC LIMIT ? OFFSET ?`
unfoldable pub page_events : World → (chain_id : String) → (offset limit : ℕ) → List AuditEventRow
page_events w chain_id offset limit =
    take limit (skip offset (sort event_le (chain_events w chain_id)))

unfoldable pub handle_chain_events :
    Identity → (chain_id : String) → (offset limit : Option ℕ) → Act (List AuditEventRow)
handle_chain_events identity chain_id offset limit = do
  _ ← reviewer_as chain_readers identity
  gets (λ w. page_events w chain_id (or_else offset 0) (min (or_else limit 50) 200))
