-- ===== src/Reviewers/Laws.antt =====
-- apps/edge/src/handlers/reviewers.ts: the authentication at the top of the handlers writes nothing.
use challanse.Prelude.{refl, none, some}
use challanse.World.{World, Act, reviewer_auth, or_stop, ◌>>=◌, pure}
use challanse.World.Laws.{Refused}
use challanse.Auth.{ReviewerContext, get_reviewer, reviewer_context, authenticate_reviewer}
use challanse.Reviewers.{Identity, answer_reviewer_errors, reviewer_of}

module _ {B : Type 0} where
  -- What every reviewer is refused is refused.
  pub reviewer_of-Refused :
      (i : Identity) (f : ReviewerContext → Act B) (w : World)
      → ((r : ReviewerContext) → Refused w (f r w))
      → Refused w ((reviewer_of i >>= f) w)
  unfolding reviewer_of authenticate_reviewer
  reviewer_of-Refused i f w h =
      elim (get_reviewer w i.issuer i.subject)
        as (λ o. Refused w (
          (answer_reviewer_errors (
                or_stop o (reviewer_auth "REVIEWER_UNAUTHORIZED" 401) >>= λ row.
                pure (reviewer_context row))
              >>= f)
            w)) [ none ↦ record { reason = _; stopped = refl } | some r ↦ h (reviewer_context r) ]
