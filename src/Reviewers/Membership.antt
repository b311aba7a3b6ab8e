-- ===== src/Reviewers/Membership.antt =====
-- apps/edge/src/handlers/reviewers.ts: `handleAcceptMembership`.
pub mod Laws
use text.Mathlib.Text.{◌==◌}
use challanse.Prelude.{
  ℕ, Bool, true, false, not, ◌&&◌, Option, none, some, List, [], ◌∷◌, String, find, update,
  add_last, ltb, if◌then◌else◌,
}
use challanse.World.{
  World, Platform, Act, InvitationRow, ReviewerRow, response, pure, gets, modify, guard, or_stop,
  ◌>>=◌, ◌>>◌, read_clock, now_iso,
}
use challanse.Auth.{given, or_empty, exists}
use challanse.Audit.Events.{reviewer_joined_event}
use challanse.Audit.Chain.{append_audit_event}
use challanse.Reviewers.{Identity, chain_at}

pub record Membership : Type 0 where
  pub email : String
  pub organization_id : String
  pub site_id : String
  pub role : String

abbrev pub find_invitation : String → World → Option InvitationRow
find_invitation id w = find (λ i. i.id == id) w.invitations

-- `!invitation || !invitation.active`
abbrev pub if_active : Option InvitationRow → Option InvitationRow
if_active none = none
if_active (some i) = if i.active then some i else none

-- `new Date(text) < new Date()`, which is false for an invalid date.
abbrev pub is_past : Option ℕ → ℕ → Bool
is_past none now = false
is_past (some t) now = ltb t now

-- The clock is read where the invitation has a time.
abbrev pub check_expiry : Platform → Option String → Act (Unit {0})
check_expiry p expires_at =
    if given expires_at
    then (do
      now ← read_clock p
      guard (not (is_past (p.parse_time (or_empty expires_at)) now))
          (response 400 "INVITATION_EXPIRED"))
    else pure tt

-- `ON CONFLICT(email) DO UPDATE SET …`
abbrev pub rejoined : (new old : ReviewerRow) → ReviewerRow
rejoined new old = record old {
  site_id = new.site_id;
  role = new.role;
  active = true;
  issuer = new.issuer;
  subject = new.subject;
}

unfoldable pub put_member : ReviewerRow → List ReviewerRow → List ReviewerRow
put_member row rows =
    if exists (λ r. r.email == row.email) rows
    then update (λ r. r.email == row.email) (rejoined row) rows
    else add_last rows row

unfoldable pub join : Platform → Identity → InvitationRow → String → Act Membership
join p identity invitation invitation_id = do
  now ← now_iso p
  modify (λ w. record w {
    reviewers =
        put_member
          (record {
            email = identity.email;
            site_id = invitation.site_id;
            organization_id = invitation.organization_id;
            role = invitation.role;
            active = true;
            subject = identity.subject;
            issuer = identity.issuer;
            created_at = now;
            updated_at = none;
          })
          w.reviewers;
  })
  modify (λ w. record w {
    invitations =
        update (λ i. i.id == invitation_id) (λ i. record i { active = false }) w.invitations;
  })
  at ← now_iso p
  _ ←
      append_audit_event p (chain_at invitation.organization_id invitation.site_id)
        "REVIEWER_JOINED"
        (reviewer_joined_event identity.email invitation.site_id invitation.organization_id
          invitation.role at)
  pure (record {
    email = identity.email;
    organization_id = invitation.organization_id;
    site_id = invitation.site_id;
    role = invitation.role;
  })

-- A body that is no JSON counts as one without an identifier.
unfoldable pub handle_accept_membership : Platform → Identity → Option String → Act Membership
handle_accept_membership p identity invitation_id = do
  guard (given invitation_id) (response 400 "MISSING_INVITATION_ID")
  found ← gets (λ w. if_active (find_invitation (or_empty invitation_id) w))
  invitation ← or_stop found (response 404 "INVITATION_NOT_FOUND")
  check_expiry p invitation.expires_at
  guard (invitation.email == identity.email) (response 403 "INVITATION_EMAIL_MISMATCH")
  join p identity invitation (or_empty invitation_id)
