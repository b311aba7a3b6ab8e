-- ===== src/Admin/Members.antt =====
-- apps/edge/src/handlers/admin.ts: `handleUpsertMembership`, `handleCreateInvitation` and
-- `handleSiteManager`.
use text.Mathlib.Text.{◌==◌}
use challanse.Prelude.{
  ℕ, Bool, true, false, ◌&&◌, not, Option, none, some, List, [], ◌∷◌, String, update, add_last,
  if◌then◌else◌, is_none,
}
use challanse.Json.{str}
use challanse.World.{
  Platform, Act, ReviewerRow, response, not_null, pure, gets, modify, guard, ◌>>=◌, ◌>>◌, draw_uuid,
  now_iso, iso_after,
}
use challanse.Auth.{ReviewerContext, given, or_empty, exists}
use challanse.Audit.Events.{members, membership_changed_event, reviewer_invited_event}
use challanse.Graph.{ensure_reviewer_in_graph}
use challanse.Reviewers.{Identity, reviewer_as}
use challanse.Admin.{organization_admins, organization_chain, audit_timed}
use challanse.Admin.Sites.{text_or}

pub record MembershipBody : Type 0 where
  pub email : Option String
  pub site_id : Option String
  pub role : Option String

abbrev pub valid_roles : List String
valid_roles = "ORG_ADMIN" ∷ "SITE_ADMIN" ∷ "CONTROLLER" ∷ "AUDITOR" ∷ "VIEWER" ∷ []

abbrev pub is_valid_role : String → Bool
is_valid_role role = exists (λ r. r == role) valid_roles

-- `ON CONFLICT(email) DO UPDATE SET …`
unfoldable pub put_membership : ReviewerRow → List ReviewerRow → List ReviewerRow
put_membership row rows =
    if exists (λ r. r.email == row.email) rows
    then update (λ r. r.email == row.email)
        (λ r. record r { site_id = row.site_id; role = row.role; updated_at = some row.created_at })
        rows
    else add_last rows row

unfoldable pub save_membership : Platform → ReviewerContext → MembershipBody → Act (Unit {0})
save_membership p reviewer body = do
  let email = or_empty body.email
  let site_id = or_empty body.site_id
  let role = or_empty body.role
  now ← now_iso p
  modify (λ w. record w {
    reviewers =
        put_membership
          (record {
            email = email;
            site_id = site_id;
            organization_id = reviewer.organization_id;
            role = role;
            active = true;
            subject = "";
            issuer = "";
            created_at = now;
            updated_at = none;
          })
          w.reviewers;
  })
  ensure_reviewer_in_graph p email reviewer.organization_id site_id
      (members (("email", str email) ∷ ("role", str role) ∷ []))
  audit_timed p (organization_chain reviewer.organization_id) "MEMBERSHIP_CHANGED" (
      membership_changed_event email site_id reviewer.organization_id reviewer.email "upserted"
        (some role))

unfoldable pub handle_upsert_membership : Platform → Identity → MembershipBody → Act MembershipBody
handle_upsert_membership p identity body = do
  reviewer ← reviewer_as organization_admins identity
  guard (given body.email && (given body.site_id && given body.role))
      (response 400 "MISSING_FIELDS")
  guard (is_valid_role (or_empty body.role)) (response 400 "INVALID_ROLE")
  save_membership p reviewer body
  pure body

pub record InvitationBody : Type 0 where
  pub email : Option String
  pub site_id : Option String
  pub role : Option String
  pub expires_at : Option String

-- `body.expiresAt || new Date(Date.now() + 30 * 86_400_000).toISOString()`
abbrev pub expiry_or : Platform → ℕ → Option String → Act String
expiry_or p n o = if given o then pure (or_empty o) else iso_after p n

-- Returns the identifier and the address.
unfoldable pub handle_create_invitation :
    Platform → Identity → InvitationBody → Act (String × String)
handle_create_invitation p identity body = do
  reviewer ← reviewer_as organization_admins identity
  guard (given body.email && given body.role) (response 400 "MISSING_FIELDS")
  invitation_id ← draw_uuid p
  now ← now_iso p
  expires_at ← expiry_or p 2592000000 body.expires_at
  let site_id = text_or body.site_id reviewer.site_id
  modify (λ w. record w {
    invitations = add_last w.invitations (record {
      id = invitation_id;
      organization_id = reviewer.organization_id;
      site_id = site_id;
      email = or_empty body.email;
      role = or_empty body.role;
      invited_by = reviewer.email;
      expires_at = some expires_at;
      active = true;
      created_at = now;
    });
  })
  audit_timed p (organization_chain reviewer.organization_id) "REVIEWER_INVITED" (
      reviewer_invited_event invitation_id reviewer.email (or_empty body.email) site_id
        reviewer.organization_id (or_empty body.role))
  pure (invitation_id, or_empty body.email)

pub record ManagerBody : Type 0 where
  pub site_id : Option String
  pub manager_email : Option String
  pub active : Option Bool

abbrev pub is_true : Option Bool → Bool
is_true none = false
is_true (some b) = b

abbrev pub member_of : (email organization_id : String) → ReviewerRow → Bool
member_of email organization_id r = r.email == email && r.organization_id == organization_id

-- A manager who is deactivated is to have no site, and the column takes no null.
abbrev pub deactivate_manager : (email organization_id : String) → Act (Unit {0})
deactivate_manager email organization_id = do
  there ← gets (λ w. exists (member_of email organization_id) w.reviewers)
  guard (not there) not_null

abbrev pub activate_manager : (email organization_id site_id : String) → Act (Unit {0})
activate_manager email organization_id site_id = modify (λ w. record w {
  reviewers =
      update (member_of email organization_id) (λ r. record r { site_id = site_id; active = true })
        w.reviewers;
})

unfoldable pub handle_site_manager : Identity → ManagerBody → Act (Unit {0})
handle_site_manager identity body = do
  reviewer ← reviewer_as organization_admins identity
  guard (given body.site_id && (given body.manager_email && not (is_none body.active)))
      (response 400 "MISSING_FIELDS")
  if is_true body.active
      then activate_manager (or_empty body.manager_email) reviewer.organization_id
          (or_empty body.site_id)
      else deactivate_manager (or_empty body.manager_email) reviewer.organization_id
