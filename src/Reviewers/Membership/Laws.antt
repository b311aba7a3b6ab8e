-- ===== src/Reviewers/Membership/Laws.antt =====
-- apps/edge/src/handlers/reviewers.ts: an invitation is accepted once, and what an accepted one changes
-- in the table of reviewers.
use text.Mathlib.Text.{◌==◌}
use challanse.Prelude.{
  ◌≡◌, refl, sym, ap, ◌∙◌, ◌+◌, arith, Bool, true, false, not, Option, none, some, List, [], ◌∷◌,
  String, find, update, find-update, if◌then◌else◌, Bool-cases, inl, inr,
}
use challanse.World.{
  World, Platform, InvitationRow, ReviewerRow, value, response, guard, pure, read_clock, ◌>>=◌,
  ◌>>◌,
}
use challanse.World.Laws.{Refused, guard_value, or_stop_value, continue_value, guard-Refused}
use challanse.Auth.{given, or_empty}
use challanse.Auth.Laws.{exists-find}
use challanse.Audit.Events.{reviewer_joined_event}
use challanse.Audit.Chain.Frame.{append_audit_event-Audited}
use challanse.Reviewers.{Identity, chain_at}
use challanse.Reviewers.Membership.{
  Membership, find_invitation, if_active, is_past, check_expiry, rejoined, put_member, join,
  handle_accept_membership,
}

-- The row that an accepted invitation puts.
abbrev member_row : Identity → InvitationRow → String → ReviewerRow
member_row identity invitation now = record {
  email = identity.email;
  site_id = invitation.site_id;
  organization_id = invitation.organization_id;
  role = invitation.role;
  active = true;
  subject = identity.subject;
  issuer = identity.issuer;
  created_at = now;
  updated_at = none;
}

join_tables :
    (p : Platform) (identity : Identity) (invitation : InvitationRow) (id : String) (w : World)
    → ((join p identity invitation id w).1.reviewers
        ≡ put_member (member_row identity invitation (p.iso (p.now_ms w.reads))) w.reviewers)
      × ((join p identity invitation id w).1.invitations
          ≡ update (λ i. i.id == id) (λ i. record i { active = false }) w.invitations)
      × ((join p identity invitation id w).0
          ≡ value (record {
            email = identity.email;
            organization_id = invitation.organization_id;
            site_id = invitation.site_id;
            role = invitation.role;
          }))
join_tables p identity invitation id w =
    let row = member_row identity invitation (p.iso (p.now_ms w.reads)) in
    let u = record w {
      reviewers = put_member row w.reviewers;
      invitations = update (λ i. i.id == id) (λ i. record i { active = false }) w.invitations;
      reads = w.reads + 1 + 1;
    } in
    let audited =
      append_audit_event-Audited p (chain_at invitation.organization_id invitation.site_id)
        "REVIEWER_JOINED"
        (reviewer_joined_event identity.email invitation.site_id invitation.organization_id
          invitation.role (p.iso (p.now_ms (w.reads + 1))))
        u in
    let runs : join p identity invitation id w ≡ (
      value (record {
        email = identity.email;
        organization_id = invitation.organization_id;
        site_id = invitation.site_id;
        role = invitation.role;
      }),
      audited.after,
    ) =
      (unfold join in rw (audited.returned) refl) in
    (
      ap (λ r. r.1.reviewers) runs ∙ ap (λ (x : World). x.reviewers) audited.only,
      ap (λ r. r.1.invitations) runs ∙ ap (λ (x : World). x.invitations) audited.only,
      ap (λ r. r.0) runs,
    )

check_expiry_tables :
    (p : Platform) (expires_at : Option String) (w : World)
    → ((check_expiry p expires_at w).1.reviewers ≡ w.reviewers)
check_expiry_tables p expires_at w =
    elim (given expires_at)
      as (λ b.
        ((if b
            then (do
              now ← read_clock p
              guard (not (is_past (p.parse_time (or_empty expires_at)) now))
                  (response 400 "INVITATION_EXPIRED"))
            else pure tt)
          w).1.reviewers
        ≡ w.reviewers) [
          | true ↦ clocked (not (is_past (p.parse_time (or_empty expires_at)) (p.now_ms w.reads)))
          | false ↦ refl
        ]
  where
    clocked :
        (b : Bool)
        → (guard b
            (response 400 "INVITATION_EXPIRED")
            (record w { reads = w.reads + 1 })).1.reviewers
          ≡ w.reviewers
    clocked true = refl
    clocked false = refl

-- A run that returns has accepted the invitation.
record Accepts (p : Platform) (identity : Identity) (id : Option String) (w : World) : Type 0 where
  pub invitation : InvitationRow
  pub found : if_active (find_invitation (or_empty id) w) ≡ some invitation
  pub before : World
  pub runs :
      handle_accept_membership p identity id w ≡ join p identity invitation (or_empty id) before
  pub same : before.reviewers ≡ w.reviewers

accepts :
    (p : Platform) (identity : Identity) (id : Option String) (w : World) (m : Membership)
    → (handle_accept_membership p identity id w).0 ≡ value m
    → Accepts p identity id w
unfolding handle_accept_membership
accepts p identity id w m h =
    let (_, e1) = guard_value (given id) _ _ w m h in
    let (invitation, active, e2) =
      or_stop_value (if_active (find_invitation (or_empty id) w)) _ _ w m
        (ap (λ r. r.0) (sym e1) ∙ h) in
    let checked = e1 ∙ e2 in
    let u = (check_expiry p invitation.expires_at w).1 in
    let (_, _, e3) =
      continue_value (check_expiry p invitation.expires_at w).0
        (λ _.
          guard (invitation.email == identity.email) (response 403 "INVITATION_EMAIL_MISMATCH")
          >> join p identity invitation (or_empty id))
        u m (ap (λ r. r.0) (sym checked) ∙ h) in
    let unexpired = checked ∙ e3 in
    let (_, e4) =
      guard_value (invitation.email == identity.email) _ _ u m
        (ap (λ r. r.0) (sym unexpired) ∙ h) in
    record {
      invitation = invitation;
      found = active;
      before = u;
      runs = unexpired ∙ e4;
      same = check_expiry_tables p invitation.expires_at w;
    }

deactivated :
    (id : String) (rows : List InvitationRow)
    → if_active
        (find (λ i. i.id == id) (update (λ i. i.id == id) (λ i. record i { active = false }) rows))
      ≡ none
deactivated id [] = refl
deactivated id (i ∷ rows) = elim (Bool-cases (i.id == id)) [
  | inl e ↦ rw (e, e) refl
  | inr n ↦ rw (n, n) (deactivated id rows)
]

-- An invitation that was accepted cannot be accepted again, by anyone: the request is refused and
-- writes nothing.
pub handle_accept_membership_once :
    (p : Platform) (identity other : Identity) (id : Option String) (m : Membership) (w v : World)
    → handle_accept_membership p identity id w ≡ (value m, v)
    → Refused v (handle_accept_membership p other id v)
handle_accept_membership_once p identity other id m w v h =
    let a = accepts p identity id w m (ap (λ r. r.0) h) in
    let (_, used, _) = join_tables p identity a.invitation (or_empty id) a.before in
    let after : v.invitations
        ≡ update (λ i. i.id == or_empty id) (λ i. record i { active = false })
            a.before.invitations =
      (ap (λ r. r.1.invitations) (sym h ∙ a.runs) ∙ used) in
    let gone : if_active (find_invitation (or_empty id) v) ≡ none =
      (rw after (deactivated (or_empty id) a.before.invitations)) in
    unfold handle_accept_membership in
    guard-Refused (given id) _ _ v λ _. rw gone (record { reason = _; stopped = refl })

find-put_member :
    (row old : ReviewerRow) (rows : List ReviewerRow)
    → find (λ r. r.email == row.email) rows ≡ some old
    → find (λ r. r.email == row.email) (put_member row rows) ≡ some (rejoined row old)
find-put_member row old rows h =
    unfold put_member in
    rw (exists-find (λ r. r.email == row.email) rows old h)
      (find-update (λ r. r.email == row.email) (rejoined row) rows old (λ y. refl) h)

if_active_same :
    (o : Option InvitationRow) (i j : InvitationRow) → o ≡ some i → if_active o ≡ some j → j ≡ i
if_active_same none i j h k = cc
if_active_same (some x) i j h k = ground (arith, h, k)

-- Accepting an invitation when the table has a row for the reviewer's e-mail address gives the first
-- such row the site and the role of the invitation that the request names and makes it active, and
-- leaves it in the organization that it was in; the answer names the invitation's organization.
pub handle_accept_membership-member :
    (p : Platform) (identity : Identity) (id : String) (m : Membership) (invitation : InvitationRow)
    (old : ReviewerRow) (w v : World)
    → handle_accept_membership p identity (some id) w ≡ (value m, v)
    → find (λ i. i.id == id) w.invitations ≡ some invitation
    → find (λ r. r.email == identity.email) w.reviewers ≡ some old
    → (find (λ r. r.email == identity.email) v.reviewers
        ≡ some (record old {
          site_id = invitation.site_id;
          role = invitation.role;
          active = true;
          subject = identity.subject;
          issuer = identity.issuer;
        }))
      × (m ≡ record {
        email = identity.email;
        organization_id = invitation.organization_id;
        site_id = invitation.site_id;
        role = invitation.role;
      })
handle_accept_membership-member p identity id m invitation old w v h named found =
    let a = accepts p identity (some id) w m (ap (λ r. r.0) h) in
    let (put, _, answer) = join_tables p identity a.invitation id a.before in
    let same : a.invitation ≡ invitation =
      if_active_same (find_invitation id w) invitation a.invitation named a.found in
    let after = ap (λ r. r.1.reviewers) (sym h ∙ a.runs) ∙ put in
    let answered = ap (λ r. r.0) (sym h ∙ a.runs) ∙ answer in
    let row = member_row identity a.invitation (p.iso (p.now_ms a.before.reads)) in
    let before = ap (find (λ r. r.email == identity.email)) a.same ∙ found in
    let moved =
      ap (find (λ r. r.email == identity.email)) after
      ∙ find-put_member row old a.before.reviewers before in
    (ground (arith, moved, same), ground (arith, answered, same))
