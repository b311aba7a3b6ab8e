-- ===== src/Auth/Laws.antt =====
-- apps/edge/src/auth.ts: the authentication of a device, and a reviewer's access to a site.
use text.Mathlib.Text.{◌==◌}
use text.Mathlib.TextEquality.{eq_iff}
use challanse.Prelude.{
  ◌≡◌, refl, sym, ap, ◌∙◌, ◌≤◌, Bool, true, false, ◌&&◌, not, Option, none, some, List, [], ◌∷◌,
  arith, String, ltb, find, ◌↔◌, ◌⊎◌, inl, inr, string_length, Bool-cases, starts_with,
}
use challanse.World.{
  Act, pure, ◌>>◌, Stop, reviewer_auth, World, Platform, value, guard, or_stop, DeviceRow,
  OrganizationRow, SiteRow, ◌>>=◌,
}
use challanse.World.Laws.{guard_value, or_stop_value}
use challanse.Auth.{
  exists, given, or_empty, DeviceContext, device_matches, context_of, authenticate_token,
  authenticate_device, token_hash, bearer_token, unauthorized, get_site, ReviewerContext,
  verify_site_access, touch_device,
}

-- The row stands in the table.
abbrev pub IsIn : {A : Type 0} → A → List A → Type 0
IsIn a [] = ⊥
IsIn a (x ∷ xs) = (a ≡ x) ⊎ IsIn a xs

module _ {A : Type 0} where
  pub find-some :
      (q : A → Bool) (xs : List A) (a : A) → find q xs ≡ some a → (q a ≡ true) × IsIn a xs
  find-some q [] a h = ground (arith, h)
  find-some q (x ∷ xs) a h = ground (arith, h, find-some q xs a)

  pub exists-find : (q : A → Bool) (xs : List A) (a : A) → find q xs ≡ some a → exists q xs ≡ true
  exists-find q [] a h = ground (arith, h)
  exists-find q (x ∷ xs) a h = ground (arith, h, exists-find q xs a)

  exists-some :
      (q : A → Bool) (xs : List A) → exists q xs ≡ true → (a : A) × (q a ≡ true) × IsIn a xs
  exists-some q [] h = ground (arith, h)
  exists-some q (x ∷ xs) h = elim (Bool-cases (q x)) [
    | inl t ↦ (x, t, inl refl)
    | inr f ↦ let (a, holds, at) = exists-some q xs (ground (arith, h, f)) in (a, holds, inr at)
  ]

-- The row of an active device with this token's hash, whose organization is active, and whose site is
-- active and the organization's.
pub record IsEnrolled (w : World) (hash : String) (context : DeviceContext) : Type 0 where
  pub device : DeviceRow
  pub organization : OrganizationRow
  pub site : SiteRow
  pub device_listed : IsIn device w.devices
  pub organization_listed : IsIn organization w.organizations
  pub site_listed : IsIn site w.sites
  pub hashed : device.token_hash ≡ hash
  pub active : (device.active ≡ true) × (organization.active ≡ true) × (site.active ≡ true)
  pub device_organization : organization.id ≡ device.organization_id
  pub device_site : site.id ≡ device.site_id
  pub site_organization : site.organization_id ≡ device.organization_id
  pub context_is : context ≡ context_of device

matches-IsEnrolled :
    (w : World) (hash : String) (d : DeviceRow)
    → device_matches w hash d ≡ true
    → IsIn d w.devices
    → (context : DeviceContext) → context ≡ context_of d
    → IsEnrolled w hash context
matches-IsEnrolled w hash d h at context e =
    let q = λ (o : OrganizationRow). o.id == d.organization_id && o.active in
    let r =
      λ (s : SiteRow). s.id == d.site_id && (s.organization_id == d.organization_id && s.active) in
    let (o, holds_o, in_o) = exists-some q w.organizations (ground (arith, h)) in
    let (s, holds_s, in_s) = exists-some r w.sites (ground (arith, h)) in
    record {
      device = d;
      organization = o;
      site = s;
      device_listed = at;
      organization_listed = in_o;
      site_listed = in_s;
      hashed = ground (arith, h, eq_iff d.token_hash hash);
      active = (ground (arith, h), ground (arith, holds_o), ground (arith, holds_s));
      device_organization = ground (arith, holds_o, eq_iff o.id d.organization_id);
      device_site = ground (arith, holds_s, eq_iff s.id d.site_id);
      site_organization = ground (arith, holds_s, eq_iff s.organization_id d.organization_id);
      context_is = e;
    }

-- What follows the query.
abbrev touched : Platform → DeviceRow → Act DeviceContext
touched p row = do touch_device p row.id; pure (context_of row)

authenticate_token-IsEnrolled :
    (p : Platform) (hash : String) (w : World) (context : DeviceContext)
    → (authenticate_token p hash w).0 ≡ value context
    → IsEnrolled w hash context
unfolding touch_device
authenticate_token-IsEnrolled p hash w context h =
    let (row, found, returned) =
      or_stop_value (find (device_matches w hash) w.devices) unauthorized (touched p) w context h in
    let (holds, at) = find-some (device_matches w hash) w.devices row found in
    let same : value context ≡ value (context_of row) = sym h ∙ ap (λ r. r.0) returned in
    matches-IsEnrolled w hash row holds at context (ground (arith, same))

-- A device that is authenticated sent a header `Bearer ` with a token of at least 32 characters, whose
-- hash with the secret is that of an active device of an active organization, at an active site of
-- this organization; the context names this device.
pub authenticate_device-IsEnrolled :
    (p : Platform) (authorization pepper : Option String) (w : World) (context : DeviceContext)
    → (authenticate_device p authorization pepper w).0 ≡ value context
    → IsEnrolled w (token_hash p (bearer_token authorization) (or_empty pepper)) context
      × (starts_with "Bearer " (or_empty authorization) ≡ true)
      × (32 ≤ string_length (bearer_token authorization))
unfolding authenticate_device
authenticate_device-IsEnrolled p authorization pepper w context h =
    let token = bearer_token authorization in
    let hash = token_hash p token (or_empty pepper) in
    let long = not (ltb (string_length token) 32) in
    let rest = guard long unauthorized >> authenticate_token p hash in
    let has_bearer = given pepper && starts_with "Bearer " (or_empty authorization) in
    let (bearer, e) = guard_value has_bearer unauthorized rest w context h in
    let (enough, f) =
      guard_value long unauthorized (authenticate_token p hash) w context
        (ap (λ r. r.0) (sym e) ∙ h) in
    (
      authenticate_token-IsEnrolled p hash w context
          (ap (λ r. r.0) (sym f) ∙ (ap (λ r. r.0) (sym e) ∙ h)),
      ground (arith, bearer),
      ground (arith, enough),
    )

abbrev denied : Stop
denied = reviewer_auth "SITE_ACCESS_DENIED" 403

abbrev own_site : ReviewerContext → SiteRow → Act (Unit {0})
own_site reviewer site = guard (site.organization_id == reviewer.organization_id) denied

own_site_iff :
    (reviewer : ReviewerContext) (site : SiteRow) (w : World)
    → (((own_site reviewer site w).0 ≡ value tt)
        ↔ ((s : SiteRow) × (some site ≡ some s) × (s.organization_id ≡ reviewer.organization_id)))
      × ((own_site reviewer site w).1 ≡ w)
own_site_iff reviewer site w =
    elim (site.organization_id == reviewer.organization_id)
        as (λ b.
          (b ≡ (site.organization_id == reviewer.organization_id))
          → (((guard b denied w).0 ≡ value tt) ↔ (
              (s : SiteRow) × (some site ≡ some s)
              × (s.organization_id ≡ reviewer.organization_id)))
            × ((guard b denied w).1 ≡ w)) [
              | true ↦ λ e. (
                (
                  λ h. (
                    site,
                    refl,
                    ground (arith, e, eq_iff site.organization_id reviewer.organization_id),
                  ),
                  λ _. refl,
                ),
                refl,
              )
              | false ↦ λ e. (
                (
                  λ h. ground (arith, h),
                  λ (s, same, own).
                      ground
                        (arith, e, same, own, eq_iff site.organization_id reviewer.organization_id),
                ),
                refl,
              )
            ]
      refl

-- A reviewer passes the check of a site exactly when the first active site of this identifier is one of
-- the reviewer's organization, and the check changes nothing.
pub verify_site_access_iff :
    (reviewer : ReviewerContext) (site_id : String) (w : World)
    → (((verify_site_access reviewer site_id w).0 ≡ value tt) ↔ (
        (s : SiteRow) × (get_site w site_id ≡ some s)
        × (s.organization_id ≡ reviewer.organization_id)))
      × ((verify_site_access reviewer site_id w).1 ≡ w)
unfolding verify_site_access
verify_site_access_iff reviewer site_id w =
    elim (get_site w site_id)
      as (λ o.
        ((((or_stop o denied >>= own_site reviewer) w).0 ≡ value tt)
          ↔ ((s : SiteRow) × (o ≡ some s) × (s.organization_id ≡ reviewer.organization_id)))
        × (((or_stop o denied >>= own_site reviewer) w).1 ≡ w)) [
          | none ↦ ((λ h. ground (arith, h), λ (s, h, e). ground (arith, h)), refl)
          | some s ↦ own_site_iff reviewer s w
        ]
