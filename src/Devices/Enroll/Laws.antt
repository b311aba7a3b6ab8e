-- ===== src/Devices/Enroll/Laws.antt =====
-- apps/edge/src/handlers/devices.ts with apps/edge/src/auth.ts: a new device can authenticate, and its
-- code is used up.
use Prim.Native.String.{◌++◌}
use text.Mathlib.Text.{◌==◌}
use text.Mathlib.TextEquality.{eq_iff}
use text.Mathlib.TextPositions.{eq_refl}
use challanse.Prelude.{
  ◌≡◌, ◌≢◌, refl, sym, ap, ◌∙◌, ℕ, ◌+◌, arith, true, false, not, ◌&&◌, ◌||◌, Option, none, some,
  List, [], ◌∷◌, String, find, update, add_last, All, inl, inr, upper_string,
}
use challanse.World.{World, Platform, response, DeviceRow, EnrollmentCodeRow, SiteRow, value, stop}
use challanse.World.Laws.{guard_value, or_stop_value}
use challanse.Auth.{
  given, or_empty, exists, token_hash, device_matches, context_of, authenticate_device,
  authenticate_token, touch_device,
}
use challanse.Auth.Laws.{IsIn, find-some}
use challanse.Devices.{Environment, hex}
use challanse.Devices.Token.{GivesBytes, token_lem}
use challanse.Devices.Enroll.{
  EnrollBody, Enrolled, code_matches, enroll_device, integrity_passes, handle_enroll,
}
use challanse.Devices.Enroll.Effects.{device_row, enroll_device-value, enroll_device-Enrols}

-- A run that returns has found a code and enrolled by it.
record Finds (p : Platform) (env : Environment) (body : EnrollBody) (w : World) : Type 0 where
  pub code : EnrollmentCodeRow
  pub runs :
      handle_enroll p env (some body) w
      ≡ enroll_device p env body code (record w { reads = w.reads + 1 })
  pub matches :
      code_matches w
        (upper_string (or_empty body.enrollment_code))
        (p.sql_time (p.now_ms w.reads))
        code
      ≡ true
  pub listed : IsIn code w.codes

finds :
    (p : Platform) (env : Environment) (body : EnrollBody) (w : World) (answer : Enrolled)
    → (handle_enroll p env (some body) w).0 ≡ value answer
    → Finds p env body w
unfolding handle_enroll
finds p env body w answer h =
    let u = record w { reads = w.reads + 1 } in
    let q =
      code_matches w (upper_string (or_empty body.enrollment_code))
        (p.sql_time (p.now_ms w.reads)) in
    let (_, e1) = guard_value (given body.enrollment_code) _ _ w answer h in
    let (c, found, e2) = or_stop_value (find q w.codes) _ _ u answer (ap (λ r. r.0) (sym e1) ∙ h) in
    let checked = e1 ∙ e2 in
    let (_, e3) =
      guard_value (integrity_passes env body) _ _ u answer (ap (λ r. r.0) (sym checked) ∙ h) in
    let (matches, listed) = find-some q w.codes c found in
    record { code = c; runs = checked ∙ e3; matches = matches; listed = listed }

exists-site :
    (c : EnrollmentCodeRow) (sites : List SiteRow)
    → All (λ s. s.id ≡ c.site_id → s.organization_id ≡ c.organization_id) sites
    → exists (λ s. s.id == c.site_id && s.active) sites ≡ true
    → exists (λ s. s.id == c.site_id && (s.organization_id == c.organization_id && s.active)) sites
      ≡ true
exists-site c [] all h = ground (arith, h)
exists-site c (s ∷ sites) (own, all) h = ground (
  arith,
  h,
  own,
  exists-site c sites all,
  eq_iff s.id c.site_id,
  eq_iff s.organization_id c.organization_id,
)

find-new_device :
    (w : World) (hash : String) (row : DeviceRow) (devices : List DeviceRow)
    → All (λ d. d.token_hash ≢ hash) devices
    → device_matches w hash row ≡ true
    → find (device_matches w hash) (add_last devices row) ≡ some row
find-new_device w hash row [] all h = rw h refl
find-new_device w hash row (d ∷ devices) (other, all) h =
    ground (arith, other, find-new_device w hash row devices all h, eq_iff d.token_hash hash)

authenticate_token_found :
    (p : Platform) (hash : String) (w : World) (row : DeviceRow)
    → find (device_matches w hash) w.devices ≡ some row
    → (authenticate_token p hash w).0 ≡ value (context_of row)
unfolding touch_device
authenticate_token_found p hash w row h = rw h refl

-- The checks on the header pass, so the query for the token decides.
authenticate_device-token :
    (p : Platform) (pepper : Option String) (n : ℕ) (w : World)
    → GivesBytes p
    → given pepper ≡ true
    → authenticate_device p (some ("Bearer " ++ hex (p.random_bytes n 32))) pepper w
      ≡ authenticate_token p (token_hash p (hex (p.random_bytes n 32)) (or_empty pepper)) w
unfolding authenticate_device
authenticate_device-token p pepper n w gives secret =
    let (bearer, read, long) = token_lem p gives n in rw (secret, bearer, read, long) refl

device_matches_new :
    (p : Platform) (env : Environment) (body : EnrollBody) (c : EnrollmentCodeRow) (w v : World)
    → exists (λ o. o.id == c.organization_id && o.active) v.organizations ≡ true
    → exists
        (λ s. s.id == c.site_id && (s.organization_id == c.organization_id && s.active))
        v.sites
      ≡ true
    → device_matches v (device_row p env body c w).token_hash (device_row p env body c w) ≡ true
device_matches_new p env body c w v o s =
    rw (eq_refl (device_row p env body c w).token_hash, o, s) refl

new_hash :
    (row : DeviceRow) (devices : List DeviceRow)
    → not (exists (λ d. d.id == row.id || d.token_hash == row.token_hash) devices) ≡ true
    → All (λ d. d.token_hash ≢ row.token_hash) devices
new_hash row [] h = tt
new_hash row (d ∷ devices) h = (
  λ e. ground (arith, h, (eq_iff d.token_hash row.token_hash).1 e),
  new_hash row devices (ground (arith, h)),
)

-- A device that has enrolled is authenticated by the token that it was given, in the state that the
-- enrolment leaves and in every other state with the same devices, sites and organizations: the code's
-- site is taken to be of the code's organization, the secret to be set, and the platform to give as
-- many random bytes as are asked for.
pub handle_enroll-authenticate_device :
    (p : Platform) (env : Environment) (body : EnrollBody) (answer : Enrolled) (w v later : World)
    → handle_enroll p env (some body) w ≡ (value answer, v)
    → later.devices ≡ v.devices
    → later.sites ≡ v.sites
    → later.organizations ≡ v.organizations
    → GivesBytes p
    → given env.device_token_pepper ≡ true
    → All (λ s. s.id ≡ answer.site_id → s.organization_id ≡ answer.organization_id) w.sites
    → (name : String) × ((authenticate_device p
          (some ("Bearer " ++ answer.token))
          env.device_token_pepper
          later).0
        ≡ value (record {
          id = answer.device_id;
          organization_id = answer.organization_id;
          site_id = answer.site_id;
          name = name;
        }))
handle_enroll-authenticate_device p env body answer w v later h devices sites organizations gives
      secret own =
    let f = finds p env body w answer (ap (λ r. r.0) h) in
    let u = record w { reads = w.reads + 1 } in
    let (room, new_row) =
      enroll_device-value p env body f.code u answer (ap (λ r. r.0) (sym f.runs ∙ h)) in
    let e = enroll_device-Enrols p env body f.code u room new_row in
    let same = sym h ∙ f.runs ∙ e.returned in
    let answered = ap (λ r. r.0) same in
    let after : v ≡ e.after = ap (λ r. r.1) same in
    let token : answer.token ≡ hex (p.random_bytes w.draws 32) = ground (arith, answered) in
    let site : answer.site_id ≡ f.code.site_id = ground (arith, answered) in
    let organization : answer.organization_id ≡ f.code.organization_id = ground (arith, answered) in
    let device : answer.device_id ≡ p.uuid w.uuids = ground (arith, answered) in
    let row = device_row p env body f.code u in
    let there =
      exists-site f.code w.sites (rw (sym site, sym organization) own)
        (ground (arith, f.matches)) in
    let known_organizations =
      organizations ∙ ap (λ (x : World). x.organizations) after ∙ e.organizations in
    let known_sites = sites ∙ ap (λ (x : World). x.sites) after ∙ e.sites in
    let known_devices = devices ∙ ap (λ (x : World). x.devices) after ∙ e.devices in
    let new =
      device_matches_new p env body f.code u later
        (rw known_organizations (ground (arith, f.matches))) (rw known_sites there) in
    let found : find (device_matches later row.token_hash) later.devices ≡ some row =
      (rw known_devices (
        find-new_device later row.token_hash row w.devices (new_hash row w.devices new_row) new)) in
    (
      f.code.device_name,
      rw (token, site, organization, device)
          (ap (λ r. r.0)
              (authenticate_device-token p env.device_token_pepper w.draws later gives secret)
            ∙ authenticate_token_found p row.token_hash later row found),
    )

-- No code is found when all the rows that have it are deactivated.
no_code :
    (w : World) (code now id : String) (rows : List EnrollmentCodeRow)
    → ((d : EnrollmentCodeRow) → IsIn d rows → d.code ≡ code → d.id ≡ id)
    → find
        (code_matches w code now)
        (update (λ d. d.id == id) (λ d. record d { active = false }) rows)
      ≡ none
no_code w code now id [] h = refl
no_code w code now id (d ∷ rows) h = ground (
  arith,
  h d (inl refl),
  no_code w code now id rows (λ x at. h x (inr at)),
  eq_iff d.code code,
  eq_iff d.id id,
)

-- A code is of one use: where no two rows of the table have this code and different identifiers, a
-- request with the code of an enrolment, in small letters or in capitals, is answered with 404.
pub handle_enroll_once :
    (p : Platform) (env : Environment) (body later : EnrollBody) (answer : Enrolled) (w v : World)
    → handle_enroll p env (some body) w ≡ (value answer, v)
    → ((a b : EnrollmentCodeRow) → IsIn a w.codes → IsIn b w.codes → a.code ≡ b.code → a.id ≡ b.id)
    → given later.enrollment_code ≡ true
    → upper_string (or_empty later.enrollment_code) ≡ upper_string (or_empty body.enrollment_code)
    → (handle_enroll p env (some later) v).0 ≡ stop (response 404 "INVALID_ENROLLMENT_CODE")
handle_enroll_once p env body later answer w v h unique sent again =
    let f = finds p env body w answer (ap (λ r. r.0) h) in
    let u = record w { reads = w.reads + 1 } in
    let (room, new_row) =
      enroll_device-value p env body f.code u answer (ap (λ r. r.0) (sym f.runs ∙ h)) in
    let e = enroll_device-Enrols p env body f.code u room new_row in
    let after : v ≡ e.after = ap (λ r. r.1) (sym h ∙ f.runs ∙ e.returned) in
    let code = upper_string (or_empty body.enrollment_code) in
    let used : v.codes
        ≡ update (λ d. d.id == f.code.id) (λ d. record d { active = false }) w.codes =
      (ap (λ (x : World). x.codes) after ∙ e.codes) in
    let same : f.code.code ≡ code = ground (arith, f.matches, eq_iff f.code.code code) in
    let gone : find
          (code_matches v (upper_string (or_empty later.enrollment_code))
            (p.sql_time (p.now_ms v.reads)))
          v.codes
        ≡ none =
      (rw (again, used)
        (no_code v code (p.sql_time (p.now_ms v.reads)) f.code.id w.codes
          λ d at coded. unique d f.code at f.listed (coded ∙ sym same))) in
    unfold handle_enroll in rw (sent, gone) refl
