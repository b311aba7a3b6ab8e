-- ===== src/Tests/Admin.antt =====
-- The enrolment and the revocation of a device, and the change of a site, and the theorems on them.
use Prim.Native.String.{◌++◌}
use challanse.Prelude.{
  ◌≡◌, ◌≢◌, refl, ap, sym, ◌∙◌, inl, inr, ℕ, zero, suc, ◌<◌, arith, true, none, some, [], ◌∷◌,
  String, length, All, upper_string, print_number, trim_string,
}
use challanse.World.{World, ReviewerRow, DeviceRow, EnrollmentCodeRow, value, stop, response}
use challanse.Auth.{
  ReviewerContext, DeviceContext, authenticate_device, authenticate_reviewer, get_reviewer,
  require_role, token_hash, touch_device,
}
use challanse.Auth.Laws.{IsIn}
use challanse.Json.{stringify_sorted, quote}
use challanse.Audit.Hash.{canonical_event}
use challanse.Devices.{verify_play_integrity, Environment, hex}
use challanse.Devices.Token.{GivesBytes}
use challanse.Devices.Enroll.{EnrollBody, Enrolled, handle_enroll}
use challanse.Devices.Enroll.Laws.{handle_enroll-authenticate_device, handle_enroll_once}
use challanse.Audit.Chain.{append_audit_event, get_or_create_chain, create_chain, append_to_head}
use challanse.Devices.Enroll.{enroll_device, record_device}
use challanse.Graph.{upsert_graph_node, upsert_graph_edge, ensure_device_in_graph}
use challanse.Reviewers.{Identity, reviewer_as}
use challanse.Admin.{admins}
use challanse.Admin.Sites.{SiteBody, handle_upsert_site}
use challanse.Admin.Isolation.{other_sites, handle_upsert_site-other_sites}
use challanse.Admin.Devices.{handle_revoke_device}
use challanse.Admin.Devices.Laws.{handle_revoke_device-authenticate_device}
use challanse.Tests.Data.{bytes_from}
use challanse.Tests.Access.{platform, site_world, device_row}

abbrev admin_identity : Identity
admin_identity = record { issuer = "iss"; subject = "adm"; email = "a@x" }

abbrev admin_row : ReviewerRow
admin_row = record {
  email = "a@x";
  site_id = "s1";
  organization_id = "o1";
  role = "ORG_ADMIN";
  active = true;
  subject = "adm";
  issuer = "iss";
  created_at = "0";
  updated_at = none;
}

abbrev admin : ReviewerContext
admin = record {
  user_id = "a@x";
  organization_id = "o1";
  site_id = "s1";
  role = "ORG_ADMIN";
  email = "a@x";
  issuer = "iss";
  subject = "adm";
}

abbrev code_row : EnrollmentCodeRow
code_row = record {
  id = "c1";
  code = "ABCD2345";
  site_id = "s1";
  organization_id = "o1";
  device_name = "Gate";
  expires_at = none;
  created_by = "a@x";
  active = true;
  created_at = "0";
}

abbrev admin_world : World
admin_world = record site_world { reviewers = admin_row ∷ []; codes = code_row ∷ [] }

abbrev new_world : World
new_world = record admin_world { devices = [] }

abbrev pilot : Environment
pilot = record {
  environment = "local-pilot";
  device_token_pepper = some "pepper";
  play_integrity_credentials = none;
  play_integrity_project = none;
  turnstile_site_key = none;
}

abbrev enrollment : EnrollBody
enrollment = record {
  enrollment_code = some "abcd2345";
  app_version = none;
  integrity_token = none;
}

abbrev answer : Enrolled
answer = record {
  device_id = platform.uuid 0;
  site_id = "s1";
  organization_id = "o1";
  token = hex (platform.random_bytes 0 32);
}

length-bytes_from : (n k : ℕ) → length (bytes_from n k) ≡ k
length-bytes_from n zero = refl
length-bytes_from n (suc k) = omega (arith, length-bytes_from n k)

bytes_from-small : (n k : ℕ) → All (λ b. b < 256) (bytes_from n k)
bytes_from-small n zero = tt
bytes_from-small n (suc k) = (omega arith, bytes_from-small n k)

gives : GivesBytes platform
gives = record { count = length-bytes_from; small = bytes_from-small }

abbrev enrolled_world : World
enrolled_world = (handle_enroll platform pilot (some enrollment) new_world).1

enrolled : handle_enroll platform pilot (some enrollment) new_world ≡ (value answer, enrolled_world)
unfolding handle_enroll enroll_device record_device ensure_device_in_graph upsert_graph_node
    upsert_graph_edge append_audit_event get_or_create_chain create_chain append_to_head
    upper_string verify_play_integrity canonical_event stringify_sorted quote print_number
enrolled = refl

handle_enroll-authenticate_device_example :
    (name : String) × ((authenticate_device platform
        (some ("Bearer " ++ answer.token))
        (some "pepper")
        enrolled_world).0
      ≡ value
          (record { id = answer.device_id; organization_id = "o1"; site_id = "s1"; name = name }))
handle_enroll-authenticate_device_example =
    handle_enroll-authenticate_device platform pilot enrollment answer new_world enrolled_world
      enrolled_world enrolled refl refl refl gives refl ((λ _. refl), tt)

one_code :
    (a b : EnrollmentCodeRow)
    → IsIn a (code_row ∷ [])
    → IsIn b (code_row ∷ [])
    → a.code ≡ b.code
    → a.id ≡ b.id
one_code a b (inl e) (inl f) same =
    ap (λ (c : EnrollmentCodeRow). c.id) e ∙ sym (ap (λ (c : EnrollmentCodeRow). c.id) f)
one_code a b (inl e) (inr f) same = absurd f
one_code a b (inr e) f same = absurd e

handle_enroll_once_example :
    (handle_enroll platform pilot (some enrollment) enrolled_world).0
    ≡ stop (response 404 "INVALID_ENROLLMENT_CODE")
handle_enroll_once_example =
    handle_enroll_once platform pilot enrollment enrollment answer new_world enrolled_world enrolled
      one_code refl refl

abbrev foreign_site : SiteBody
foreign_site = record {
  id = some "s9";
  name = some "Mine";
  allowed_wifi_ssids = none;
  configuration_version = none;
  daily_receipt_limit = some 5;
  image_byte_limit = none;
  storage_byte_limit = none;
}

admin_known : reviewer_as admins admin_identity admin_world ≡ (value admin, admin_world)
unfolding reviewer_as authenticate_reviewer get_reviewer require_role
admin_known = refl

handle_upsert_site-other_sites_example :
    other_sites "o1" (handle_upsert_site platform admin_identity foreign_site admin_world).1
    ≡ other_sites "o1" admin_world
handle_upsert_site-other_sites_example =
    handle_upsert_site-other_sites platform admin_identity foreign_site admin admin_world
      admin_known

-- Another device of the organization, whose token is still good after the revocation.
abbrev second_device : DeviceRow
second_device = record device_row {
  id = "d2";
  token_hash = "abcdefabcdefabcdefabcdefabcdefabpepper";
}

abbrev two_devices : World
two_devices = record admin_world { devices = device_row ∷ second_device ∷ [] }

abbrev revoked_world : World
revoked_world = (handle_revoke_device platform admin_identity "d1" two_devices).1

revokes : handle_revoke_device platform admin_identity "d1" two_devices ≡ (value tt, revoked_world)
unfolding handle_revoke_device reviewer_as authenticate_reviewer get_reviewer require_role
    append_audit_event canonical_event stringify_sorted quote print_number
revokes = refl

abbrev second_context : DeviceContext
second_context = record { id = "d2"; organization_id = "o1"; site_id = "s1"; name = "Gate" }

second_authenticated :
    (authenticate_device platform
      (some "Bearer abcdefabcdefabcdefabcdefabcdefab")
      (some "pepper")
      revoked_world).0
    ≡ value second_context
unfolding authenticate_device trim_string handle_revoke_device reviewer_as authenticate_reviewer
    get_reviewer require_role append_audit_event canonical_event stringify_sorted quote print_number
    token_hash touch_device
second_authenticated = refl

handle_revoke_device-authenticate_device_example : second_context.id ≢ "d1"
handle_revoke_device-authenticate_device_example =
    handle_revoke_device-authenticate_device platform admin_identity "d1" two_devices revoked_world
      (some "Bearer abcdefabcdefabcdefabcdefabcdefab") (some "pepper") second_context revokes
      second_authenticated
