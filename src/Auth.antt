-- ===== src/Auth.antt =====
-- apps/edge/src/auth.ts: the authentication of devices and reviewers, with the queries of
-- apps/edge/src/db.ts that it uses (`getOrganization`, `getSite`, `getReviewer`, `touchDevice` and
-- `consumeNonce`).
pub mod Laws
pub mod Nonces
use Prim.Native.String.{◌++◌}
use Prim.Native.Char.{code}
use text.Mathlib.Text.{◌==◌}
use challanse.Prelude.{
  ℕ, ◌+◌, ◌-◌, ◌*◌, ◌/◌, Bool, true, false, not, ◌&&◌, ◌||◌, Option, none, some, List, [], ◌∷◌,
  String, find, update, ltb, leb, if◌then◌else◌, starts_with, drop, string_length, trim_string,
  is_space, nat_eq,
}
use challanse.World.{
  World, Platform, Act, OrganizationRow, SiteRow, DeviceRow, ReviewerRow, NonceRow, response,
  device_auth, reviewer_auth, Stop, Outcome, value, stop, pure, raise, gets, modify, guard, or_stop,
  ◌>>=◌, ◌>>◌, draw_uuid, read_clock, now_iso,
}

pub record DeviceContext : Type 0 where
  pub id : String
  pub organization_id : String
  pub site_id : String
  pub name : String

pub record ReviewerContext : Type 0 where
  pub user_id : String
  pub organization_id : String
  pub site_id : String
  pub role : String
  pub email : String
  pub issuer : String
  pub subject : String

-- The headers of a request that the handlers read.
pub record Headers : Type 0 where
  pub authorization : Option String
  pub nonce : Option String
  pub device_timestamp : Option String

-- `s ? … : …` and `!s` of an optional text.
abbrev pub given : Option String → Bool
given none = false
given (some s) = not (s == "")

abbrev pub or_empty : Option String → String
or_empty none = ""
or_empty (some s) = s

unfoldable pub get_organization : World → String → Option OrganizationRow
get_organization w id = find (λ o. o.id == id && o.active) w.organizations

unfoldable pub get_site : World → String → Option SiteRow
get_site w id = find (λ s. s.id == id && s.active) w.sites

unfoldable pub get_reviewer : World → String → String → Option ReviewerRow
get_reviewer w issuer subject =
    find (λ r. r.issuer == issuer && (r.subject == subject && r.active)) w.reviewers

unfoldable pub touch_device : Platform → String → Act (Unit {0})
touch_device p id = do
  now ← now_iso p
  modify (λ w. record w {
    devices = update (λ d. d.id == id) (λ d. record d { last_seen_at = now }) w.devices;
  })

unfoldable pub token_hash : Platform → String → String → String
token_hash p token pepper = p.sha256_hex (token ++ (":" ++ pepper))

abbrev pub exists {ℓ} : {A : Type ℓ} → (A → Bool) → List A → Bool
exists p [] = false
exists p (x ∷ xs) = p x || exists p xs

-- The `WHERE` and the joins of the query for a token's device.
abbrev pub device_matches : World → String → DeviceRow → Bool
device_matches w hash d =
    (d.token_hash == hash && d.active)
    && (exists (λ o. o.id == d.organization_id && o.active) w.organizations
        && exists (λ s. s.id == d.site_id && (s.organization_id == d.organization_id && s.active))
            w.sites)

abbrev pub context_of : DeviceRow → DeviceContext
context_of d = record {
  id = d.id;
  organization_id = d.organization_id;
  site_id = d.site_id;
  name = d.name;
}

abbrev pub unauthorized : Stop
unauthorized = device_auth "DEVICE_UNAUTHORIZED" 401

-- What follows the prefix `Bearer `.
abbrev pub bearer_token : Option String → String
bearer_token authorization = trim_string (drop 7 (or_empty authorization))

abbrev pub authenticate_token : Platform → String → Act DeviceContext
authenticate_token p hash = do
  found ← gets (λ w. find (device_matches w hash) w.devices)
  row ← or_stop found unauthorized
  touch_device p row.id
  pure (context_of row)

-- `authorization` is the header, `pepper` the secret of the environment.
unfoldable pub authenticate_device :
    Platform → (authorization pepper : Option String) → Act DeviceContext
authenticate_device p authorization pepper = do
  guard (given pepper && starts_with "Bearer " (or_empty authorization)) unauthorized
  guard (not (ltb (string_length (bearer_token authorization)) 32)) unauthorized
  authenticate_token p (token_hash p (bearer_token authorization) (or_empty pepper))

-- A whole number with its sign.
pub data Signed : Type 0 where
  plus minus : ℕ → Signed

abbrev is_digit : ℕ → Bool
is_digit c = leb 48 c && leb c 57

abbrev more_digits : ℕ → String → ℕ
more_digits n String.[] = n
more_digits n (String.◌∷◌ c s) =
    let rest = more_digits (n * 10 + (code c - 48)) s in if is_digit (code c) then rest else n

abbrev read_digits : String → Option ℕ
read_digits String.[] = none
read_digits (String.◌∷◌ c s) =
    if is_digit (code c) then some (more_digits (code c - 48) s) else none

abbrev with_sign : (ℕ → Signed) → Option ℕ → Option Signed
with_sign sign none = none
with_sign sign (some n) = some (sign n)

abbrev read_signed : String → Option Signed
read_signed String.[] = none
read_signed (String.◌∷◌ c s) =
    if nat_eq (code c) 43
    then with_sign plus (read_digits s)
    else if nat_eq (code c) 45
    then with_sign minus (read_digits s)
    else with_sign plus (read_digits (String.◌∷◌ c s))

abbrev skip_space : String → String
skip_space String.[] = ""
skip_space (String.◌∷◌ c s) = if is_space (code c) then skip_space s else String.◌∷◌ c s

-- `parseInt(text, 10)`, `none` for `NaN`. Digits past the precision of a number make a value that is
-- far from any time, here as there.
unfoldable pub parse_int : String → Option Signed
parse_int s = read_signed (skip_space s)

-- `Math.abs(now - ts) > 300`
abbrev pub out_of_window : ℕ → Signed → Bool
out_of_window now (plus n) = ltb 300 ((now - n) + (n - now))
out_of_window now (minus n) = ltb 300 (now + n)

-- `(ts + 300) * 1000`, for a time within the window.
abbrev pub expiry_ms : Signed → ℕ
expiry_ms (plus n) = (n + 300) * 1000
expiry_ms (minus n) = (300 - n) * 1000

pub data NonceResult : Type 0 where
  ok replay expired : NonceResult

abbrev pub same_nonce : String → String → NonceRow → Bool
same_nonce device_id nonce r = r.device_id == device_id && r.nonce == nonce

abbrev pub insert_nonce : Platform → String → String → Signed → Act NonceResult
insert_nonce p device_id nonce ts = do
  id ← draw_uuid p
  modify (λ w. record w {
    nonces =
        (record {
          id = id;
          device_id = device_id;
          nonce = nonce;
          expires_at = p.iso (expiry_ms ts);
        })
        ∷ w.nonces;
  })
  pure ok

-- The query for the nonce and, without one, the insertion.
abbrev pub use_nonce : Platform → String → String → Signed → Act NonceResult
use_nonce p device_id nonce ts = do
  existing ← gets (λ w. exists (same_nonce device_id nonce) w.nonces)
  if existing then pure replay else insert_nonce p device_id nonce ts

abbrev pub consume_at : Platform → String → String → ℕ → Option Signed → Act NonceResult
consume_at p device_id nonce now none = pure expired
consume_at p device_id nonce now (some ts) =
    if out_of_window now ts then pure expired else use_nonce p device_id nonce ts

unfoldable pub consume_nonce : Platform → (device_id timestamp nonce : String) → Act NonceResult
consume_nonce p device_id timestamp nonce = do
  now_ms ← read_clock p
  consume_at p device_id nonce (now_ms / 1000) (parse_int timestamp)

abbrev pub nonce_outcome : NonceResult → Act (Unit {0})
nonce_outcome ok = pure tt
nonce_outcome replay = raise (device_auth "DEVICE_NONCE_REPLAY" 400)
nonce_outcome expired = raise (device_auth "DEVICE_NONCE_EXPIRED" 400)

unfoldable pub authenticate_device_nonce : Platform → DeviceContext → Headers → Act (Unit {0})
authenticate_device_nonce p device h = do
  guard (given h.nonce && given h.device_timestamp) (device_auth "DEVICE_NONCE_REQUIRED" 400)
  result ← consume_nonce p device.id (or_empty h.device_timestamp) (or_empty h.nonce)
  nonce_outcome result

abbrev pub reviewer_context : ReviewerRow → ReviewerContext
reviewer_context r = record {
  user_id = r.email;
  organization_id = r.organization_id;
  site_id = r.site_id;
  role = r.role;
  email = r.email;
  issuer = r.issuer;
  subject = r.subject;
}

-- The handler's e-mail argument is not read by the source.
unfoldable pub authenticate_reviewer : (issuer subject : String) → Act ReviewerContext
authenticate_reviewer issuer subject = do
  found ← gets (λ w. get_reviewer w issuer subject)
  row ← or_stop found (reviewer_auth "REVIEWER_UNAUTHORIZED" 401)
  pure (reviewer_context row)

unfoldable pub require_role : ReviewerContext → List String → Act (Unit {0})
require_role reviewer allowed_roles =
    guard (exists (λ r. r == reviewer.role) allowed_roles) (reviewer_auth "REVIEWER_FORBIDDEN" 403)

unfoldable pub verify_site_access : ReviewerContext → String → Act (Unit {0})
verify_site_access reviewer site_id = do
  found ← gets (λ w. get_site w site_id)
  site ← or_stop found (reviewer_auth "SITE_ACCESS_DENIED" 403)
  guard (site.organization_id == reviewer.organization_id) (reviewer_auth "SITE_ACCESS_DENIED" 403)

unfoldable pub verify_organization : String → Act (Unit {0})
verify_organization organization_id = do
  found ← gets (λ w. get_organization w organization_id)
  _ ← or_stop found (reviewer_auth "ORGANIZATION_NOT_FOUND" 404)
  pure tt
