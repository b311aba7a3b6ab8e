-- ===== src/Admin.antt =====
-- apps/edge/src/handlers/admin.ts: the administration of an organization. Numbers in a request are
-- whole, as the web application sends them. A body that is no JSON counts as one without fields.
pub mod Sites
pub mod Members
pub mod Devices
pub mod Isolation
pub mod Quotas
pub mod Chains
pub mod Summary
use Prim.Native.String.{◌++◌}
use challanse.Prelude.{ℕ, Option, none, some, List, [], ◌∷◌, String, print_number}
use challanse.Json.{Json, undefined, num, str, Items, nil, cons}
use challanse.World.{Platform, Act, pure, now_iso, ◌>>=◌, ◌>>◌}
use challanse.Json.{Fields}
use challanse.Audit.Chain.{append_audit_event}

abbrev pub admins : List String
admins = "ORG_ADMIN" ∷ "SITE_ADMIN" ∷ []

abbrev pub organization_admins : List String
organization_admins = "ORG_ADMIN" ∷ []

abbrev pub organization_chain : String → String
organization_chain organization_id = "org:" ++ organization_id

abbrev pub number : ℕ → Json
number n = num (print_number n)

abbrev pub optional_number : Option ℕ → Json
optional_number none = undefined
optional_number (some n) = number n

abbrev pub text_items : List String → Items
text_items [] = nil
text_items (s ∷ ss) = cons (str s) (text_items ss)

abbrev pub list_or_empty : Option (List String) → List String
list_or_empty none = []
list_or_empty (some ss) = ss

-- An event whose body reads the clock for its time.
abbrev pub audit_timed :
    Platform → (chain_id event_type : String) → (String → Fields) → Act (Unit {0})
audit_timed p chain_id event_type body = do
  at ← now_iso p
  _ ← append_audit_event p chain_id event_type (body at)
  pure tt
