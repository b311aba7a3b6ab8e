-- ===== src/Audit/Hash/Coverage.antt =====
-- apps/edge/src/audit-chain.ts, `auditEventHash`: which members of an event its hash depends on.
use challanse.Prelude.{◌≡◌, ap, String, [], ◌∷◌}
use challanse.Json.{obj, str, Fields, end, field, field_names}
use challanse.Json.Texts.{colon_join}
use challanse.Json.Laws.{Apart, append_fields, stringify_sorted-nested}
use challanse.World.{Platform}
use challanse.Audit.Hash.{canonical_event, audit_event_hash}
use challanse.Audit.Events.{config_changed_event}

-- Two events that differ only in a member whose value is an object, and where no key of these two
-- objects is a key of the event, have the same hash after every previous hash.
pub audit_event_hash-nested :
    (p : Platform) (previous_hash : String) (before after : Fields) (k : String) (fs gs : Fields)
    → Apart (field_names (append_fields before (field k (obj fs) after))) (field_names fs)
    → Apart (field_names (append_fields before (field k (obj fs) after))) (field_names gs)
    → audit_event_hash p previous_hash (append_fields before (field k (obj fs) after))
      ≡ audit_event_hash p previous_hash (append_fields before (field k (obj gs) after))
unfolding audit_event_hash canonical_event
audit_event_hash-nested p previous_hash before after k fs gs h l =
    ap (λ t. p.sha256_hex (colon_join previous_hash t))
      (stringify_sorted-nested before after k fs gs h l)

-- The hash of a `CONFIG_CHANGED` event does not depend on what was changed: any two `changes` none of
-- whose keys is a key of the event itself give the same hash.
pub config_changed_unhashed :
    (p : Platform) (previous_hash changed_by organization_id timestamp : String) (fs gs : Fields)
    → Apart
        ("event_type" ∷ "changed_by" ∷ "organization_id" ∷ "changes" ∷ "timestamp" ∷ [])
        (field_names fs)
    → Apart
        ("event_type" ∷ "changed_by" ∷ "organization_id" ∷ "changes" ∷ "timestamp" ∷ [])
        (field_names gs)
    → audit_event_hash p previous_hash
        (config_changed_event changed_by organization_id fs timestamp)
      ≡ audit_event_hash p previous_hash
          (config_changed_event changed_by organization_id gs timestamp)
unfolding config_changed_event
config_changed_unhashed p previous_hash changed_by organization_id timestamp fs gs h l =
    audit_event_hash-nested p previous_hash
      (field "event_type" (str "CONFIG_CHANGED")
        (field "changed_by" (str changed_by) (field "organization_id" (str organization_id) end)))
      (field "timestamp" (str timestamp) end) "changes" fs gs h l
