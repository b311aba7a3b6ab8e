-- ===== src/Audit/Events.antt =====
-- apps/edge/src/audit-chain.ts: the bodies of the common audit events. The time that each body reads
-- from the clock is the last argument, and a number is the text that it prints as.
use challanse.Prelude.{String, Option, none, some, List, [], ◌∷◌}
use challanse.Json.{Json, undefined, num, str, obj, Fields, end, field}

-- `{ k: v, … }`
abbrev pub members : List (String × Json) → Fields
members [] = end
members ((k, v) ∷ rest) = field k v (members rest)

-- A property that may be `undefined`.
abbrev pub optional : Option String → Json
optional none = undefined
optional (some s) = str s

unfoldable pub device_enrolled_event :
    (device_id site_id organization_id name timestamp : String) → Fields
device_enrolled_event device_id site_id organization_id name timestamp = members (
    ("event_type", str "DEVICE_ENROLLED")
    ∷ ("device_id", str device_id)
    ∷ ("site_id", str site_id)
    ∷ ("organization_id", str organization_id)
    ∷ ("name", str name)
    ∷ ("timestamp", str timestamp)
    ∷ [])

unfoldable pub device_revoked_event :
    (device_id site_id organization_id timestamp : String) → Fields
device_revoked_event device_id site_id organization_id timestamp = members (
    ("event_type", str "DEVICE_REVOKED")
    ∷ ("device_id", str device_id)
    ∷ ("site_id", str site_id)
    ∷ ("organization_id", str organization_id)
    ∷ ("timestamp", str timestamp)
    ∷ [])

unfoldable pub upload_created_event :
    (upload_id device_id site_id organization_id part_count timestamp : String) → Fields
upload_created_event upload_id device_id site_id organization_id part_count timestamp = members (
    ("event_type", str "UPLOAD_CREATED")
    ∷ ("upload_id", str upload_id)
    ∷ ("device_id", str device_id)
    ∷ ("site_id", str site_id)
    ∷ ("organization_id", str organization_id)
    ∷ ("part_count", num part_count)
    ∷ ("timestamp", str timestamp)
    ∷ [])

unfoldable pub upload_completed_event :
    (receipt_id device_id site_id organization_id image_bytes timestamp : String) → Fields
upload_completed_event receipt_id device_id site_id organization_id image_bytes timestamp =
    members (
      ("event_type", str "UPLOAD_COMPLETED")
      ∷ ("receipt_id", str receipt_id)
      ∷ ("device_id", str device_id)
      ∷ ("site_id", str site_id)
      ∷ ("organization_id", str organization_id)
      ∷ ("image_bytes", num image_bytes)
      ∷ ("timestamp", str timestamp)
      ∷ [])

unfoldable pub receipt_reviewed_event :
    (receipt_id reviewer_email action version timestamp : String) → Fields
receipt_reviewed_event receipt_id reviewer_email action version timestamp = members (
    ("event_type", str "RECEIPT_REVIEWED")
    ∷ ("receipt_id", str receipt_id)
    ∷ ("reviewer", str reviewer_email)
    ∷ ("action", str action)
    ∷ ("version", num version)
    ∷ ("timestamp", str timestamp)
    ∷ [])

unfoldable pub invoice_created_event :
    (invoice_id reviewer_email site_id organization_id timestamp : String) → Fields
invoice_created_event invoice_id reviewer_email site_id organization_id timestamp = members (
    ("event_type", str "INVOICE_CREATED")
    ∷ ("invoice_id", str invoice_id)
    ∷ ("reviewer", str reviewer_email)
    ∷ ("site_id", str site_id)
    ∷ ("organization_id", str organization_id)
    ∷ ("timestamp", str timestamp)
    ∷ [])

unfoldable pub invoice_verified_event :
    (invoice_id reviewer_email site_id organization_id timestamp : String) → Fields
invoice_verified_event invoice_id reviewer_email site_id organization_id timestamp = members (
    ("event_type", str "INVOICE_VERIFIED")
    ∷ ("invoice_id", str invoice_id)
    ∷ ("reviewer", str reviewer_email)
    ∷ ("site_id", str site_id)
    ∷ ("organization_id", str organization_id)
    ∷ ("timestamp", str timestamp)
    ∷ [])

unfoldable pub tally_imported_event :
    (import_id site_id organization_id row_count timestamp : String) → Fields
tally_imported_event import_id site_id organization_id row_count timestamp = members (
    ("event_type", str "TALLY_IMPORTED")
    ∷ ("import_id", str import_id)
    ∷ ("site_id", str site_id)
    ∷ ("organization_id", str organization_id)
    ∷ ("row_count", num row_count)
    ∷ ("timestamp", str timestamp)
    ∷ [])

unfoldable pub reviewer_invited_event :
    (invitation_id invited_by email site_id organization_id role timestamp : String) → Fields
reviewer_invited_event invitation_id invited_by email site_id organization_id role timestamp =
    members (
      ("event_type", str "REVIEWER_INVITED")
      ∷ ("invitation_id", str invitation_id)
      ∷ ("invited_by", str invited_by)
      ∷ ("email", str email)
      ∷ ("site_id", str site_id)
      ∷ ("organization_id", str organization_id)
      ∷ ("role", str role)
      ∷ ("timestamp", str timestamp)
      ∷ [])

unfoldable pub reviewer_joined_event :
    (email site_id organization_id role timestamp : String) → Fields
reviewer_joined_event email site_id organization_id role timestamp = members (
    ("event_type", str "REVIEWER_JOINED")
    ∷ ("email", str email)
    ∷ ("site_id", str site_id)
    ∷ ("organization_id", str organization_id)
    ∷ ("role", str role)
    ∷ ("timestamp", str timestamp)
    ∷ [])

unfoldable pub reviewer_removed_event :
    (email removed_by site_id organization_id timestamp : String) → Fields
reviewer_removed_event email removed_by site_id organization_id timestamp = members (
    ("event_type", str "REVIEWER_REMOVED")
    ∷ ("email", str email)
    ∷ ("removed_by", str removed_by)
    ∷ ("site_id", str site_id)
    ∷ ("organization_id", str organization_id)
    ∷ ("timestamp", str timestamp)
    ∷ [])

unfoldable pub reconciliation_viewed_event :
    (site_id organization_id viewed_by po_count receipt_count timestamp : String) → Fields
reconciliation_viewed_event site_id organization_id viewed_by po_count receipt_count timestamp =
    members (
      ("event_type", str "RECONCILIATION_VIEWED")
      ∷ ("site_id", str site_id)
      ∷ ("organization_id", str organization_id)
      ∷ ("viewed_by", str viewed_by)
      ∷ ("po_count", num po_count)
      ∷ ("receipt_count", num receipt_count)
      ∷ ("timestamp", str timestamp)
      ∷ [])

unfoldable pub export_downloaded_event :
    (site_id organization_id downloaded_by export_type timestamp : String) → Fields
export_downloaded_event site_id organization_id downloaded_by export_type timestamp = members (
    ("event_type", str "EXPORT_DOWNLOADED")
    ∷ ("site_id", str site_id)
    ∷ ("organization_id", str organization_id)
    ∷ ("downloaded_by", str downloaded_by)
    ∷ ("export_type", str export_type)
    ∷ ("timestamp", str timestamp)
    ∷ [])

unfoldable pub config_changed_event :
    (changed_by organization_id : String) (changes : Fields) (timestamp : String) → Fields
config_changed_event changed_by organization_id changes timestamp = members (
    ("event_type", str "CONFIG_CHANGED")
    ∷ ("changed_by", str changed_by)
    ∷ ("organization_id", str organization_id)
    ∷ ("changes", obj changes)
    ∷ ("timestamp", str timestamp)
    ∷ [])

unfoldable pub quota_changed_event :
    (changed_by organization_id quota_type old_value new_value timestamp : String) → Fields
quota_changed_event changed_by organization_id quota_type old_value new_value timestamp = members (
    ("event_type", str "QUOTA_CHANGED")
    ∷ ("changed_by", str changed_by)
    ∷ ("organization_id", str organization_id)
    ∷ ("quota_type", str quota_type)
    ∷ ("old_value", num old_value)
    ∷ ("new_value", num new_value)
    ∷ ("timestamp", str timestamp)
    ∷ [])

unfoldable pub site_changed_event :
    (site_id organization_id changed_by action : String) (changes : Fields) (timestamp : String)
    → Fields
site_changed_event site_id organization_id changed_by action changes timestamp = members (
    ("event_type", str "SITE_CHANGED")
    ∷ ("site_id", str site_id)
    ∷ ("organization_id", str organization_id)
    ∷ ("changed_by", str changed_by)
    ∷ ("action", str action)
    ∷ ("changes", obj changes)
    ∷ ("timestamp", str timestamp)
    ∷ [])

unfoldable pub vendor_changed_event :
    (vendor_id site_id organization_id changed_by action timestamp : String) → Fields
vendor_changed_event vendor_id site_id organization_id changed_by action timestamp = members (
    ("event_type", str "VENDOR_CHANGED")
    ∷ ("vendor_id", str vendor_id)
    ∷ ("site_id", str site_id)
    ∷ ("organization_id", str organization_id)
    ∷ ("changed_by", str changed_by)
    ∷ ("action", str action)
    ∷ ("timestamp", str timestamp)
    ∷ [])

unfoldable pub membership_changed_event :
    (email site_id organization_id changed_by action : String) (role : Option String)
    (timestamp : String)
    → Fields
membership_changed_event email site_id organization_id changed_by action role timestamp = members (
    ("event_type", str "MEMBERSHIP_CHANGED")
    ∷ ("email", str email)
    ∷ ("site_id", str site_id)
    ∷ ("organization_id", str organization_id)
    ∷ ("changed_by", str changed_by)
    ∷ ("action", str action)
    ∷ ("role", optional role)
    ∷ ("timestamp", str timestamp)
    ∷ [])
