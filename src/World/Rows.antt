-- ===== src/World/Rows.antt =====
-- apps/edge/src/types.ts: the rows of the tables, with the columns that the modelled code reads or
-- writes. A timestamp is its ISO text.
use challanse.Prelude.{ℕ, Bool, Option, List, String, Text}

pub record OrganizationRow : Type 0 where
  pub id : String
  pub name : String
  pub active : Bool
  pub device_limit : ℕ
  pub daily_receipt_limit : ℕ
  pub storage_byte_limit : ℕ
  pub updated_at : String

pub record SiteRow : Type 0 where
  pub id : String
  pub organization_id : String
  pub name : String
  pub active : Bool
  pub allowed_wifi_ssids_json : String
  pub configuration_version : ℕ
  pub daily_receipt_limit : ℕ
  pub image_byte_limit : ℕ
  pub storage_byte_limit : ℕ
  pub created_at : String
  pub updated_at : String

pub record DeviceRow : Type 0 where
  pub id : String
  pub site_id : String
  pub organization_id : String
  pub name : String
  pub token_hash : String
  pub app_version : String
  pub active : Bool
  pub enrolled_at : String
  pub last_seen_at : String

pub record ReviewerRow : Type 0 where
  pub email : String
  pub site_id : String
  pub organization_id : String
  pub role : String
  pub active : Bool
  pub subject : String
  pub issuer : String
  pub created_at : String
  pub updated_at : Option String

pub record VendorRow : Type 0 where
  pub id : String
  pub site_id : String
  pub organization_id : String
  pub name : String
  pub initials : String
  pub color : String
  pub display_order : ℕ
  pub active : Bool
  pub created_at : String
  pub updated_at : String

pub record EnrollmentCodeRow : Type 0 where
  pub id : String
  pub code : String
  pub site_id : String
  pub organization_id : String
  pub device_name : String
  pub expires_at : Option String
  pub created_by : String
  pub active : Bool
  pub created_at : String

pub record InvitationRow : Type 0 where
  pub id : String
  pub organization_id : String
  pub site_id : String
  pub email : String
  pub role : String
  pub invited_by : String
  pub expires_at : Option String
  pub active : Bool
  pub created_at : String

pub record VerifiedReceiptRow : Type 0 where
  pub receipt_id : String
  pub organization_id : String
  pub site_id : String
  pub po_number : String
  pub material_code : String
  pub verified_quantity : ℕ
  pub unit : Text
  pub reviewer_id : String
  pub review_version : ℕ
  pub reviewed_at : String

pub record NonceRow : Type 0 where
  pub id : String
  pub device_id : String
  pub nonce : String
  pub expires_at : String

pub record ReceiptRow : Type 0 where
  pub id : String
  pub site_id : String
  pub device_id : String
  pub vendor_id : String
  pub captured_at_unix : ℕ
  pub captured_quantity : ℕ
  pub image_key : String
  pub image_bytes : ℕ
  pub image_sha256 : String
  pub mime_type : String
  pub status : String
  pub version : ℕ
  pub enrichment_status : String
  pub challan_number : String
  pub material_description : String
  pub verified_quantity : Option ℕ
  pub unit : String
  pub notes : String
  pub po_number : String
  pub material_code : String
  pub reviewed_by : Option String
  pub reviewed_at : Option String
  pub created_at : String
  pub updated_at : String

pub record SessionRow : Type 0 where
  pub id : String
  pub receipt_id : String
  pub device_id : String
  pub site_id : String
  pub organization_id : String
  pub total_bytes : ℕ
  pub uploaded_bytes : ℕ
  pub status : String
  pub mime_type : String
  pub declared_sha256 : String
  pub url_path : String
  pub uploaded_at : String

pub record ChainRow : Type 0 where
  pub chain_id : String
  pub head_hash : String
  pub event_count : ℕ
  pub created_at : String
  pub updated_at : String

pub record AuditEventRow : Type 0 where
  pub event_id : String
  pub chain_id : String
  pub event_type : String
  pub event_json : String
  pub previous_hash : String
  pub event_hash : String
  pub created_at : String

pub record ForkRow : Type 0 where
  pub id : String
  pub chain_id : String
  pub parent_event_id : String
  pub fork_event_id_1 : String
  pub fork_event_id_2 : String
  pub fork_at : String
  pub resolved : Bool

pub data AlertType : Type 0 where
  hash_mismatch fork_detected chain_broken : AlertType

pub data Severity : Type 0 where
  info warning critical : Severity

pub record AlertRow : Type 0 where
  pub id : String
  pub chain_id : String
  pub alert_type : AlertType
  pub alert_detail : String
  pub severity : Severity
  pub acknowledged : Bool
  pub created_at : String

pub record GraphNodeRow : Type 0 where
  pub node_id : String
  pub node_type : String
  pub properties : String
  pub created_at : String
  pub updated_at : String

pub record GraphEdgeRow : Type 0 where
  pub edge_id : String
  pub source_node_id : String
  pub target_node_id : String
  pub edge_type : String
  pub properties : String
  pub created_at : String

-- An object of the bucket: its key, the bytes and the content type.
pub record StoredObject : Type 0 where
  pub key : String
  pub bytes : List ℕ
  pub content_type : String

-- A message for the enrichment queue.
pub record EnrichmentMessage : Type 0 where
  pub receipt_id : String
  pub organization_id : String
  pub site_id : String
  pub image_key : String
  pub image_bytes : ℕ

pub record World : Type 0 where
  pub organizations : List OrganizationRow
  pub sites : List SiteRow
  pub devices : List DeviceRow
  pub reviewers : List ReviewerRow
  pub nonces : List NonceRow
  pub receipts : List ReceiptRow
  pub sessions : List SessionRow
  pub chains : List ChainRow
  pub events : List AuditEventRow
  pub forks : List ForkRow
  pub alerts : List AlertRow
  pub nodes : List GraphNodeRow
  pub edges : List GraphEdgeRow
  pub vendors : List VendorRow
  pub codes : List EnrollmentCodeRow
  pub invitations : List InvitationRow
  pub verified : List VerifiedReceiptRow
  pub objects : List StoredObject
  pub queue : List EnrichmentMessage
  -- how many identifiers were drawn, how often the clock was read, and how often random bytes were
  pub uuids : ℕ
  pub reads : ℕ
  pub draws : ℕ
