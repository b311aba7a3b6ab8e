-- ===== src/Admin/Quotas.antt =====
-- apps/edge/src/handlers/admin.ts: `handleUpdateQuota`.
use text.Mathlib.Text.{◌==◌}
use challanse.Prelude.{
  ℕ, ◌||◌, not, Option, none, some, String, update, or_else, is_none, print_number,
}
use challanse.World.{
  Platform, Act, OrganizationRow, response, pure, modify, guard, ◌>>=◌, ◌>>◌, now_iso,
}
use challanse.Auth.{ReviewerContext}
use challanse.Audit.Events.{quota_changed_event}
use challanse.Reviewers.{Identity, reviewer_as}
use challanse.Admin.{organization_admins, organization_chain, audit_timed}

pub record QuotaBody : Type 0 where
  pub device_limit : Option ℕ
  pub daily_receipt_limit : Option ℕ
  pub storage_byte_limit : Option ℕ

-- The columns that the statement sets: those that the request gives.
unfoldable pub with_quotas : QuotaBody → String → OrganizationRow → OrganizationRow
with_quotas body now o = record o {
  device_limit = or_else body.device_limit o.device_limit;
  daily_receipt_limit = or_else body.daily_receipt_limit o.daily_receipt_limit;
  storage_byte_limit = or_else body.storage_byte_limit o.storage_byte_limit;
  updated_at = now;
}

-- The old value is recorded as 0.
abbrev pub audit_quota :
    Platform → ReviewerContext → (quota_type : String) → Option ℕ → Act (Unit {0})
audit_quota p reviewer quota_type none = pure tt
audit_quota p reviewer quota_type (some n) =
    audit_timed p (organization_chain reviewer.organization_id) "QUOTA_CHANGED"
      (quota_changed_event reviewer.email reviewer.organization_id quota_type "0" (print_number n))

unfoldable pub handle_update_quota : Platform → Identity → QuotaBody → Act (Unit {0})
handle_update_quota p identity body = do
  reviewer ← reviewer_as organization_admins identity
  guard
      (not (is_none body.device_limit)
        || (not (is_none body.daily_receipt_limit) || not (is_none body.storage_byte_limit)))
      (response 400 "NO_CHANGES")
  now ← now_iso p
  modify (λ w. record w {
    organizations =
        update (λ o. o.id == reviewer.organization_id) (with_quotas body now) w.organizations;
  })
  audit_quota p reviewer "device_limit" body.device_limit
  audit_quota p reviewer "daily_receipt_limit" body.daily_receipt_limit
  audit_quota p reviewer "storage_byte_limit" body.storage_byte_limit
