-- ===== src/Audit/Alerts.antt =====
-- apps/edge/src/audit-chain.ts: `createIntegrityAlert`, `getActiveAlerts` and `acknowledgeAlert`.
pub mod Laws
use text.Mathlib.Text.{◌==◌}
use challanse.Prelude.{
  Bool, true, false, not, ◌&&◌, Option, none, some, List, [], ◌∷◌, ◌++◌, String, select, update,
  sort, if◌then◌else◌,
}
use challanse.Json.{Fields, stringify, text_le}
use challanse.World.{
  World, Platform, Act, AlertRow, AlertType, Severity, syntax_error, pure, gets, or_stop, modify,
  ◌>>=◌, ◌>>◌, draw_uuid, now_iso,
}

unfoldable pub create_integrity_alert :
    Platform → String → AlertType → Fields → Severity → Act String
create_integrity_alert p chain_id alert_type detail severity = do
  alert_id ← draw_uuid p
  created_at ← now_iso p
  modify (λ w. record w {
    alerts =
        w.alerts
        ++ (record {
          id = alert_id;
          chain_id = chain_id;
          alert_type = alert_type;
          alert_detail = stringify detail;
          severity = severity;
          acknowledged = false;
          created_at = created_at;
        }
            ∷ []);
  })
  pure alert_id

-- `if (chainId) conditions.push('chain_id = ?')`; an empty text counts as absent.
abbrev pub of_chain : Option String → AlertRow → Bool
of_chain none a = true
of_chain (some id) a = if id == "" then true else a.chain_id == id

-- `ORDER BY created_at DESC`
abbrev pub newer : AlertRow → AlertRow → Bool
newer a b = text_le b.created_at a.created_at

-- The rows of the query.
unfoldable pub active_rows : World → Option String → List AlertRow
active_rows w chain_id =
    sort newer (select (λ a. not a.acknowledged && of_chain chain_id a) w.alerts)

pub record IntegrityAlert : Type 0 where
  pub id : String
  pub chain_id : String
  pub alert_type : AlertType
  pub alert_detail : Fields
  pub severity : Severity
  pub acknowledged : Bool
  pub created_at : String

abbrev pub alert_of : AlertRow → Fields → IntegrityAlert
alert_of a detail = record {
  id = a.id;
  chain_id = a.chain_id;
  alert_type = a.alert_type;
  alert_detail = detail;
  severity = a.severity;
  acknowledged = a.acknowledged;
  created_at = a.created_at;
}

-- `a.alert_detail || '{}'`
abbrev pub detail_text : AlertRow → String
detail_text a = if a.alert_detail == "" then "{}" else a.alert_detail

-- `JSON.parse` of one detail, put before the other alerts; `none` where it throws.
abbrev pub cons_alert :
    AlertRow → Option Fields → Option (List IntegrityAlert) → Option (List IntegrityAlert)
cons_alert a (some detail) (some alerts) = some (alert_of a detail ∷ alerts)
cons_alert a (some detail) none = none
cons_alert a none alerts = none

abbrev pub parse_alerts : Platform → List AlertRow → Option (List IntegrityAlert)
parse_alerts p [] = some []
parse_alerts p (a ∷ rows) = cons_alert a (p.json_parse (detail_text a)) (parse_alerts p rows)

unfoldable pub get_active_alerts : Platform → Option String → Act (List IntegrityAlert)
get_active_alerts p chain_id = do
  rows ← gets (λ w. active_rows w chain_id)
  or_stop (parse_alerts p rows) syntax_error

unfoldable pub acknowledge_alert : String → Act (Unit {0})
acknowledge_alert alert_id = modify (λ w. record w {
  alerts = update (λ a. a.id == alert_id) (λ a. record a { acknowledged = true }) w.alerts;
})
