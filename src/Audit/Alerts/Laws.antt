-- ===== src/Audit/Alerts/Laws.antt =====
-- apps/edge/src/audit-chain.ts: the active alerts after `createIntegrityAlert` and `acknowledgeAlert`.
use text.Mathlib.Text.{◌==◌}
use challanse.Prelude.{
  ◌≡◌, refl, sym, ap, ◌∙◌, ◌+◌, true, not, ◌&&◌, Option, none, some, List, [], ◌∷◌, arith, String,
  select, select-append, update, sort, select-sort, sort-Ordered, Ordered, IsOrder, count,
  count-sort, count-append, All, Bool-cases, inl, inr, if◌then◌else◌,
}
use challanse.Json.{Fields, text_le}
use challanse.Json.Order.{text_le_total, text_le_trans}
use challanse.World.{World, Platform, AlertRow, AlertType, Severity, value, or_stop, syntax_error}
use challanse.Audit.Alerts.{
  of_chain, newer, create_integrity_alert, get_active_alerts, acknowledge_alert, active_rows,
  IntegrityAlert, alert_of, detail_text, cons_alert, parse_alerts,
}

newer-IsOrder : IsOrder newer
newer-IsOrder = record {
  total = λ a b h. text_le_total b.created_at a.created_at h;
  trans = λ a b c h k. text_le_trans c.created_at b.created_at a.created_at k h;
}

abbrev active : Option String → List AlertRow → List AlertRow
active chain_id rows = select (λ a. not a.acknowledged && of_chain chain_id a) rows

active-acknowledged :
    (chain_id : Option String) (alert_id : String) (rows : List AlertRow)
    → active chain_id (update (λ a. a.id == alert_id) (λ a. record a { acknowledged = true }) rows)
      ≡ select (λ a. not (a.id == alert_id)) (active chain_id rows)
active-acknowledged chain_id alert_id [] = refl
active-acknowledged none alert_id (a ∷ rows) =
    ground (arith, active-acknowledged none alert_id rows)
active-acknowledged (some c) alert_id (a ∷ rows) =
    ground (arith, active-acknowledged (some c) alert_id rows)

none_read : {alerts : List IntegrityAlert} → some [] ≡ some alerts → alerts ≡ []
none_read {alerts} h = ground (arith, h)

-- The first row is read, and the other rows are.
record IsRead (p : Platform) (a : AlertRow) (rows : List AlertRow) (alerts : List IntegrityAlert)
    : Type 0 where
  pub detail : Fields
  pub rest : List IntegrityAlert
  pub parsed : p.json_parse (detail_text a) ≡ some detail
  pub later : parse_alerts p rows ≡ some rest
  pub same : alerts ≡ alert_of a detail ∷ rest

parse_alerts_inv :
    (p : Platform) (a : AlertRow) (rows : List AlertRow) (alerts : List IntegrityAlert)
    → parse_alerts p (a ∷ rows) ≡ some alerts
    → IsRead p a rows alerts
parse_alerts_inv p a rows alerts h =
    both (p.json_parse (detail_text a)) (parse_alerts p rows) refl refl h
  where
    both :
        (o : Option Fields) (r : Option (List IntegrityAlert))
        → p.json_parse (detail_text a) ≡ o
        → parse_alerts p rows ≡ r
        → cons_alert a o r ≡ some alerts
        → IsRead p a rows alerts
    both none r e f g = cc g
    both (some d) none e f g = cc g
    both (some d) (some rest) e f g = record {
      detail = d;
      rest = rest;
      parsed = e;
      later = f;
      same = ground (arith, g);
    }

parse_alerts-All :
    (p : Platform) (time : String) (rows : List AlertRow) (alerts : List IntegrityAlert)
    → parse_alerts p rows ≡ some alerts
    → All (λ a. text_le a.created_at time ≡ true) rows
    → All (λ a. text_le a.created_at time ≡ true) alerts
parse_alerts-All p time [] alerts h k = rw (none_read h) tt
parse_alerts-All p time (a ∷ rows) alerts h (k, ks) =
    let r = parse_alerts_inv p a rows alerts h in
    rw r.same (k, parse_alerts-All p time rows r.rest r.later ks)

parse_alerts-select :
    (p : Platform) (alert_id : String) (rows : List AlertRow) (alerts : List IntegrityAlert)
    → parse_alerts p rows ≡ some alerts
    → parse_alerts p (select (λ a. not (a.id == alert_id)) rows)
      ≡ some (select (λ a. not (a.id == alert_id)) alerts)
parse_alerts-select p alert_id [] alerts h = rw (none_read h) refl
parse_alerts-select p alert_id (a ∷ rows) alerts h =
    let r = parse_alerts_inv p a rows alerts h in
    let rest = parse_alerts-select p alert_id rows r.rest r.later in
    elim (Bool-cases (a.id == alert_id)) [
      | inl e ↦ rw (r.same, e) rest
      | inr n ↦ rw (r.same, n) (rw (r.parsed, rest) refl)
    ]

parse_alerts-Ordered :
    (p : Platform) (rows : List AlertRow) (alerts : List IntegrityAlert)
    → parse_alerts p rows ≡ some alerts
    → Ordered newer rows
    → Ordered (λ a b. text_le b.created_at a.created_at) alerts
parse_alerts-Ordered p [] alerts h k = rw (none_read h) tt
parse_alerts-Ordered p (a ∷ rows) alerts h (k, ks) =
    let r = parse_alerts_inv p a rows alerts h in
    rw r.same (
      parse_alerts-All p a.created_at rows r.rest r.later k,
      parse_alerts-Ordered p rows r.rest r.later ks,
    )

-- When the active alerts, of all chains or of one, can be read, they are in order, the newest first;
-- and once an alert is acknowledged they are the same alerts in the same order, without those of its
-- identifier.
pub get_active_alerts-acknowledge_alert :
    (p : Platform) (w : World) (chain_id : Option String) (alert_id : String)
    (before : List IntegrityAlert)
    → get_active_alerts p chain_id w ≡ (value before, w)
    → let v = (acknowledge_alert alert_id w).1 in
      Ordered (λ a b. text_le b.created_at a.created_at) before
      × (get_active_alerts p chain_id v ≡ (value (select (λ a. not (a.id == alert_id)) before), v))
unfolding get_active_alerts active_rows acknowledge_alert
get_active_alerts-acknowledge_alert p w chain_id alert_id before h =
    let rows = sort newer (active chain_id w.alerts) in
    let parsed : parse_alerts p rows ≡ some before = read (parse_alerts p rows) h in
    let after =
      ap (sort newer) (active-acknowledged chain_id alert_id w.alerts)
      ∙ sym (
          select-sort newer newer-IsOrder (λ a. not (a.id == alert_id))
            (active chain_id w.alerts)) in
    (
      parse_alerts-Ordered p rows before parsed
          (sort-Ordered newer newer-IsOrder (active chain_id w.alerts)),
      rw (after, parse_alerts-select p alert_id rows before parsed) refl,
    )
  where
    read :
        (o : Option (List IntegrityAlert))
        → or_stop o syntax_error w ≡ (value before, w)
        → o ≡ some before
    read none e = ground (arith, ap (λ r. r.0) e)
    read (some x) e = ground (arith, ap (λ r. r.0) e)

-- A new alert is listed once more among the active alerts of all chains, and nothing else changes.
pub active_rows-create_integrity_alert :
    (p : Platform) (w : World) (chain_id id : String) (kind : AlertType) (detail : Fields)
    (severity : Severity)
    → count
        (λ a. a.id == id)
        (active_rows (create_integrity_alert p chain_id kind detail severity w).1 none)
      ≡ count (λ a. a.id == id) (active_rows w none) + (if p.uuid w.uuids == id then 1 else 0)
unfolding active_rows create_integrity_alert
active_rows-create_integrity_alert p w chain_id id kind detail severity =
    count-sort (λ a. a.id == id) newer _
    ∙ ap (count (λ a. a.id == id))
        (select-append (λ a. not a.acknowledged && of_chain none a) w.alerts _)
    ∙ count-append (λ a. a.id == id) (active none w.alerts) _
    ∙ omega (arith, count-sort (λ a. a.id == id) newer (active none w.alerts))
