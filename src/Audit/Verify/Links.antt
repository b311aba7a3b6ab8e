-- ===== src/Audit/Verify/Links.antt =====
-- apps/edge/src/audit-chain.ts: what it means that events form a chain, for the loop of `verifyChain`.
use text.Mathlib.TextEquality.{eq_iff}
use challanse.Prelude.{
  ◌≡◌, refl, ap, ◌∙◌, Option, none, some, List, [], ◌∷◌, ◌++◌, arith, String, append-nil,
}
use challanse.Json.{Fields}
use challanse.World.{Platform, AuditEventRow}
use challanse.Audit.Hash.{audit_event_hash}
use challanse.Audit.Verify.{
  ChainError, Checked, link_errors, hash_errors, check_hash, check_event, check_events,
  invalid_json,
}

-- The event holds a body whose hash after the previous hash is the event's own.
pub record IsSealed (p : Platform) (previous : String) (e : AuditEventRow) : Type 0 where
  pub body : Fields
  pub parsed : p.json_parse e.event_json ≡ some body
  pub hashed : e.event_hash ≡ audit_event_hash p previous body

-- Each event names the hash of the one before it and is sealed over it.
abbrev pub Linked : Platform → String → List AuditEventRow → Type 0
Linked p previous [] = Unit
Linked p previous (e ∷ es) =
    (e.previous_hash ≡ previous) × IsSealed p previous e × Linked p e.event_hash es

abbrev pub last_hash : String → List AuditEventRow → String
last_hash previous [] = previous
last_hash previous (e ∷ es) = last_hash e.event_hash es

pub append-eq-nil {ℓ} : {A : Type ℓ} (xs ys : List A) → xs ++ ys ≡ [] → (xs ≡ []) × (ys ≡ [])
append-eq-nil [] ys h = (refl, h)
append-eq-nil (x ∷ xs) ys h = cc

link_of :
    (expected : String) (e : AuditEventRow)
    → link_errors expected e ≡ []
    → e.previous_hash ≡ expected
link_of expected e h = ground (arith, eq_iff e.previous_hash expected)

hash_of :
    (recomputed : String) (e : AuditEventRow)
    → hash_errors recomputed e ≡ []
    → e.event_hash ≡ recomputed
hash_of recomputed e h = ground (arith, eq_iff recomputed e.event_hash)

check_hash_inv :
    (p : Platform) (e : AuditEventRow) (o : Option Fields) (errors : List ChainError)
    (expected : String)
    → p.json_parse e.event_json ≡ o
    → (check_hash p e o errors expected).errors ≡ []
    → (errors ≡ [])
      × IsSealed p expected e
      × ((check_hash p e o errors expected).expected_prev ≡ e.event_hash)
check_hash_inv p e none errors expected parsed h =
    cc ((append-eq-nil errors (invalid_json e.event_id ∷ []) h).1)
check_hash_inv p e (some b) errors expected parsed h =
    let (before, here) = append-eq-nil errors _ h in
    (before, record { body = b; parsed = parsed; hashed = hash_of _ e here }, refl)

pub check_events-Linked :
    (p : Platform) (es : List AuditEventRow) (c : Checked)
    → (check_events p es c).errors ≡ []
    → (c.errors ≡ [])
      × Linked p c.expected_prev es
      × ((check_events p es c).expected_prev ≡ last_hash c.expected_prev es)
unfolding check_events
check_events-Linked p [] c h = (h, tt, refl)
check_events-Linked p (e ∷ es) c h =
    let (now, later, last) = check_events-Linked p es (check_event p e c) h in
    let (before, sealed, next) =
      check_hash_inv p e (p.json_parse e.event_json) (c.errors ++ link_errors c.expected_prev e)
        c.expected_prev refl now in
    let (old, link) = append-eq-nil c.errors (link_errors c.expected_prev e) before in
    (
      old,
      (link_of c.expected_prev e link, sealed, rw next at later),
      last ∙ ap (λ s. last_hash s es) next,
    )

check_hash_sealed :
    (p : Platform) (e : AuditEventRow) (errors : List ChainError) (expected : String)
    → IsSealed p expected e
    → check_hash p e (p.json_parse e.event_json) errors expected
      ≡ record { errors = errors; expected_prev = e.event_hash }
check_hash_sealed p e errors expected s = rw s.parsed (
    ap (λ es. record { errors = es; expected_prev = e.event_hash })
      (ap (λ l. errors ++ l)
          (ground (arith, s.hashed, eq_iff (audit_event_hash p expected s.body) e.event_hash))
        ∙ append-nil errors))

-- An event that fits leaves the errors alone.
pub check_event_sealed :
    (p : Platform) (e : AuditEventRow) (c : Checked)
    → e.previous_hash ≡ c.expected_prev
    → IsSealed p c.expected_prev e
    → check_event p e c ≡ record { errors = c.errors; expected_prev = e.event_hash }
unfolding check_event
check_event_sealed p e c link sealed =
    check_hash_sealed p e (c.errors ++ link_errors c.expected_prev e) c.expected_prev sealed
    ∙ ap (λ es. record { errors = es; expected_prev = e.event_hash })
        (ap (λ l. c.errors ++ l) (ground (arith, link, eq_iff e.previous_hash c.expected_prev))
          ∙ append-nil c.errors)

pub check_events_of_Linked :
    (p : Platform) (es : List AuditEventRow) (c : Checked)
    → Linked p c.expected_prev es
    → check_events p es c
      ≡ record { errors = c.errors; expected_prev = last_hash c.expected_prev es }
unfolding check_events
check_events_of_Linked p [] c h = refl
check_events_of_Linked p (e ∷ es) c (link, sealed, later) =
    ap (check_events p es) (check_event_sealed p e c link sealed)
    ∙ check_events_of_Linked p es (record { errors = c.errors; expected_prev = e.event_hash }) later

pub check_events-append :
    (p : Platform) (es : List AuditEventRow) (e : AuditEventRow) (c : Checked)
    → check_events p (es ++ (e ∷ [])) c ≡ check_event p e (check_events p es c)
unfolding check_events
check_events-append p [] e c = refl
check_events-append p (d ∷ es) e c = check_events-append p es e (check_event p d c)
