-- ===== src/Audit/Verify/Genesis.antt =====
-- apps/edge/src/audit-chain.ts: the verification of a chain that `getOrCreateChain` has just created.
use Prim.Native.Char.{Char, code}
use mathlib.Core.List.{◌++◌ as concat}
use Prim.Native.String.{◌++◌}
use text.Mathlib.Text.{◌==◌}
use text.Mathlib.TextLemmas.{cons-append, append_assoc, append_cancel_left, append_cancel_right}
use text.Mathlib.TextPositions.{eq_refl}
use challanse.Prelude.{
  Bool-cases, inl, inr, false, ◌≡◌, ◌≢◌, sym, ap, ◌∙◌, ◌+◌, Bool, true, none, [], ◌∷◌, arith,
  String, select, select-append, if◌then◌else◌,
}
use challanse.Json.{stringify, quote, stringify_sorted}
use challanse.Json.Texts.{colon_join, colon_join-injective, heads, tails}
use challanse.World.{World, Platform, AuditEventRow}
use challanse.Audit.Hash.{canonical_event, audit_event_hash}
use challanse.Audit.Chain.{find_chain, hashed_genesis, stored_genesis, get_or_create_chain}
use challanse.Audit.Verify.{chain_events, verify_chain}
use challanse.Audit.Verify.Links.{IsSealed, Linked}
use challanse.Audit.Verify.Soundness.{verify_chain_iff}
use challanse.Audit.Verify.Append.{ParsesBack}

abbrev mark : Char
mark = "\""

abbrev letter_e : Char
letter_e = "e"

abbrev letter_t : Char
letter_t = "t"

type_ne_timestamp : (x y : String) → "\"event_type\"" ++ x ≢ "\"timestamp\"" ++ y
type_ne_timestamp x y e =
    let inner =
      tails mark mark _ _
        (sym (cons-append mark "event_type\"" x) ∙ e ∙ cons-append mark "timestamp\"" y) in
    let first =
      heads letter_e letter_t _ _ (
        sym (cons-append letter_e "vent_type\"" x) ∙ inner ∙ cons-append letter_t "imestamp\"" y) in
    let codes = ap code first in omega arith

-- The two bodies of a genesis event have different canonical texts, whatever the two times.
canonical_genesis_ne :
    (chain_id s t : String)
    → canonical_event (hashed_genesis chain_id s) ≢ canonical_event (stored_genesis chain_id t)
unfolding canonical_event stringify_sorted quote
canonical_genesis_ne chain_id s t e =
    let key = "\"chain_id\"" ++ (":" ++ quote chain_id) in
    let kind = ":" ++ quote "CHAIN_CREATED" in
    let time = "," ++ ("\"timestamp\"" ++ (":" ++ quote s)) in
    let hashed = ("\"event_type\"" ++ kind) ++ time in
    let stored = "\"timestamp\"" ++ (":" ++ quote t) in
    let inner =
      append_cancel_left "{" ((key ++ ("," ++ hashed)) ++ "}") ((key ++ ("," ++ stored)) ++ "}")
        e in
    let body = append_cancel_right (key ++ ("," ++ hashed)) (key ++ ("," ++ stored)) "}" inner in
    let rest =
      append_cancel_left "," hashed stored
        (append_cancel_left key ("," ++ hashed) ("," ++ stored) body) in
    type_ne_timestamp (kind ++ time) (":" ++ quote t)
      (sym (append_assoc "\"event_type\"" kind time) ∙ rest)

abbrev genesis_row : Platform → World → String → AuditEventRow
genesis_row p w chain_id = record {
  event_id = p.uuid w.uuids;
  chain_id = chain_id;
  event_type = "CHAIN_CREATED";
  event_json = stringify (stored_genesis chain_id (p.iso (p.now_ms (w.reads + 1 + 1 + 1))));
  previous_hash = "";
  event_hash = audit_event_hash p "" (hashed_genesis chain_id (p.iso (p.now_ms w.reads)));
  created_at = p.iso (p.now_ms (w.reads + 1 + 1 + 1 + 1));
}

created_events :
    (p : Platform) (w : World) (chain_id : String)
    → find_chain chain_id w.chains ≡ none
    → (get_or_create_chain p chain_id w).1.events ≡ concat w.events (genesis_row p w chain_id ∷ [])
unfolding get_or_create_chain
created_events p w chain_id absent = rw absent

-- What the hash of the genesis event was computed from, and what it is computed from again.
abbrev pub hashed_genesis_text : Platform → World → String → String
hashed_genesis_text p w chain_id =
    colon_join "" (canonical_event (hashed_genesis chain_id (p.iso (p.now_ms w.reads))))

abbrev pub stored_genesis_text : Platform → World → String → String
stored_genesis_text p w chain_id =
    colon_join ""
      (canonical_event (stored_genesis chain_id (p.iso (p.now_ms (w.reads + 1 + 1 + 1)))))

sealed_genesis :
    (p : Platform) (w : World) (chain_id : String)
    → ParsesBack p (stored_genesis chain_id (p.iso (p.now_ms (w.reads + 1 + 1 + 1))))
    → IsSealed p "" (genesis_row p w chain_id)
    → p.sha256_hex (hashed_genesis_text p w chain_id)
      ≡ p.sha256_hex (stored_genesis_text p w chain_id)
unfolding audit_event_hash
sealed_genesis p w chain_id back s =
    s.hashed
    ∙ ap (λ b. p.sha256_hex (colon_join "" b))
        (ap canonical_event (cc (s.parsed, back.parses)) ∙ back.same)

created_valid :
    (p : Platform) (w : World) (chain_id : String)
    → find_chain chain_id w.chains ≡ none
    → chain_events w chain_id ≡ []
    → ParsesBack p (stored_genesis chain_id (p.iso (p.now_ms (w.reads + 1 + 1 + 1))))
    → (verify_chain p (get_or_create_chain p chain_id w).1 chain_id).valid ≡ true
    → p.sha256_hex (hashed_genesis_text p w chain_id)
      ≡ p.sha256_hex (stored_genesis_text p w chain_id)
created_valid p w chain_id absent empty back valid =
    let g = genesis_row p w chain_id in
    let rows : chain_events (get_or_create_chain p chain_id w).1 chain_id ≡ g ∷ [] =
      (ap (select (λ e. e.chain_id == chain_id)) (created_events p w chain_id absent)
        ∙ select-append (λ e. e.chain_id == chain_id) w.events (g ∷ [])
        ∙ ap (λ l. concat l (select (λ e. e.chain_id == chain_id) (g ∷ []))) empty
        ∙ ap (λ (b : Bool). if b then g ∷ [] else []) (eq_refl chain_id)) in
    let intact = (verify_chain_iff p (get_or_create_chain p chain_id w).1 chain_id).0 valid in
    let linked : Linked p "" (g ∷ []) = (rw rows at intact.linked) in
    sealed_genesis p w chain_id back linked.1

-- A chain that `getOrCreateChain` creates where there was neither its row nor an event of it does not
-- verify: the stored genesis body lacks the `event_type` that the hash was computed with, so the hash
-- is computed again from a different text. The two texts are taken to have different hashes, and the
-- stored text to give its body back.
pub verify_chain_of_created :
    (p : Platform) (w : World) (chain_id : String)
    → find_chain chain_id w.chains ≡ none
    → chain_events w chain_id ≡ []
    → ParsesBack p (stored_genesis chain_id (p.iso (p.now_ms (w.reads + 1 + 1 + 1))))
    → p.sha256_hex (hashed_genesis_text p w chain_id)
      ≢ p.sha256_hex (stored_genesis_text p w chain_id)
    → ((verify_chain p (get_or_create_chain p chain_id w).1 chain_id).valid ≡ false)
      × (hashed_genesis_text p w chain_id ≢ stored_genesis_text p w chain_id)
verify_chain_of_created p w chain_id absent empty back apart = (
  elim (Bool-cases (verify_chain p (get_or_create_chain p chain_id w).1 chain_id).valid) [
    | inl t ↦ absurd (apart (created_valid p w chain_id absent empty back t))
    | inr f ↦ f
  ],
  λ e.
      canonical_genesis_ne chain_id (p.iso (p.now_ms w.reads))
        (p.iso (p.now_ms (w.reads + 1 + 1 + 1))) (colon_join-injective "" "" _ _ tt tt e).1,
)
