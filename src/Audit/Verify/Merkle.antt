-- ===== src/Audit/Verify/Merkle.antt =====
-- apps/edge/src/audit-chain.ts: what the head of a chain that `verifyChain` accepts says of its events.
use text.Mathlib.Text.{◌==◌}
use text.Mathlib.TextEquality.{eq_iff}
use mathlib.Core.Option
use challanse.Prelude.{
  ◌≡◌, ◌≢◌, refl, sym, ◌∙◌, true, Option, some, List, [], ◌∷◌, map, arith, String, length, sort,
  ◌⊎◌, inl, inr, Bool-cases,
}
use challanse.Json.Texts.{NoColon, colon_join, colon_join-injective}
use challanse.World.{World, Platform, ChainRow, AuditEventRow}
use challanse.Auth.Laws.{IsIn}
use challanse.Audit.Hash.{canonical_event, audit_event_hash}
use challanse.Audit.Chain.{find_chain}
use challanse.Audit.Verify.{event_le, chain_events, verify_chain}
use challanse.Audit.Verify.Links.{IsSealed, Linked, last_hash}
use challanse.Audit.Verify.Soundness.{verify_chain_iff}

-- The canonical text of an event's body.
abbrev pub canonical_body : Platform → AuditEventRow → Option String
canonical_body p e = Option.map canonical_event (p.json_parse e.event_json)

-- Hexadecimal digits hold no colon.
abbrev pub HashesHaveNoColon : Platform → Type 0
HashesHaveNoColon p = (t : String) → NoColon (p.sha256_hex t)

-- The text whose hash `verifyChain` compares with the event's: the previous hash and the canonical
-- body.
abbrev pub hashed_text : Platform → AuditEventRow → Option String
hashed_text p e =
    Option.map (λ b. colon_join e.previous_hash (canonical_event b)) (p.json_parse e.event_json)

-- The two lists each have an event that the hash is computed for, on two different texts with the
-- same hash.
pub record Collision (p : Platform) (ds es : List AuditEventRow) : Type 0 where
  pub left : AuditEventRow
  pub right : AuditEventRow
  pub left_in : IsIn left ds
  pub right_in : IsIn right es
  pub left_text : String
  pub right_text : String
  pub left_hashed : hashed_text p left ≡ some left_text
  pub right_hashed : hashed_text p right ≡ some right_text
  pub different : left_text ≢ right_text
  pub collide : p.sha256_hex left_text ≡ p.sha256_hex right_text

Collision-cons :
    (p : Platform) (d e : AuditEventRow) (ds es : List AuditEventRow)
    → Collision p ds es
    → Collision p (d ∷ ds) (e ∷ es)
Collision-cons p d e ds es c = record {
  left = c.left;
  right = c.right;
  left_in = inr c.left_in;
  right_in = inr c.right_in;
  left_text = c.left_text;
  right_text = c.right_text;
  left_hashed = c.left_hashed;
  right_hashed = c.right_hashed;
  different = c.different;
  collide = c.collide;
}

same_text : (s t : String) → (s ≡ t) ⊎ (s ≢ t)
same_text s t = elim (Bool-cases (s == t)) [
  | inl same ↦ inl ((eq_iff s t).0 same)
  | inr other ↦ inr (λ h. cc (other, (eq_iff s t).1 h))
]

hashed_text-IsSealed :
    (p : Platform) (g : String) (e : AuditEventRow) (s : IsSealed p g e)
    → e.previous_hash ≡ g
    → hashed_text p e ≡ some (colon_join g (canonical_event s.body))
hashed_text-IsSealed p g e s link = rw (s.parsed, link) refl

module _ (p : Platform) (hex : HashesHaveNoColon p) where
  sealed-NoColon : (h : String) (e : AuditEventRow) → IsSealed p h e → NoColon e.event_hash
  unfolding audit_event_hash
  sealed-NoColon h e s = rw s.hashed (hex _)

  -- Two sealed events with one hash have one previous hash and one canonical body.
  sealed_inv :
      (g h : String) (d e : AuditEventRow) (ds es : List AuditEventRow)
      → NoColon g
      → NoColon h
      → d.previous_hash ≡ g
      → e.previous_hash ≡ h
      → IsSealed p g d
      → IsSealed p h e
      → d.event_hash ≡ e.event_hash
      → ((g ≡ h) × (canonical_body p d ≡ canonical_body p e)) ⊎ Collision p (d ∷ ds) (e ∷ es)
  unfolding audit_event_hash
  sealed_inv g h d e ds es ng nh link_d link_e s t same =
      let left = colon_join g (canonical_event s.body) in
      let right = colon_join h (canonical_event t.body) in
      elim (same_text left right) [
        | inr different ↦ inr (record {
          left = d;
          right = e;
          left_in = inl refl;
          right_in = inl refl;
          left_text = left;
          right_text = right;
          left_hashed = hashed_text-IsSealed p g d s link_d;
          right_hashed = hashed_text-IsSealed p h e t link_e;
          different = different;
          collide = sym s.hashed ∙ same ∙ t.hashed;
        })
        | inl input ↦
            let (previous, body) = colon_join-injective g h _ _ ng nh input in
            inl (previous, cc (s.parsed, t.parsed, body))
      ]

  Linked-inv :
      (ds es : List AuditEventRow) (g h : String)
      → NoColon g
      → NoColon h
      → Linked p g ds
      → Linked p h es
      → length ds ≡ length es
      → last_hash g ds ≡ last_hash h es
      → ((g ≡ h) × (map (canonical_body p) ds ≡ map (canonical_body p) es)) ⊎ Collision p ds es
  Linked-inv [] [] g h ng nh l m n same = inl (same, refl)
  Linked-inv [] (e ∷ es) g h ng nh l m n same = absurd (omega arith)
  Linked-inv (d ∷ ds) [] g h ng nh l m n same = absurd (omega arith)
  Linked-inv (d ∷ ds) (e ∷ es) g h ng nh (i, s, l) (j, t, m) n same =
      elim (Linked-inv ds es d.event_hash e.event_hash (sealed-NoColon g d s) (sealed-NoColon h e t)
        l m (omega arith) same) [
          | inr c ↦ inr (Collision-cons p d e ds es c)
          | inl (hash, bodies) ↦ elim (sealed_inv g h d e ds es ng nh i j s t hash) [
            | inr c ↦ inr c
            | inl (previous, body) ↦ inl (previous, cc (body, bodies))
          ]
        ]

  -- Two states of the database in which a chain verifies, with the same number of events and the same
  -- stored head, hold the same canonical bodies in the same order, or else the first has an event of
  -- the chain and the second another whose hashed texts, previous hash and canonical body, differ and
  -- have the same hash. The hashes are taken to hold no colon.
  pub verify_chain_tamper_evident :
      (v w : World) (chain_id : String) (c d : ChainRow)
      → (verify_chain p v chain_id).valid ≡ true
      → (verify_chain p w chain_id).valid ≡ true
      → find_chain chain_id v.chains ≡ some c
      → find_chain chain_id w.chains ≡ some d
      → c.head_hash ≡ d.head_hash
      → length (sort event_le (chain_events v chain_id))
        ≡ length (sort event_le (chain_events w chain_id))
      → (map (canonical_body p) (sort event_le (chain_events v chain_id))
          ≡ map (canonical_body p) (sort event_le (chain_events w chain_id)))
        ⊎ Collision p
            (sort event_le (chain_events v chain_id))
            (sort event_le (chain_events w chain_id))
  verify_chain_tamper_evident v w chain_id c d ok_v ok_w at_v at_w heads lengths =
      let i = (verify_chain_iff p v chain_id).0 ok_v in
      let j = (verify_chain_iff p w chain_id).0 ok_w in
      let ds = sort event_le (chain_events v chain_id) in
      let es = sort event_le (chain_events w chain_id) in
      let head_v : c.head_hash ≡ last_hash "" ds = (rw at_v at i.head) in
      let head_w : d.head_hash ≡ last_hash "" es = (rw at_w at j.head) in
      elim (Linked-inv ds es "" "" tt tt i.linked j.linked lengths (sym head_v ∙ heads ∙ head_w)) [
        | inl (_, bodies) ↦ inl bodies
        | inr x ↦ inr x
      ]
