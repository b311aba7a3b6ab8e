-- ===== src/Tally/Deltas/Keys.antt =====
-- The keys of the reconciliation maps, joined and split again.
use challanse.Prelude.{
  ◌≡◌, ◌≢◌, refl, ap, ◌∙◌, [], ◌∷◌, ◌++◌, arith, Text, All, append_assoc, sym, ◌&&◌, text_eq,
  text_eq_iff, Bool-cases, inl, inr,
}
use challanse.Tally.Deltas.{separator, join_key, split_key, three_parts}

abbrev pub HasNoColon : Text → Type 0
HasNoColon t = All (λ c. c ≢ b':') t

split_key-last : (t : Text) → HasNoColon t → split_key t ≡ t ∷ []
unfolding split_key
split_key-last [] h = refl
split_key-last (c ∷ []) h = refl
split_key-last (c ∷ d ∷ t) (h, hs) = ground (arith, split_key-last (d ∷ t) hs)

split_key-part :
    (t rest : Text) → HasNoColon t → split_key (t ++ (separator ++ rest)) ≡ t ∷ split_key rest
unfolding split_key
split_key-part [] rest h = refl
split_key-part (c ∷ []) rest (h, hs) = ground arith
split_key-part (c ∷ d ∷ t) rest (h, hs) = ground (arith, split_key-part (d ∷ t) rest hs)

pub split_key-join_key :
    (po code unit : Text)
    → HasNoColon po
    → HasNoColon code
    → HasNoColon unit
    → split_key (join_key po code unit) ≡ po ∷ code ∷ unit ∷ []
split_key-join_key po code unit h k l =
    split_key-part po (code ++ (separator ++ unit)) h
    ∙ ap (λ r. po ∷ r) (split_key-part code unit k ∙ ap (λ r. code ∷ r) (split_key-last unit l))

join_key-injective :
    (a b c x y z : Text)
    → HasNoColon a × HasNoColon b × HasNoColon c
    → HasNoColon x × HasNoColon y × HasNoColon z
    → join_key a b c ≡ join_key x y z
    → (a ≡ x) × (b ≡ y) × (c ≡ z)
join_key-injective a b c x y z (h, i, j) (k, l, m) e =
    let parts : a ∷ b ∷ c ∷ [] ≡ x ∷ y ∷ z ∷ [] =
      (sym (split_key-join_key a b c h i j) ∙ ap split_key e ∙ split_key-join_key x y z k l m) in
    (
      ap (λ p. (three_parts p).0) parts,
      ap (λ p. (three_parts p).1) parts,
      ap (λ p. (three_parts p).2) parts,
    )

-- Keys of parts without a colon are equal where the parts are.
pub text_eq-join_key :
    (a b c x y z : Text)
    → HasNoColon a × HasNoColon b × HasNoColon c
    → HasNoColon x × HasNoColon y × HasNoColon z
    → text_eq (join_key a b c) (join_key x y z) ≡ (text_eq a x && (text_eq b y && text_eq c z))
text_eq-join_key a b c x y z h k = elim (Bool-cases (text_eq (join_key a b c) (join_key x y z))) [
  | inl e ↦
      let (i, j, l) =
        join_key-injective a b c x y z h k ((text_eq_iff (join_key a b c) (join_key x y z)).0 e) in
      ground (arith, e, (text_eq_iff a x).1 i, (text_eq_iff b y).1 j, (text_eq_iff c z).1 l)
  | inr n ↦ elim (Bool-cases (text_eq a x && (text_eq b y && text_eq c z))) [
    | inl e ↦
        let i : a ≡ x = ground (arith, e, text_eq_iff a x) in
        let j : b ≡ y = ground (arith, e, text_eq_iff b y) in
        let l : c ≡ z = ground (arith, e, text_eq_iff c z) in
        let same : join_key a b c ≡ join_key x y z = cc (i, j, l) in
        let yes = (text_eq_iff (join_key a b c) (join_key x y z)).1 same in
        absurd (ground (arith, n, yes))
    | inr m ↦ n ∙ sym m
  ]
]

-- Where a part holds the separator itself, different triples share one key.
pub join_key_collision :
    (a b code unit : Text)
    → join_key (a ++ (separator ++ b)) code unit ≡ join_key a (b ++ (separator ++ code)) unit
join_key_collision a b code unit =
    append_assoc a (separator ++ b) (separator ++ (code ++ (separator ++ unit)))
    ∙ ap (λ r. a ++ (separator ++ r)) (sym (append_assoc b (separator ++ code) (separator ++ unit)))
