-- ===== src/Tally/Units/Laws.antt =====
-- What `normalizeUnit` does to recognised and to other units.
use challanse.Prelude.{
  ◌≡◌, refl, sym, ap, ◌∙◌, false, none, some, List, [], ◌∷◌, ◌++◌, map, ℕ, arith, Text, All,
  is_space, trim, trim_start, trim_end, trim_cons, to_upper, strip_last, strip_last-append,
  strip_last-append_ne, ◌≤◌,
}
use challanse.Tally.Units.{unit_map, find_unit, cleaned, or_cleaned, normalize_unit}

-- Every unit on the right of the table is spelled as `normalizeUnit` leaves it.
abbrev AllFixed : List (Text × Text) → Type 0
AllFixed [] = Unit
AllFixed ((n, u) ∷ rest) = (normalize_unit u ≡ u) × AllFixed rest

unit_map-AllFixed : AllFixed unit_map
unfolding normalize_unit
unit_map-AllFixed = (
  refl,
  (
    refl,
    (
      refl,
      (
        refl,
        (
          refl,
          (
            refl,
            (
              refl,
              (
                refl,
                (
                  refl,
                  (
                    refl,
                    (
                      refl,
                      (
                        refl,
                        (
                          refl,
                          (
                            refl,
                            (
                              refl,
                              (
                                refl,
                                (
                                  refl,
                                  (
                                    refl,
                                    (
                                      refl,
                                      (refl, (refl, (refl, (refl, (refl, (refl, (refl, tt))))))),
                                    ),
                                  ),
                                ),
                              ),
                            ),
                          ),
                        ),
                      ),
                    ),
                  ),
                ),
              ),
            ),
          ),
        ),
      ),
    ),
  ),
)

fixed_of_found :
    (name : Text) (table : List (Text × Text)) (u : Text)
    → AllFixed table
    → find_unit name table ≡ some u
    → normalize_unit u ≡ u
fixed_of_found name [] u h e = cc
fixed_of_found name ((n, v) ∷ rest) u h e = ground (arith, fixed_of_found name rest u h.1)

-- A unit that the table recognises, in any of its spellings, is normalised to the table's unit, and
-- normalising the result a second time changes nothing.
pub normalize_unit_recognised :
    (value u : Text)
    → find_unit (cleaned value) unit_map ≡ some u
    → (normalize_unit value ≡ u) × (normalize_unit (normalize_unit value) ≡ normalize_unit value)
normalize_unit_recognised value u e =
    let step : normalize_unit value ≡ u =
      (unfold normalize_unit in ap (λ o. or_cleaned o (cleaned value)) e) in
    (
      step,
      ap normalize_unit step
          ∙ fixed_of_found (cleaned value) unit_map u unit_map-AllFixed e
          ∙ sym step,
    )

is_space-to_upper : (c : ℕ) → is_space (to_upper c) ≡ is_space c
unfolding is_space to_upper
is_space-to_upper c = ground arith

trim_start-upper : (t : Text) → trim_start (map to_upper t) ≡ map to_upper (trim_start t)
trim_start-upper [] = refl
trim_start-upper (c ∷ t) = ground (arith, is_space-to_upper c, trim_start-upper t)

trim_cons-upper :
    (c : ℕ) (t : Text) → trim_cons (to_upper c) (map to_upper t) ≡ map to_upper (trim_cons c t)
trim_cons-upper c [] = ground (arith, is_space-to_upper c)
trim_cons-upper c (d ∷ t) = refl

trim_end-upper : (t : Text) → trim_end (map to_upper t) ≡ map to_upper (trim_end t)
trim_end-upper [] = refl
trim_end-upper (c ∷ t) =
    ap (trim_cons (to_upper c)) (trim_end-upper t) ∙ trim_cons-upper c (trim_end t)

to_upper-to_upper : (c : ℕ) → to_upper (to_upper c) ≡ to_upper c
unfolding to_upper
to_upper-to_upper c = ground arith

map-to_upper_idempotent : (t : Text) → map to_upper (map to_upper t) ≡ map to_upper t
map-to_upper_idempotent [] = refl
map-to_upper_idempotent (c ∷ t) = cc (to_upper-to_upper c, map-to_upper_idempotent t)

cleaned-map-to_upper : (value : Text) → cleaned (map to_upper value) ≡ cleaned value
cleaned-map-to_upper value =
    unfold cleaned trim in
    ap (λ t. strip_last b'S' (strip_last b'.' t))
      (ap (map to_upper) (ap trim_end (trim_start-upper value) ∙ trim_end-upper (trim_start value))
        ∙ map-to_upper_idempotent (trim_end (trim_start value)))

-- The case of a unit's letters does not matter.
pub normalize_unit-map-to_upper :
    (value : Text) → normalize_unit (map to_upper value) ≡ normalize_unit value
unfolding normalize_unit
normalize_unit-map-to_upper value =
    ap (λ t. or_cleaned (find_unit t unit_map) t) (cleaned-map-to_upper value)

-- Letters that trimming and `toUpperCase` leave alone.
abbrev pub IsCapital : ℕ → Type 0
IsCapital c = (b'A' ≤ c) × (c ≤ b'Z')

capital-not_space : (c : ℕ) → IsCapital c → is_space c ≡ false
unfolding is_space
capital-not_space c h = ground arith

capital-to_upper : (c : ℕ) → IsCapital c → to_upper c ≡ c
unfolding to_upper
capital-to_upper c h = ground arith

trim_cons-capital : (c : ℕ) (t : Text) → IsCapital c → trim_cons c t ≡ c ∷ t
trim_cons-capital c [] h = ground (arith, capital-not_space c h)
trim_cons-capital c (d ∷ t) h = refl

trim_end-capital : (t : Text) → All IsCapital t → trim_end t ≡ t
trim_end-capital [] h = refl
trim_end-capital (c ∷ t) (h, hs) =
    ap (trim_cons c) (trim_end-capital t hs) ∙ trim_cons-capital c t h

trim_start-capital : (t : Text) → All IsCapital t → trim_start t ≡ t
trim_start-capital [] h = refl
trim_start-capital (c ∷ t) (h, hs) = ground (arith, capital-not_space c h)

map-to_upper-capital : (t : Text) → All IsCapital t → map to_upper t ≡ t
map-to_upper-capital [] h = refl
map-to_upper-capital (c ∷ t) (h, hs) = cc (capital-to_upper c h, map-to_upper-capital t hs)

All-append_one : (t : Text) (c : ℕ) → All IsCapital t → IsCapital c → All IsCapital (t ++ (c ∷ []))
All-append_one [] c h k = (k, tt)
All-append_one (d ∷ t) c (h, hs) k = (h, All-append_one t c hs k)

cleaned-append_S : (t : Text) → All IsCapital t → cleaned (t ++ (b'S' ∷ [])) ≡ t
cleaned-append_S t h =
    let w = t ++ (b'S' ∷ []) in
    let caps : All IsCapital w = All-append_one t b'S' h (omega arith) in
    unfold cleaned trim in
    ap (λ u. strip_last b'S' (strip_last b'.' (map to_upper (trim_end u))))
      (trim_start-capital w caps)
    ∙ ap (λ u. strip_last b'S' (strip_last b'.' (map to_upper u))) (trim_end-capital w caps)
    ∙ ap (λ u. strip_last b'S' (strip_last b'.' u)) (map-to_upper-capital w caps)
    ∙ ap (strip_last b'S') (strip_last-append_ne b'.' b'S' t (omega arith))
    ∙ strip_last-append b'S' t

-- For a unit in capitals that ends in a double S and that the table knows neither with one S less nor
-- with both taken off, normalising twice is not normalising once: each pass takes one S off.
pub normalize_unit_double_s :
    (stem : Text)
    → All IsCapital stem
    → find_unit (stem ++ (b'S' ∷ [])) unit_map ≡ none
    → find_unit stem unit_map ≡ none
    → (normalize_unit ((stem ++ (b'S' ∷ [])) ++ (b'S' ∷ [])) ≡ stem ++ (b'S' ∷ []))
      × (normalize_unit (normalize_unit ((stem ++ (b'S' ∷ [])) ++ (b'S' ∷ []))) ≡ stem)
normalize_unit_double_s stem h one none_left =
    let s = stem ++ (b'S' ∷ []) in
    let first : normalize_unit (s ++ (b'S' ∷ [])) ≡ s =
      (unfold normalize_unit in
        ap (λ t. or_cleaned (find_unit t unit_map) t)
          (cleaned-append_S s (All-append_one stem b'S' h (omega arith)))
        ∙ ap (λ o. or_cleaned o s) one) in
    let second : normalize_unit s ≡ stem =
      (unfold normalize_unit in
        ap (λ t. or_cleaned (find_unit t unit_map) t) (cleaned-append_S stem h)
        ∙ ap (λ o. or_cleaned o stem) none_left) in
    (first, ap normalize_unit first ∙ second)
