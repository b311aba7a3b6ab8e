-- ===== src/Json/Texts.antt =====
-- Texts that are joined by a colon, and where they are cut again.
use Prim.Native.Char.{Char, code}
use Prim.Native.String.{String, ◌++◌}
use text.Mathlib.TextLemmas.{nil-append, cons-append}
use challanse.Prelude.{◌≡◌, ◌≢◌, refl, sym, ap, ◌∙◌}

abbrev pub NoColon : String → Type 0
NoColon String.[] = Unit
NoColon (String.◌∷◌ c s) = (code c ≢ b':') × NoColon s

-- `${previousHash}:${canonical}`
abbrev pub colon_join : String → String → String
colon_join s t = s ++ (":" ++ t)

abbrev colon : Char
colon = ":"

colon_join-nil : (u : String) → colon_join "" u ≡ String.◌∷◌ colon u
colon_join-nil u =
    nil-append (":" ++ u) ∙ cons-append colon "" u ∙ ap (String.◌∷◌ colon) (nil-append u)

colon_join-cons :
    (c : Char) (s u : String) → colon_join (String.◌∷◌ c s) u ≡ String.◌∷◌ c (colon_join s u)
colon_join-cons c s u = cons-append c s (":" ++ u)

pub heads : (c d : Char) (s t : String) → String.◌∷◌ c s ≡ String.◌∷◌ d t → c ≡ d
heads c d s t e = cc

pub tails : (c d : Char) (s t : String) → String.◌∷◌ c s ≡ String.◌∷◌ d t → s ≡ t
tails c d s t e = cc

-- Two texts without a colon before the first colon are the same, and so is what follows.
pub colon_join-injective :
    (s t u v : String) → NoColon s → NoColon t → colon_join s u ≡ colon_join t v → (s ≡ t) × (u ≡ v)
colon_join-injective String.[] String.[] u v h k e =
    (refl, tails colon colon u v (sym (colon_join-nil u) ∙ e ∙ colon_join-nil v))
colon_join-injective String.[] (String.◌∷◌ d t) u v h k e =
    absurd
      (k.0 (ap code (heads d colon _ _ (sym (colon_join-cons d t v) ∙ sym e ∙ colon_join-nil u))))
colon_join-injective (String.◌∷◌ c s) String.[] u v h k e =
    absurd (h.0 (ap code (heads c colon _ _ (sym (colon_join-cons c s u) ∙ e ∙ colon_join-nil v))))
colon_join-injective (String.◌∷◌ c s) (String.◌∷◌ d t) u v h k e =
    let e' = sym (colon_join-cons c s u) ∙ e ∙ colon_join-cons d t v in
    let (same, rest) = colon_join-injective s t u v h.1 k.1 (tails c d _ _ e') in
    (cc (heads c d _ _ e', same), rest)
