-- ===== src/Json/Order.antt =====
-- The order of texts by the values of their characters is total and transitive.

use Prim.Native.String.{String}
use challanse.Prelude.{◌≡◌, refl, arith, true, false}
use challanse.Json.{text_le}

pub text_le_total : (s t : String) → text_le s t ≡ false → text_le t s ≡ true
text_le_total String.[] t h = ground (arith, h)
text_le_total (String.◌∷◌ c s) String.[] h = refl
text_le_total (String.◌∷◌ c s) (String.◌∷◌ d t) h = ground (arith, h, text_le_total s t)

pub text_le_trans : (s t u : String) → text_le s t ≡ true → text_le t u ≡ true → text_le s u ≡ true
text_le_trans String.[] t u h k = refl
text_le_trans (String.◌∷◌ c s) String.[] u h k = ground (arith, h)
text_le_trans (String.◌∷◌ c s) (String.◌∷◌ d t) String.[] h k = ground (arith, k)
text_le_trans (String.◌∷◌ c s) (String.◌∷◌ d t) (String.◌∷◌ e u) h k =
    ground (arith, h, k, text_le_trans s t u)
