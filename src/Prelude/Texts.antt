-- ===== src/Prelude/Texts.antt =====
-- Texts as lists of UTF-16 code units, where the program walks them.
use Prim.Native.Nat.{ℕ, ◌+◌, ◌-◌}
use Prim.Native.Char.{code}
use Prim.Native.String.{String}
use mathlib.Core.Path.{◌≡◌, ap}
use mathlib.Core.Logic.{◌↔◌, ◌≢◌}
use mathlib.Core.Bool.{Bool, true, false, ◌&&◌, ◌||◌}
use mathlib.Core.List.{List, [], ◌∷◌, ◌++◌}
use native.Mathlib.Omega.{arith}
use challanse.Prelude.Tests.{◌==◌, leb, if◌then◌else◌}

abbrev pub Text : Type 0
Text = List ℕ

-- The code units of a literal in ASCII.
abbrev pub codes : String → Text
codes String.[] = []
codes (String.◌∷◌ c s) = code c ∷ codes s

abbrev pub text_eq : Text → Text → Bool
text_eq [] [] = true
text_eq [] (_ ∷ _) = false
text_eq (_ ∷ _) [] = false
text_eq (a ∷ s) (b ∷ t) = (a == b) && text_eq s t

pub text_eq_iff : (s t : Text) → (text_eq s t ≡ true) ↔ (s ≡ t)
text_eq_iff [] [] = ground arith
text_eq_iff [] (_ ∷ _) = ground arith
text_eq_iff (_ ∷ _) [] = ground arith
text_eq_iff (a ∷ s) (b ∷ t) = ground (arith, text_eq_iff s t)

-- The white space and line terminators that `trim` and `\s` know.
unfoldable pub is_space : ℕ → Bool
is_space c =
    (leb 9 c && leb c 13)
    || (c == 32)
    || (c == 160)
    || (c == 0x1680)
    || (leb 0x2000 c && leb c 0x200a)
    || (c == 0x2028)
    || (c == 0x2029)
    || (c == 0x202f)
    || (c == 0x205f)
    || (c == 0x3000)
    || (c == 0xfeff)

abbrev pub trim_start : Text → Text
trim_start [] = []
trim_start (c ∷ t) = if is_space c then trim_start t else c ∷ t

abbrev pub trim_cons : ℕ → Text → Text
trim_cons c [] = if is_space c then [] else c ∷ []
trim_cons c (d ∷ t) = c ∷ d ∷ t

abbrev pub trim_end : Text → Text
trim_end [] = []
trim_end (c ∷ t) = trim_cons c (trim_end t)

-- `s.trim()`
unfoldable pub trim : Text → Text
unfolding is_space
trim t = trim_end (trim_start t)

-- `toUpperCase` and `toLowerCase`, on the letters of ASCII; other letters are left as they are.
unfoldable pub to_upper : ℕ → ℕ
to_upper c = if leb b'a' c && leb c b'z' then c - 32 else c

unfoldable pub to_lower : ℕ → ℕ
to_lower c = if leb b'A' c && leb c b'Z' then c + 32 else c

-- `s.replace(/c$/, '')`
unfoldable pub strip_last : ℕ → Text → Text
strip_last x [] = []
strip_last x (c ∷ []) = if c == x then [] else c ∷ []
strip_last x (c ∷ d ∷ t) = c ∷ strip_last x (d ∷ t)

pub strip_last-append : (x : ℕ) (t : Text) → strip_last x (t ++ (x ∷ [])) ≡ t
unfolding strip_last
strip_last-append x [] = ground arith
strip_last-append x (c ∷ []) = ground arith
strip_last-append x (c ∷ d ∷ t) = ap (λ r. c ∷ r) (strip_last-append x (d ∷ t))

-- The last character is another one: nothing is stripped.
pub strip_last-append_ne :
    (x y : ℕ) (t : Text) → y ≢ x → strip_last x (t ++ (y ∷ [])) ≡ t ++ (y ∷ [])
unfolding strip_last
strip_last-append_ne x y [] h = ground arith
strip_last-append_ne x y (c ∷ []) h = ground arith
strip_last-append_ne x y (c ∷ d ∷ t) h = ap (λ r. c ∷ r) (strip_last-append_ne x y (d ∷ t) h)

-- `variants.includes(text)`
abbrev pub includes : List Text → Text → Bool
includes [] t = false
includes (v ∷ vs) t = text_eq v t || includes vs t
