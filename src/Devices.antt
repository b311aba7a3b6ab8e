-- ===== src/Devices.antt =====
-- apps/edge/src/handlers/devices.ts: the enrolment of a device and the start of the mobile application,
-- with `verifyPlayIntegrity` of apps/edge/src/auth.ts and `randomEnrollmentCode` of
-- apps/edge/src/security.ts. The token of a new device is taken to be new among the hashes.
pub mod Enroll
pub mod Token
use Prim.Native.String.{◌++◌}
use text.Mathlib.Text.{◌==◌}
use challanse.Prelude.{
  ℕ, ◌%◌, Bool, true, false, not, ◌&&◌, ◌||◌, Option, none, some, List, [], ◌∷◌, String, find,
  get_elem?, if◌then◌else◌, print_hex, pad_start,
}
use challanse.World.{World, Platform, Act, pure, draw_bytes, ◌>>=◌, ◌>>◌}
use challanse.Auth.{given}

-- The settings of the Worker that the handlers read.
pub record Environment : Type 0 where
  pub environment : String
  pub device_token_pepper : Option String
  pub play_integrity_credentials : Option String
  pub play_integrity_project : Option String
  pub turnstile_site_key : Option String

-- The token itself is not looked at.
unfoldable pub verify_play_integrity : Environment → (token : Option String) → Bool
verify_play_integrity env token =
    (env.environment == "local-pilot" || env.environment == "development")
    || (given token && (given env.play_integrity_credentials && given env.play_integrity_project))

-- `[…bytes].map((b) => b.toString(16).padStart(2, '0')).join('')`
unfoldable pub hex : List ℕ → String
hex [] = ""
hex (b ∷ bytes) = pad_start 2 (print_hex b) ++ hex bytes

abbrev alphabet : List String
alphabet =
    "A" ∷ "B" ∷ "C" ∷ "D" ∷ "E" ∷ "F" ∷ "G" ∷ "H" ∷ "J" ∷ "K" ∷ "L" ∷ "M" ∷ "N" ∷ "P" ∷ "Q" ∷ "R"
    ∷ "S" ∷ "T" ∷ "U" ∷ "V" ∷ "W" ∷ "X" ∷ "Y" ∷ "Z" ∷ "2" ∷ "3" ∷ "4" ∷ "5" ∷ "6" ∷ "7" ∷ "8" ∷ "9"
    ∷ []

abbrev letter_of : ℕ → String
letter_of b = elim (get_elem? alphabet (b % 32)) [ none ↦ "" | some s ↦ s ]

unfoldable pub code_of : List ℕ → String
code_of [] = ""
code_of (b ∷ bytes) = letter_of b ++ code_of bytes

unfoldable pub random_enrollment_code : Platform → Act String
random_enrollment_code p = do bytes ← draw_bytes p 8; pure (code_of bytes)
