-- ===== src/Auth/Nonces.antt =====
-- apps/edge/src/auth.ts, `authenticateDeviceNonce`: the protection against replayed requests.
use text.Mathlib.TextEquality.{eq_iff}
use challanse.Prelude.{
  ◌≡◌, refl, ap, ◌∙◌, ℕ, ◌+◌, ◌/◌, ◌≤◌, Bool, true, false, ◌&&◌, ◌||◌, Option, none, some, List, [],
  ◌∷◌, ◌++◌, arith, String, if◌then◌else◌,
}
use challanse.World.{
  guard, continue, Act, ◌>>=◌, ◌>>◌, pure, World, Platform, Outcome, value, stop, device_auth,
  NonceRow,
}
use challanse.Auth.{
  exists, same_nonce, given, or_empty, Headers, DeviceContext, Signed, plus, minus, out_of_window,
  parse_int, NonceResult, nonce_outcome, expiry_ms, insert_nonce, ok, replay, expired, use_nonce,
  consume_at, consume_nonce, authenticate_device_nonce,
}

-- The time that a header names is within 300 seconds of `now`.
unfoldable pub InWindow : ℕ → Option Signed → Type 0
InWindow now none = ⊥
InWindow now (some (plus n)) = (now ≤ n + 300) × (n ≤ now + 300)
InWindow now (some (minus n)) = now + n ≤ 300

-- The table holds the nonce for the device.
abbrev pub Spent : World → String → String → Type 0
Spent w device_id nonce = exists (same_nonce device_id nonce) w.nonces ≡ true

same_nonce_new :
    (d n id at : String)
    → same_nonce d n (record { id = id; device_id = d; nonce = n; expires_at = at }) ≡ true
same_nonce_new d n id at = ground (arith, eq_iff d d, eq_iff n n)

use_nonce-ok :
    (p : Platform) (d n : String) (ts : Signed) (w : World)
    → (use_nonce p d n ts w).0 ≡ value ok
    → Spent (use_nonce p d n ts w).1 d n
use_nonce-ok p d n ts w =
    elim (exists (same_nonce d n) w.nonces)
      as (λ b.
        ((if b then pure replay else insert_nonce p d n ts) w).0 ≡ value ok
        → Spent ((if b then pure replay else insert_nonce p d n ts) w).1 d n) [
          | true ↦ λ h. ground (arith, h)
          | false ↦ λ h.
              ap (λ b. b || exists (same_nonce d n) w.nonces)
                (same_nonce_new d n (p.uuid w.uuids) (p.iso (expiry_ms ts)))
        ]

in_window : (now : ℕ) (ts : Signed) → out_of_window now ts ≡ false → InWindow now (some ts)
unfolding InWindow
in_window now (plus n) h = (ground (arith, h), ground (arith, h))
in_window now (minus n) h = ground (arith, h)

consume_at-ok :
    (p : Platform) (d n : String) (now : ℕ) (ts : Option Signed) (w : World)
    → (consume_at p d n now ts w).0 ≡ value ok
    → Spent (consume_at p d n now ts w).1 d n × InWindow now ts
consume_at-ok p d n now none w = λ h. ground (arith, h)
consume_at-ok p d n now (some ts) w =
    elim (out_of_window now ts)
        as (λ b.
          (out_of_window now ts ≡ b)
          → ((if b then pure expired else use_nonce p d n ts) w).0 ≡ value ok
          → Spent ((if b then pure expired else use_nonce p d n ts) w).1 d n
            × InWindow now (some ts)) [
              | true ↦ λ e h. ground (arith, h)
              | false ↦ λ e h. (use_nonce-ok p d n ts w h, in_window now ts e)
            ]
      refl

consume_nonce-ok :
    (p : Platform) (d t n : String) (w : World)
    → (consume_nonce p d t n w).0 ≡ value ok
    → Spent (consume_nonce p d t n w).1 d n × InWindow (p.now_ms w.reads / 1000) (parse_int t)
unfolding consume_nonce
consume_nonce-ok p d t n w =
    consume_at-ok p d n (p.now_ms w.reads / 1000) (parse_int t) (record w { reads = w.reads + 1 })

nonce_outcome-value :
    (r : Outcome NonceResult) (w : World)
    → (continue r nonce_outcome w).0 ≡ value tt
    → (r ≡ value ok) × ((continue r nonce_outcome w).1 ≡ w)
nonce_outcome-value (value ok) w h = (refl, refl)
nonce_outcome-value (value replay) w h = ground (arith, h)
nonce_outcome-value (value expired) w h = ground (arith, h)
nonce_outcome-value (stop s) w h = ground (arith, h)

abbrev checked : Platform → DeviceContext → Headers → Act (Unit {0})
checked p device h = do
  result ← consume_nonce p device.id (or_empty h.device_timestamp) (or_empty h.nonce)
  nonce_outcome result

checked-accepted :
    (p : Platform) (device : DeviceContext) (h : Headers) (w : World)
    → (checked p device h w).0 ≡ value tt
    → Spent (checked p device h w).1 device.id (or_empty h.nonce)
      × InWindow (p.now_ms w.reads / 1000) (parse_int (or_empty h.device_timestamp))
checked-accepted p device h w a =
    let t = or_empty h.device_timestamp in
    let r = consume_nonce p device.id t (or_empty h.nonce) w in
    let (returned, kept) = nonce_outcome-value r.0 r.1 a in
    let (spent, window) = consume_nonce-ok p device.id t (or_empty h.nonce) w returned in
    (ap (λ v. exists (same_nonce device.id (or_empty h.nonce)) v.nonces) kept ∙ spent, window)

-- A request whose nonce is accepted names a time within 300 seconds of the server's clock, and the
-- nonce is spent for its device from then on.
pub authenticate_device_nonce-accepted :
    (p : Platform) (device : DeviceContext) (h : Headers) (w : World)
    → (authenticate_device_nonce p device h w).0 ≡ value tt
    → Spent (authenticate_device_nonce p device h w).1 device.id (or_empty h.nonce)
      × InWindow (p.now_ms w.reads / 1000) (parse_int (or_empty h.device_timestamp))
unfolding authenticate_device_nonce
authenticate_device_nonce-accepted p device h w =
    elim (given h.nonce && given h.device_timestamp)
      as (λ b.
        ((guard b (device_auth "DEVICE_NONCE_REQUIRED" 400) >> checked p device h) w).0 ≡ value tt
        → Spent ((guard b (device_auth "DEVICE_NONCE_REQUIRED" 400) >> checked p device h) w).1
            device.id (or_empty h.nonce)
          × InWindow (p.now_ms w.reads / 1000) (parse_int (or_empty h.device_timestamp))) [
            | true ↦ checked-accepted p device h w
            | false ↦ λ a. ground (arith, a)
          ]

use_nonce-Spent :
    (p : Platform) (d n : String) (ts : Signed) (w : World)
    → Spent w d n
    → ¬ ((use_nonce p d n ts w).0 ≡ value ok)
use_nonce-Spent p d n ts w =
    elim (exists (same_nonce d n) w.nonces)
      as (λ b. b ≡ true → ¬ (((if b then pure replay else insert_nonce p d n ts) w).0 ≡ value ok)) [
        | true ↦ λ _ a. ground (arith, a)
        | false ↦ λ h. ground (arith, h)
      ]

consume_at-Spent :
    (p : Platform) (d n : String) (now : ℕ) (ts : Option Signed) (w : World)
    → Spent w d n
    → ¬ ((consume_at p d n now ts w).0 ≡ value ok)
consume_at-Spent p d n now none w = λ _ a. ground (arith, a)
consume_at-Spent p d n now (some ts) w =
    elim (out_of_window now ts)
      as (λ b.
        Spent w d n → ¬ (((if b then pure expired else use_nonce p d n ts) w).0 ≡ value ok)) [
          | true ↦ λ _ a. ground (arith, a)
          | false ↦ use_nonce-Spent p d n ts w
        ]

checked-Spent :
    (p : Platform) (device : DeviceContext) (h : Headers) (w : World)
    → Spent w device.id (or_empty h.nonce)
    → ¬ ((checked p device h w).0 ≡ value tt)
unfolding consume_nonce
checked-Spent p device h w spent a =
    let t = or_empty h.device_timestamp in
    let v = record w { reads = w.reads + 1 } in
    let now = p.now_ms w.reads / 1000 in
    let r = consume_at p device.id (or_empty h.nonce) now (parse_int t) v in
    consume_at-Spent p device.id (or_empty h.nonce) now (parse_int t) v spent
      (nonce_outcome-value r.0 r.1 a).0

authenticate_device_nonce-Spent :
    (p : Platform) (device : DeviceContext) (h : Headers) (w : World)
    → Spent w device.id (or_empty h.nonce)
    → ¬ ((authenticate_device_nonce p device h w).0 ≡ value tt)
unfolding authenticate_device_nonce
authenticate_device_nonce-Spent p device h w spent =
    elim (given h.nonce && given h.device_timestamp)
      as (λ b. ¬ (
        ((guard b (device_auth "DEVICE_NONCE_REQUIRED" 400) >> checked p device h) w).0
        ≡ value tt)) [ true ↦ checked-Spent p device h w spent | false ↦ λ a. ground (arith, a) ]

exists-append :
    {A : Type 0} (q : A → Bool) (xs ys : List A) → exists q ys ≡ true → exists q (xs ++ ys) ≡ true
exists-append q [] ys h = h
exists-append q (x ∷ xs) ys h = ground (arith, exists-append q xs ys h)

-- Once a request with a nonce was accepted, no later request of the same device with this nonce is
-- accepted, whatever time it names: later means that the table of nonces has only gained rows.
pub authenticate_device_nonce-replayed :
    (p : Platform) (device : DeviceContext) (h later : Headers) (w v : World) (rows : List NonceRow)
    → (authenticate_device_nonce p device h w).0 ≡ value tt
    → v.nonces ≡ rows ++ (authenticate_device_nonce p device h w).1.nonces
    → or_empty later.nonce ≡ or_empty h.nonce
    → ¬ ((authenticate_device_nonce p device later v).0 ≡ value tt)
authenticate_device_nonce-replayed p device h later w v rows accepted grown same =
    let spent = (authenticate_device_nonce-accepted p device h w accepted).0 in
    let at = exists-append (same_nonce device.id (or_empty h.nonce)) rows _ spent in
    authenticate_device_nonce-Spent p device later v (
      ap (λ n. exists (same_nonce device.id n) v.nonces) same
      ∙ ap (exists (same_nonce device.id (or_empty h.nonce))) grown
      ∙ at)
