-- ===== src/Uploads/Laws.antt =====
-- apps/edge/src/handlers/uploads.ts: when a part is stored, and which sessions a device reaches.
use text.Mathlib.Text.{◌==◌}
use text.Mathlib.TextEquality.{eq_iff}
use Prim.Native.String.{◌++◌}
use challanse.Prelude.{
  ◌≡◌, ◌≢◌, ◌⊎◌, inl, inr, refl, ℕ, ◌+◌, ◌≤◌, Bool, true, false, ◌&&◌, Option, none, List, [], ◌∷◌,
  arith, String, find, length, leb, All, update, if◌then◌else◌, pad_start, print_number, Bool-cases,
}
use challanse.World.Laws.{Refused, guard-Refused}
use challanse.World.{World, Platform, value, stop, response, Act, Stop, SessionRow, guard, ◌>>◌}
use challanse.Auth.{Headers, DeviceContext, given, or_empty, authenticate_device}
use challanse.Uploads.{Bucket, is_own_session}
use challanse.Uploads.Part.{hash_fits, store_part, handle_upload_part}

-- The part is within the limit, its session is open and its hash is the declared one, when one is
-- declared.
pub record IsAcceptable (p : Platform) (session : SessionRow) (body : List ℕ)
    (declared_hash : Option String) : Type 0 where
  pub in_progress : session.status ≡ "IN_PROGRESS"
  pub small : length body ≤ 256000
  pub hashed : given declared_hash ≡ true → p.sha256_bytes body ≡ or_empty declared_hash

module _ {A : Type 0} where
  -- Three guards before an action.
  guards-pass :
      (a b c : Bool) (r s t : Stop) (m : Act A) (w : World)
      → (a ≡ true)
      → (b ≡ true)
      → (c ≡ true)
      → (guard a r >> (guard b s >> (guard c t >> m))) w ≡ m w
  guards-pass true true true r s t m w e f g = refl
  guards-pass true true false r s t m w e f g = ground (arith, g)
  guards-pass true false c r s t m w e f g = ground (arith, f)
  guards-pass false b c r s t m w e f g = ground (arith, e)

-- What a stored part leaves: its object in the bucket, and the session's progress.
abbrev pub with_part :
    Bucket
    → DeviceContext
    → SessionRow
    → (upload_id : String) → (part_number : ℕ) → (body : List ℕ) → World
    → World
with_part b device session upload_id part_number body w =
    let uploaded = session.uploaded_bytes + length body in
    record w {
      objects =
          b.put
            (("uploads/"
                ++ (device.organization_id
                    ++ ("/" ++ (device.site_id ++ ("/" ++ (upload_id ++ "/part_"))))))
              ++ pad_start 4 (print_number part_number))
            body "application/octet-stream" w.objects;
      sessions =
          update (λ s. s.id == upload_id)
            (λ s. record s {
              uploaded_bytes = uploaded;
              status = if leb session.total_bytes uploaded then "PARTS_UPLOADED" else "IN_PROGRESS";
            })
            w.sessions;
    }

-- A part whose session is open, which has at most 256,000 bytes and the declared hash, when the request
-- declares one, is put into the bucket under its number and counted in its session, and nothing else
-- changes. Every other part is refused and changes nothing.
pub store_part_lem :
    (p : Platform) (b : Bucket) (device : DeviceContext) (session : SessionRow) (upload_id : String)
    (part_number : ℕ) (body : List ℕ) (declared_hash : Option String) (w : World)
    → (IsAcceptable p session body declared_hash
        × (store_part p b device session upload_id part_number body declared_hash w
            ≡ (value tt, with_part b device session upload_id part_number body w)))
      ⊎ ((¬ IsAcceptable p session body declared_hash)
          × Refused w (store_part p b device session upload_id part_number body declared_hash w))
unfolding store_part
store_part_lem p b device session upload_id part_number body declared_hash w =
    let open_now = session.status == "IN_PROGRESS" in
    let small = leb (length body) 256000 in
    let fits = hash_fits p body declared_hash in
    let sha = p.sha256_bytes body in
    elim (Bool-cases (open_now && (small && fits))) [
      | inl good ↦
          let (e, f, g) = three_true open_now small fits good in
          inl (acceptable e f g, guards-pass open_now small fits _ _ _ _ w e f g)
      | inr bad ↦
          let refused : ¬ IsAcceptable p session body declared_hash = (λ a. ground (
            arith,
            bad,
            a.in_progress,
            eq_iff session.status "IN_PROGRESS",
            a.small,
            a.hashed,
            eq_iff sha (or_empty declared_hash),
          )) in
          inr (
            refused,
            guard-Refused open_now _ _ w λ e.
                guard-Refused small _ _ w
                  λ f. guard-Refused fits _ _ w λ g. absurd (refused (acceptable e f g)),
          )
    ]
  where
    three_true : (a b c : Bool) → (a && (b && c)) ≡ true → (a ≡ true) × (b ≡ true) × (c ≡ true)
    three_true true true true h = (refl, refl, refl)
    three_true true true false h = ground (arith, h)
    three_true true false c h = ground (arith, h)
    three_true false b c h = ground (arith, h)

    acceptable :
        (session.status == "IN_PROGRESS") ≡ true
        → leb (length body) 256000 ≡ true
        → hash_fits p body declared_hash ≡ true
        → IsAcceptable p session body declared_hash
    acceptable e f g = record {
      in_progress = ground (arith, e, eq_iff session.status "IN_PROGRESS");
      small = ground (arith, f);
      hashed = λ k. ground (arith, g, k, eq_iff (p.sha256_bytes body) (or_empty declared_hash));
    }

-- No session of this identifier is the device's.
abbrev pub NotOwned : String → String → List SessionRow → Type 0
NotOwned upload_id device_id sessions =
    All (λ s. s.id ≡ upload_id → s.device_id ≢ device_id) sessions

own_session-none :
    (upload_id device_id : String) (sessions : List SessionRow)
    → NotOwned upload_id device_id sessions
    → find (is_own_session upload_id device_id) sessions ≡ none
own_session-none upload_id device_id [] h = refl
own_session-none upload_id device_id (s ∷ sessions) (h, hs) = ground (
  arith,
  h,
  own_session-none upload_id device_id sessions hs,
  eq_iff s.id upload_id,
  eq_iff s.device_id device_id,
)

-- A request that names a session of another device, or none, is answered with 404, whatever else it
-- says; the sessions and the bucket are as the authentication left them.
pub handle_upload_part-NotOwned :
    (p : Platform) (b : Bucket) (pepper : Option String) (h : Headers) (upload_id : String)
    (part_number : ℕ) (body : List ℕ) (declared_hash : Option String) (device : DeviceContext)
    (w v : World)
    → authenticate_device p h.authorization pepper w ≡ (value device, v)
    → NotOwned upload_id device.id v.sessions
    → handle_upload_part p b pepper h upload_id part_number body declared_hash w
      ≡ (stop (response 404 "UPLOAD_NOT_FOUND"), v)
unfolding handle_upload_part
handle_upload_part-NotOwned p b pepper h upload_id part_number body declared_hash device w v e a =
    rw (e, own_session-none upload_id device.id v.sessions a)
