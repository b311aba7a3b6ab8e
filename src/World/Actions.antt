-- ===== src/World/Actions.antt =====
-- Actions on the world: an action returns, or stops with a response or an exception; what it wrote
-- before it stopped stays written. apps/edge/src/db.ts has the helpers `uuid` and `nowISO`.
use challanse.Prelude.{ℕ, ◌+◌, Bool, true, false, Option, none, some, List, String}
use challanse.Json.{Fields}
use challanse.World.Rows.{World}

-- What the platform gives: hashing, random identifiers, the clock, the text of a time and
-- `JSON.parse`. The n-th identifier and the n-th reading of the clock are functions of n.
-- `json_parse` gives the members of the object that a text stands for, and `none` where the text is
-- no JSON. `sql_time` is the text of a time as SQLite's `datetime` writes it, `parse_time` the time of
-- `new Date(text)` and `none` for an invalid date, and `random_bytes n k` the k bytes of the n-th call
-- of `crypto.getRandomValues`.
pub record Platform : Type 0 where
  pub sha256_hex : String → String
  pub sha256_bytes : List ℕ → String
  pub uuid : ℕ → String
  pub now_ms : ℕ → ℕ
  pub iso : ℕ → String
  pub json_parse : String → Option Fields
  pub sql_time : ℕ → String
  pub parse_time : String → Option ℕ
  pub random_bytes : ℕ → ℕ → List ℕ

-- How an action stops early.
pub data Stop : Type 0 where
  -- `return error(request, env, status, code, …)`
  response : ℕ → String → Stop
  -- `throw new DeviceAuthError(code, statusCode)` and `throw new ReviewerAuthError(…)`
  device_auth : String → ℕ → Stop
  reviewer_auth : String → ℕ → Stop
  -- a primary key that is there already: the statement throws
  duplicate_key : Stop
  -- an edge of the graph whose node is not there: the statement throws
  foreign_key : Stop
  -- a column that is declared NOT NULL is set to null: the statement throws
  not_null : Stop
  -- a trigger's `RAISE(ABORT, …)`: the statement throws
  raised : String → Stop
  -- `JSON.parse` of a text that is no JSON
  syntax_error : Stop

pub data Outcome {ℓ} (A : Type ℓ) : Type ℓ where
  value : A → Outcome A
  stop : Stop → Outcome A

abbrev pub Act {ℓ} : Type ℓ → Type ℓ
Act A = World → Outcome A × World

module _ {ℓ} {A : Type ℓ} where
  abbrev pub pure : A → Act A
  pure a w = (value a, w)

  abbrev pub raise : Stop → Act A
  raise s w = (stop s, w)

module _ {ℓ} {A B : Type ℓ} where
  abbrev pub continue : Outcome A → (A → Act B) → Act B
  continue (value a) f w = f a w
  continue (stop s) f w = (stop s, w)

  infixl 10 ◌>>=◌ ◌>>◌
  abbrev pub ◌>>=◌ : Act A → (A → Act B) → Act B
  ◌>>=◌ m f w = let (r, w') = m w in continue r f w'

  abbrev pub ◌>>◌ : Act A → Act B → Act B
  m >> n = m >>= λ _. n

abbrev pub gets {ℓ} : {A : Type ℓ} → (World → A) → Act A
gets f w = (value (f w), w)

abbrev pub modify : (World → World) → Act (Unit {0})
modify f w = (value tt, f w)

abbrev pub guard : Bool → Stop → Act (Unit {0})
guard true s w = (value tt, w)
guard false s w = (stop s, w)

-- A row, or the early return when there is none.
abbrev pub or_stop {ℓ} : {A : Type ℓ} → Option A → Stop → Act A
or_stop none s w = (stop s, w)
or_stop (some a) s w = (value a, w)

-- `uuid()`
abbrev pub draw_uuid : Platform → Act String
draw_uuid p w = (value (p.uuid w.uuids), record w { uuids = w.uuids + 1 })

-- `Date.now()`
abbrev pub read_clock : Platform → Act ℕ
read_clock p w = (value (p.now_ms w.reads), record w { reads = w.reads + 1 })

-- `nowISO()`
abbrev pub now_iso : Platform → Act String
now_iso p w = (value (p.iso (p.now_ms w.reads)), record w { reads = w.reads + 1 })

-- `crypto.getRandomValues(new Uint8Array(n))`
abbrev pub draw_bytes : Platform → ℕ → Act (List ℕ)
draw_bytes p n w = (value (p.random_bytes w.draws n), record w { draws = w.draws + 1 })

-- `new Date(Date.now() + n).toISOString()`
abbrev pub iso_after : Platform → ℕ → Act String
iso_after p n w = (value (p.iso (p.now_ms w.reads + n)), record w { reads = w.reads + 1 })
