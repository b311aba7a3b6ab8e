-- ===== src/Tests/Data.antt =====
-- A platform, a bucket and the rows of a small site, to run the code on. The hash keeps a text and
-- leaves its colons out; the numbers stand for those of a CSV file.
use Prim.Native.Char.{code}
use Prim.Native.String.{String}
use text.Mathlib.Text.{◌==◌}
use challanse.Prelude.{
  ℕ, zero, suc, ◌+◌, ◌-◌, ◌*◌, ◌%◌, string_length, ◌≡◌, refl, arith, true, false, not, Option, none,
  some, List, [], ◌∷◌, Text, nat_eq, ltb, if◌then◌else◌, print_number, find, select,
}
use challanse.Tally.Floats.{Floats}
use challanse.Json.{Fields, stringify}
use challanse.Json.Texts.{NoColon}
use challanse.World.{World, Platform, StoredObject}
use challanse.Uploads.{Bucket}

abbrev read_from : ℕ → Text → ℕ
read_from n [] = n
read_from n (c ∷ t) = read_from (n * 10 + (c - 48)) t

abbrev read : Text → ℕ
read t = read_from 0 t

-- Whole numbers, read from the digits of a text.
abbrev pub whole_numbers : Floats
whole_numbers = record {
  Number = ℕ;
  zero = 0;
  parse_float = read;
  is_finite = λ _. true;
  at_most_zero = λ n. nat_eq n 0;
  truthy = λ n. not (nat_eq n 0);
  add = λ a b. a + b;
  exceeds = λ a b. ltb b a;
}

abbrev pub no_colons : String → String
no_colons String.[] = ""
no_colons (String.◌∷◌ c s) =
    if nat_eq (code c) b':' then no_colons s else String.◌∷◌ c (no_colons s)

pub no_colons-NoColon : (s : String) → NoColon (no_colons s)
no_colons-NoColon String.[] = tt
no_colons-NoColon (String.◌∷◌ c s) =
    elim (nat_eq (code c) b':')
        as (λ b.
          (nat_eq (code c) b':' ≡ b)
          → NoColon (if b then no_colons s else String.◌∷◌ c (no_colons s))) [
            | true ↦ λ _. no_colons-NoColon s
            | false ↦ λ e. (ground (arith, e), no_colons-NoColon s)
          ]
      refl

abbrev parse_among : List Fields → String → Option Fields
parse_among [] s = none
parse_among (body ∷ bodies) s = if s == stringify body then some body else parse_among bodies s

abbrev total : List ℕ → ℕ
total [] = 0
total (n ∷ ns) = n + total ns

abbrev pub bytes_from : ℕ → ℕ → List ℕ
bytes_from n zero = []
bytes_from n (suc k) = ((n + 17 * k) % 256) ∷ bytes_from n k

-- A platform that reads back these bodies.
abbrev pub toy : List Fields → Platform
toy bodies = record {
  sha256_hex = no_colons;
  sha256_bytes = λ bytes. print_number (total bytes);
  uuid = print_number;
  now_ms = λ n. 1000000 + n;
  iso = print_number;
  json_parse = parse_among bodies;
  sql_time = print_number;
  parse_time = λ s. some (string_length s);
  random_bytes = λ n k. bytes_from n k;
}

abbrev bytes_of : Option StoredObject → Option (List ℕ)
bytes_of none = none
bytes_of (some o) = some o.bytes

abbrev keys_of : List StoredObject → List String
keys_of [] = []
keys_of (o ∷ objects) = o.key ∷ keys_of objects

abbrev pub toy_bucket : Bucket
toy_bucket = record {
  put =
      λ key bytes kind objects. record { key = key; bytes = bytes; content_type = kind } ∷ objects;
  get = λ key objects. bytes_of (find (λ o. o.key == key) objects);
  delete = λ key objects. select (λ o. not (o.key == key)) objects;
  list = λ prefix objects. keys_of objects;
}

abbrev pub empty_world : World
empty_world = record {
  organizations = [];
  sites = [];
  devices = [];
  reviewers = [];
  nonces = [];
  receipts = [];
  sessions = [];
  chains = [];
  events = [];
  forks = [];
  alerts = [];
  nodes = [];
  edges = [];
  vendors = [];
  codes = [];
  invitations = [];
  verified = [];
  objects = [];
  queue = [];
  uuids = 0;
  reads = 0;
  draws = 0;
}
