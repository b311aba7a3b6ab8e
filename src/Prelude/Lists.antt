-- ===== src/Prelude/Lists.antt =====
-- Lists measured by native numbers, Boolean queries on lists, and stable insertion sort.
use Prim.Native.Nat.{ℕ, zero, suc, ◌+◌}
use mathlib.Core.Path.{◌≡◌, refl, ap, ◌∙◌}
use mathlib.Core.Bool.{Bool, true, false}
use mathlib.Core.List.{List, [], ◌∷◌, ◌++◌}
use mathlib.Core.Option.{Option, none, some}
use native.Mathlib.Omega.{arith}
use mathlib.Core.Logic.{inl, inr}
use challanse.Prelude.Tests.{if◌then◌else◌, Bool-cases}

module _ {ℓ} {A : Type ℓ} where
  abbrev pub length : List A → ℕ
  length [] = 0
  length (x ∷ xs) = suc (length xs)

  abbrev pub get_elem? : List A → ℕ → Option A
  get_elem? [] i = none
  get_elem? (x ∷ xs) zero = some x
  get_elem? (x ∷ xs) (suc i) = get_elem? xs i

  abbrev pub take : ℕ → List A → List A
  take zero xs = []
  take (suc n) [] = []
  take (suc n) (x ∷ xs) = x ∷ take n xs

  pub length-append : (xs ys : List A) → length (xs ++ ys) ≡ length xs + length ys
  length-append [] ys = omega arith
  length-append (x ∷ xs) ys = omega (arith, length-append xs ys)

  -- The rows of a table that a `WHERE` clause keeps.
  abbrev pub select : (A → Bool) → List A → List A
  select p [] = []
  select p (x ∷ xs) = if p x then x ∷ select p xs else select p xs

  pub select-append :
      (p : A → Bool) (xs ys : List A) → select p (xs ++ ys) ≡ select p xs ++ select p ys
  select-append p [] ys = refl
  select-append p (x ∷ xs) ys = ground (arith, select-append p xs ys)

  -- The first row that a `WHERE` clause keeps.
  abbrev pub find : (A → Bool) → List A → Option A
  find p [] = none
  find p (x ∷ xs) = if p x then some x else find p xs

  -- `UPDATE`: every row that the test keeps is rewritten.
  abbrev pub update : (A → Bool) → (A → A) → List A → List A
  update p f [] = []
  update p f (x ∷ xs) = (if p x then f x else x) ∷ update p f xs

  -- List concatenation under a name, for files that concatenate strings with the operator.
  abbrev pub append : List A → List A → List A
  append xs ys = xs ++ ys

  abbrev pub is_none : Option A → Bool
  is_none none = true
  is_none (some x) = false

  -- `o ?? x`
  abbrev pub or_else : Option A → A → A
  or_else none x = x
  or_else (some y) x = y

  -- `INSERT`: the row comes last.
  abbrev pub add_last : List A → A → List A
  add_last xs x = xs ++ (x ∷ [])

  -- `ORDER BY`: stable insertion sort by a test that says when the first may stand before the second.
  abbrev pub insert_sorted : (A → A → Bool) → A → List A → List A
  insert_sorted le x [] = x ∷ []
  insert_sorted le x (y ∷ ys) = if le x y then x ∷ y ∷ ys else y ∷ insert_sorted le x ys

  abbrev pub sort : (A → A → Bool) → List A → List A
  sort le [] = []
  sort le (x ∷ xs) = insert_sorted le x (sort le xs)

  abbrev pub All {κ} : (A → Type κ) → List A → Type κ
  All P [] = Unit
  All P (x ∷ xs) = P x × All P xs

  pub All-map {κ μ} :
      {P : A → Type κ} {Q : A → Type μ} (xs : List A) → ((x : A) → P x → Q x) → All P xs → All Q xs
  All-map [] f h = tt
  All-map (x ∷ xs) f (h, hs) = (f x h, All-map xs f hs)

  -- An update that keeps the test is found where the row was.
  pub find-update :
      (q : A → Bool) (f : A → A) (xs : List A) (x : A)
      → ((y : A) → q (f y) ≡ q y)
      → find q xs ≡ some x
      → find q (update q f xs) ≡ some (f x)
  find-update q f [] x keep h = cc
  find-update q f (y ∷ ys) x keep h = elim (Bool-cases (q y)) [
    | inl e ↦
        let same : y ≡ x = ground (arith, h, e) in
        let kept : q (f y) ≡ true = keep y ∙ e in rw (e, kept, same) refl
    | inr n ↦ rw (n, n) (find-update q f ys x keep (ground (arith, h, n)))
  ]

  pub All-append {κ} : (P : A → Type κ) (xs ys : List A) → All P xs → All P ys → All P (xs ++ ys)
  All-append P [] ys h k = k
  All-append P (x ∷ xs) ys (h, hs) k = (h, All-append P xs ys hs k)

  pub insert_sorted-All {κ} :
      (P : A → Type κ) (le : A → A → Bool) (x : A) (xs : List A)
      → P x
      → All P xs
      → All P (insert_sorted le x xs)
  insert_sorted-All P le x [] h k = (h, tt)
  insert_sorted-All P le x (y ∷ ys) h (k, ks) =
      elim (le x y) as (λ b. All P (if b then x ∷ y ∷ ys else y ∷ insert_sorted le x ys)) [
        | true ↦ (h, (k, ks))
        | false ↦ (k, insert_sorted-All P le x ys h ks)
      ]

  pub sort-All {κ} :
      (P : A → Type κ) (le : A → A → Bool) (xs : List A) → All P xs → All P (sort le xs)
  sort-All P le [] h = tt
  sort-All P le (x ∷ xs) (h, hs) = insert_sorted-All P le x (sort le xs) h (sort-All P le xs hs)

  insert_sorted-append :
      (le : A → A → Bool) (x e : A) (xs : List A)
      → le x e ≡ true
      → insert_sorted le x (xs ++ e ∷ []) ≡ insert_sorted le x xs ++ e ∷ []
  insert_sorted-append le x e [] h = ground arith
  insert_sorted-append le x e (y ∷ ys) h = ground (arith, insert_sorted-append le x e ys h)

  -- A row that every other row may stand before is sorted to the end.
  pub sort-append_last :
      (le : A → A → Bool) (e : A) (xs : List A)
      → All (λ x. le x e ≡ true) xs
      → sort le (xs ++ e ∷ []) ≡ sort le xs ++ e ∷ []
  sort-append_last le e [] h = refl
  sort-append_last le e (x ∷ xs) (h, hs) =
      ap (insert_sorted le x) (sort-append_last le e xs hs)
      ∙ insert_sorted-append le x e (sort le xs) h

-- `!!o` of an optional number
abbrev pub truthy_number : Option ℕ → Bool
truthy_number none = false
truthy_number (some zero) = false
truthy_number (some (suc n)) = true
