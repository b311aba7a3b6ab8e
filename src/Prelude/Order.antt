-- ===== src/Prelude/Order.antt =====
-- Lists in order, and what the stable insertion sort keeps.
use mathlib.Core.Path.{◌≡◌, refl, sym, ap, ◌∙◌}
use Prim.Native.Nat.{ℕ, ◌+◌}
use mathlib.Core.Bool.{Bool, true, false}
use mathlib.Core.List.{List, [], ◌∷◌, ◌++◌}
use native.Mathlib.Omega.{arith}
use mathlib.Core.Logic.{inl, inr}
use challanse.Prelude.Tests.{if◌then◌else◌, Bool-cases}
use challanse.Prelude.Lists.{select, insert_sorted, sort, All, All-map, insert_sorted-All}

module _ {A : Type 0} where
  -- How many elements pass a test.
  abbrev pub count : (A → Bool) → List A → ℕ
  count q [] = 0
  count q (x ∷ xs) = (if q x then 1 else 0) + count q xs

  pub count-append : (q : A → Bool) (xs ys : List A) → count q (xs ++ ys) ≡ count q xs + count q ys
  count-append q [] ys = omega arith
  count-append q (x ∷ xs) ys = omega (arith, count-append q xs ys)

  count-insert_sorted :
      (q : A → Bool) (le : A → A → Bool) (x : A) (xs : List A)
      → count q (insert_sorted le x xs) ≡ count q (x ∷ xs)
  count-insert_sorted q le x [] = refl
  count-insert_sorted q le x (y ∷ ys) = ground (arith, count-insert_sorted q le x ys)

  pub count-sort :
      (q : A → Bool) (le : A → A → Bool) (xs : List A) → count q (sort le xs) ≡ count q xs
  count-sort q le [] = refl
  count-sort q le (x ∷ xs) =
      count-insert_sorted q le x (sort le xs)
      ∙ ap (λ n. (if q x then 1 else 0) + n) (count-sort q le xs)

  -- Every element may stand before all that follow it.
  abbrev pub Ordered : (A → A → Bool) → List A → Type 0
  Ordered le [] = Unit
  Ordered le (x ∷ xs) = All (λ y. le x y ≡ true) xs × Ordered le xs

-- A test for an order: of two elements one may stand before the other, and the test is transitive.
pub record IsOrder {A : Type 0} (le : A → A → Bool) : Type 0 where
  pub total : (x y : A) → le x y ≡ false → le y x ≡ true
  pub trans : (x y z : A) → le x y ≡ true → le y z ≡ true → le x z ≡ true

module _ {A : Type 0} (le : A → A → Bool) (order : IsOrder le) where
  below :
      (x y : A) (ys : List A)
      → le x y ≡ true
      → All (λ z. le y z ≡ true) ys
      → All (λ z. le x z ≡ true) ys
  below x y ys h k = All-map ys (λ z at. order.trans x y z h at) k

  insert_sorted-Ordered : (x : A) (xs : List A) → Ordered le xs → Ordered le (insert_sorted le x xs)
  insert_sorted-Ordered x [] h = (tt, tt)
  insert_sorted-Ordered x (y ∷ ys) (h, hs) = elim (Bool-cases (le x y)) [
    | inl e ↦ rw e ((e, below x y ys e h), (h, hs))
    | inr n ↦ rw n (
      insert_sorted-All (λ z. le y z ≡ true) le x ys (order.total x y n) h,
      insert_sorted-Ordered x ys hs,
    )
  ]

  pub sort-Ordered : (xs : List A) → Ordered le (sort le xs)
  sort-Ordered [] = tt
  sort-Ordered (x ∷ xs) = insert_sorted-Ordered x (sort le xs) (sort-Ordered xs)

  insert_least :
      (x : A) (xs : List A) → All (λ z. le x z ≡ true) xs → insert_sorted le x xs ≡ x ∷ xs
  insert_least x [] h = refl
  insert_least x (y ∷ ys) (h, _) = rw h refl

  select-All_of : (P : A → Type 0) (q : A → Bool) (xs : List A) → All P xs → All P (select q xs)
  select-All_of P q [] h = tt
  select-All_of P q (x ∷ xs) (h, hs) =
      elim (q x) as (λ b. All P (if b then x ∷ select q xs else select q xs)) [
        | true ↦ (h, select-All_of P q xs hs)
        | false ↦ select-All_of P q xs hs
      ]

  select-insert_dropped :
      (q : A → Bool) (x : A) (xs : List A)
      → q x ≡ false
      → select q (insert_sorted le x xs) ≡ select q xs
  select-insert_dropped q x [] h = rw h refl
  select-insert_dropped q x (y ∷ ys) h = ground (arith, h, select-insert_dropped q x ys h)

  select-insert_kept :
      (q : A → Bool) (x : A) (xs : List A)
      → Ordered le xs
      → q x ≡ true
      → select q (insert_sorted le x xs) ≡ insert_sorted le x (select q xs)
  select-insert_kept q x [] _ h = rw h refl
  select-insert_kept q x (y ∷ ys) (k, ks) h = elim (Bool-cases (le x y)) [
    | inl e ↦
        let least =
          insert_least x (select q (y ∷ ys))
            (select-All_of (λ z. le x z ≡ true) q (y ∷ ys) (e, below x y ys e k)) in
        rw (e, h) (sym least)
    | inr n ↦ ground (arith, n, select-insert_kept q x ys ks h)
  ]

  -- A stable sort of the rows that a test keeps is the sorted list's rows that it keeps.
  pub select-sort : (q : A → Bool) (xs : List A) → select q (sort le xs) ≡ sort le (select q xs)
  select-sort q [] = refl
  select-sort q (x ∷ xs) = elim (Bool-cases (q x)) [
    | inl e ↦ rw e (
        select-insert_kept q x (sort le xs) (sort-Ordered xs) e
        ∙ ap (insert_sorted le x) (select-sort q xs))
    | inr n ↦ rw n (select-insert_dropped q x (sort le xs) n ∙ select-sort q xs)
  ]
