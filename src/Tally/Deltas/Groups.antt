-- ===== src/Tally/Deltas/Groups.antt =====
-- The grouping loops and the set of keys, against their specification: the running total of the rows
-- of one key, and each key once.
use challanse.Prelude.{
  ◌≡◌, refl, ap, ◌∙◌, ℕ, ◌+◌, ◌||◌, List, [], ◌∷◌, ◌++◌, arith, Text, text_eq, text_eq_iff,
  includes, if◌then◌else◌, All, All-append, Bool-cases, inl, inr,
}
use challanse.Tally.Floats.{Floats, or_zero}
use challanse.Tally.Deltas.{get_or_zero, set_entry, group, keys, distinct}

abbrev pub occurrences : Text → List Text → ℕ
occurrences j [] = 0
occurrences j (k ∷ ks) = (if text_eq k j then 1 else 0) + occurrences j ks

occurrences-append :
    (j : Text) (ks ls : List Text) → occurrences j (ks ++ ls) ≡ occurrences j ks + occurrences j ls
occurrences-append j [] ls = ground arith
occurrences-append j (k ∷ ks) ls = ground (arith, occurrences-append j ks ls)

pub includes-append :
    (ks ls : List Text) (j : Text) → includes (ks ++ ls) j ≡ (includes ks j || includes ls j)
includes-append [] ls j = refl
includes-append (k ∷ ks) ls j = ground (arith, includes-append ks ls j)

module _ (f : Floats) where
  -- What a left-to-right addition of the rows of one key gives.
  abbrev pub total : f.Number → Text → List (Text × f.Number) → f.Number
  total acc key [] = acc
  total acc key ((k, q) ∷ rows) =
      total (if text_eq k key then or_zero f (f.add acc q) else acc) key rows

  get_or_zero-set_entry :
      (k j : Text) (v : f.Number) (m : List (Text × f.Number))
      → get_or_zero f j (set_entry f k v m)
        ≡ (if text_eq k j then or_zero f v else get_or_zero f j m)
  get_or_zero-set_entry k j v [] = refl
  get_or_zero-set_entry k j v ((i, w) ∷ m) =
      ground
        (arith, text_eq_iff k j, text_eq_iff i k, text_eq_iff i j, get_or_zero-set_entry k j v m)

  get_or_zero-step :
      (k j : Text) (q : f.Number) (m : List (Text × f.Number))
      → get_or_zero f j (set_entry f k (f.add (get_or_zero f k m) q) m)
        ≡ (if text_eq k j then or_zero f (f.add (get_or_zero f j m) q) else get_or_zero f j m)
  get_or_zero-step k j q m = elim (Bool-cases (text_eq k j)) [
    | inl same ↦ get_or_zero-set_entry k j _ m ∙ rw (same, (text_eq_iff k j).0 same)
    | inr differs ↦ get_or_zero-set_entry k j _ m ∙ rw differs
  ]

  pub get_or_zero-group :
      (key : Text) (rows m : List (Text × f.Number))
      → get_or_zero f key (group f m rows) ≡ total (get_or_zero f key m) key rows
  unfolding group
  get_or_zero-group key [] m = refl
  get_or_zero-group key ((k, q) ∷ rows) m =
      get_or_zero-group key rows (set_entry f k (f.add (get_or_zero f k m) q) m)
      ∙ ap (λ acc. total acc key rows) (get_or_zero-step k key q m)

  includes-set_entry :
      (k j : Text) (v : f.Number) (m : List (Text × f.Number))
      → includes (keys f (set_entry f k v m)) j ≡ (text_eq k j || includes (keys f m) j)
  includes-set_entry k j v [] = refl
  includes-set_entry k j v ((i, w) ∷ m) =
      ground (arith, text_eq_iff i k, text_eq_iff k j, text_eq_iff i j, includes-set_entry k j v m)

  pub includes-group :
      (j : Text) (rows m : List (Text × f.Number))
      → includes (keys f (group f m rows)) j ≡ (includes (keys f m) j || includes (keys f rows) j)
  unfolding group
  includes-group j [] m = ground arith
  includes-group j ((k, q) ∷ rows) m = ground (
    arith,
    includes-group j rows (set_entry f k (f.add (get_or_zero f k m) q) m),
    includes-set_entry k j (f.add (get_or_zero f k m) q) m,
  )

  module _ (P : Text → Type 0) where
    set_entry-All :
        (k : Text) (v : f.Number) (m : List (Text × f.Number))
        → P k
        → All P (keys f m)
        → All P (keys f (set_entry f k v m))
    set_entry-All k v [] h hs = (h, tt)
    set_entry-All k v ((i, w) ∷ m) h (p, ps) = elim (Bool-cases (text_eq i k)) [
      | inl same ↦ rw same (h, ps)
      | inr differs ↦ rw differs (p, set_entry-All k v m h ps)
    ]

    pub group-All :
        (rows m : List (Text × f.Number))
        → All P (keys f rows)
        → All P (keys f m)
        → All P (keys f (group f m rows))
    unfolding group
    group-All [] m h k = k
    group-All ((key, q) ∷ rows) m (h, hs) k =
        group-All rows (set_entry f key (f.add (get_or_zero f key m) q) m) hs
          (set_entry-All key _ m h k)

    pub distinct-All : (ks seen : List Text) → All P ks → All P seen → All P (distinct f seen ks)
    unfolding distinct
    distinct-All [] seen h k = k
    distinct-All (key ∷ ks) seen (h, hs) k = elim (Bool-cases (includes seen key)) [
      | inl old ↦ rw old (distinct-All ks seen hs k)
      | inr new ↦
          rw new (distinct-All ks (seen ++ (key ∷ [])) hs (All-append P seen (key ∷ []) k (h, tt)))
    ]

  pub occurrences-distinct :
      (j : Text) (ks seen : List Text)
      → occurrences j seen ≡ (if includes seen j then 1 else 0)
      → occurrences j (distinct f seen ks) ≡ (if includes seen j || includes ks j then 1 else 0)
  unfolding distinct
  occurrences-distinct j [] seen h = ground arith
  occurrences-distinct j (k ∷ ks) seen h = elim (Bool-cases (includes seen k)) [
    | inl old ↦ rw old (ground (arith, occurrences-distinct j ks seen h, text_eq_iff k j))
    | inr new ↦ rw new (
        ground (
          arith,
          occurrences-distinct j ks (seen ++ (k ∷ [])),
          occurrences-append j seen (k ∷ []),
          includes-append seen (k ∷ []) j,
          text_eq_iff k j,
        ))
  ]
