-- ===== src/Json/Laws.antt =====
-- What the allow-list of a canonical text leaves out.
use challanse.Prelude.{
  All, sort-All, ◌≡◌, refl, sym, ap, ◌∙◌, Bool, false, ◌||◌, Option, none, some, List, [], ◌∷◌,
  arith, String, sort,
}
use text.Mathlib.Text.{◌==◌}
use challanse.Json.{
  Json, obj, Fields, end, field, field_names, lookup_member, listed_members, cons_printed, print,
  print_fields, print_members, stringify_sorted, text_le,
}

abbrev pub mem : String → List String → Bool
mem k [] = false
mem k (j ∷ js) = (j == k) || mem k js

-- No key of the first list is in the second.
abbrev pub Apart : List String → List String → Type 0
Apart ks names = All (λ k. mem k names ≡ false) ks

lookup_member-absent :
    (r : Option (List String)) (k : String) (fs : Fields)
    → mem k (field_names fs) ≡ false
    → lookup_member k (print_fields r fs) ≡ none
unfolding print_fields
lookup_member-absent r k end h = refl
lookup_member-absent r k (field j v fs) h = ground (arith, lookup_member-absent r k fs)

listed_members-Apart :
    (r : Option (List String)) (ks : List String) (fs : Fields)
    → Apart ks (field_names fs)
    → listed_members ks (print_fields r fs) ≡ []
listed_members-Apart r [] fs h = refl
listed_members-Apart r (k ∷ ks) fs (h, hs) =
    rw (lookup_member-absent r k fs h) (listed_members-Apart r ks fs hs)

-- An object none of whose keys is listed prints as one without members.
pub print-obj-Apart :
    (ks : List String) (fs : Fields)
    → Apart ks (field_names fs)
    → print (some ks) (obj fs) ≡ some "{}"
unfolding print
print-obj-Apart ks fs h = rw (listed_members-Apart (some ks) ks fs h)

-- An object with the members of both.
abbrev pub append_fields : Fields → Fields → Fields
append_fields end gs = gs
append_fields (field k v fs) gs = field k v (append_fields fs gs)

names_of_append :
    (before after : Fields) (k : String) (v w : Json)
    → field_names (append_fields before (field k v after))
      ≡ field_names (append_fields before (field k w after))
names_of_append end after k v w = refl
names_of_append (field j u before) after k v w =
    ap (λ ks. j ∷ ks) (names_of_append before after k v w)

print_fields-append :
    (r : Option (List String)) (before after : Fields) (k : String) (v w : Json)
    → print r v ≡ print r w
    → print_fields r (append_fields before (field k v after))
      ≡ print_fields r (append_fields before (field k w after))
unfolding print_fields
print_fields-append r end after k v w e = rw e
print_fields-append r (field j u before) after k v w e =
    ap (cons_printed j (print r u)) (print_fields-append r before after k v w e)

-- Two objects that differ in one member, whose value is an object with none of the outer keys, print
-- alike under their own sorted keys.
pub stringify_sorted-nested :
    (before after : Fields) (k : String) (fs gs : Fields)
    → Apart (field_names (append_fields before (field k (obj fs) after))) (field_names fs)
    → Apart (field_names (append_fields before (field k (obj fs) after))) (field_names gs)
    → stringify_sorted (append_fields before (field k (obj fs) after))
      ≡ stringify_sorted (append_fields before (field k (obj gs) after))
unfolding stringify_sorted
stringify_sorted-nested before after k fs gs h l =
    let names = field_names (append_fields before (field k (obj fs) after)) in
    let keys = sort text_le names in
    let inner : print (some keys) (obj fs) ≡ print (some keys) (obj gs) =
      print-obj-Apart keys fs (sort-All _ text_le names h)
      ∙ sym (print-obj-Apart keys gs (sort-All _ text_le names l)) in
    rw (← names_of_append before after k (obj fs) (obj gs)) (
      ap (print_members (some keys))
        (print_fields-append (some keys) before after k (obj fs) (obj gs) inner))
