-- ===== src/Tests/Sorting.antt =====
-- Insertion sort is a sorter of field entries.
use mathlib.Core.List.{Perm}
use mathlib.Core.List.Perm as Perms
use skygear_server.Common.{
  ◌≡◌, true, false, List, [], ◌∷◌, arith, All, Bool-cases, inl, inr, if◌then◌else◌,
}
use skygear_server.Skydb.FieldAcl.{FieldAclEntry, less, IsSorted, Sorter}
use skygear_server.Skydb.FieldAcl.Order.{less_strict_weak_order}

pub insert : FieldAclEntry → List FieldAclEntry → List FieldAclEntry
insert e [] = e ∷ []
insert e (f ∷ list) = let rest = insert e list in if less e f then e ∷ f ∷ list else f ∷ rest

pub insertion_sort : List FieldAclEntry → List FieldAclEntry
unfolding insert
insertion_sort [] = []
insertion_sort (e ∷ list) = insert e (insertion_sort list)

insert-perm : (e : FieldAclEntry) (list : List FieldAclEntry) → Perm (insert e list) (e ∷ list)
unfolding insert
insert-perm e [] = Perms.refl (e ∷ [])
insert-perm e (f ∷ list) = elim (Bool-cases (less e f)) [
  | inl h ↦ rw h (Perms.refl (e ∷ f ∷ list))
  | inr h ↦ rw h (Perms.trans (Perms.cons f (insert-perm e list)) (Perms.swap e f list))
]

pub sort-perm : (list : List FieldAclEntry) → Perm (insertion_sort list) list
unfolding insertion_sort
sort-perm [] = Perms.refl []
sort-perm (e ∷ list) =
    Perms.trans (insert-perm e (insertion_sort list)) (Perms.cons e (sort-perm list))

All-insert :
    (x e : FieldAclEntry) (list : List FieldAclEntry)
    → less e x ≡ false
    → All (λ later. less later x ≡ false) list
    → All (λ later. less later x ≡ false) (insert e list)
unfolding insert
All-insert x e [] h a = (h, tt)
All-insert x e (f ∷ list) h a = elim (Bool-cases (less e f)) [
  | inl k ↦ rw k (h, a)
  | inr k ↦ rw k (a.0, All-insert x e list h a.1)
]

-- Nothing in a list that is not less than `f` is less than an entry that is less than `f`.
All-less :
    (e f : FieldAclEntry) (list : List FieldAclEntry)
    → less e f ≡ true
    → All (λ later. less later f ≡ false) list
    → All (λ later. less later e ≡ false) list
All-less e f [] h a = tt
All-less e f (g ∷ list) h a =
    (ground (arith, less_strict_weak_order g e f), All-less e f list h a.1)

insert-IsSorted :
    (e : FieldAclEntry) (list : List FieldAclEntry) → IsSorted list → IsSorted (insert e list)
unfolding insert
insert-IsSorted e [] s = (tt, tt)
insert-IsSorted e (f ∷ list) s = elim (Bool-cases (less e f)) [
  | inl h ↦
      rw h ((ground (arith, less_strict_weak_order e f f), All-less e f list h s.0), (s.0, s.1))
  | inr h ↦ rw h (All-insert f e list h s.0, insert-IsSorted e list s.1)
]

pub sort-IsSorted : (list : List FieldAclEntry) → IsSorted (insertion_sort list)
unfolding insertion_sort
sort-IsSorted [] = tt
sort-IsSorted (e ∷ list) = insert-IsSorted e (insertion_sort list) (sort-IsSorted list)

abbrev pub insertion_sorter : Sorter
insertion_sorter = record {
  sort = insertion_sort;
  sort-perm = sort-perm;
  sort-IsSorted = sort-IsSorted;
}
