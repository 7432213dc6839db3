-- ===== src/Skydb/AuthData/Using.antt =====
-- Which group of keys `usingKeys` of pkg/server/skydb/authinfo.go finds.
use skygear_server.Common.{
  ◌≤◌, String, ◌≡◌, refl, ap, ◌∙◌, Bool, true, false, not, ◌&&◌, List, [], ◌∷◌, eq_iff, nat_eq,
  length, all, contains, arith, if◌then◌else◌, Bool-cases, Option-cases, inl, inr,
}
use skygear_server.Common.Dict
use skygear_server.Common.Dict.{HasNodupKeys, contains-keys_of_lookup}
use skygear_server.Skydb.Value.{Data}
use skygear_server.Skydb.AuthData.{
  AuthData, is_field_empty, count_key, count_keys, using_loop, using_keys,
}

-- Every key of the group has a value that is not nil.
abbrev pub is_full : Data → List String → Bool
is_full contents ks = all (λ k. not (is_field_empty contents k)) ks

-- The first full group.
abbrev pub first_full : Data → List (List String) → List String
first_full contents [] = []
first_full contents (ks ∷ groups) =
    let rest = first_full contents groups in if is_full contents ks then ks else rest

count_key_part :
    (contents : Data) (k : String) (m : Data)
    → HasNodupKeys m
    → count_key contents k (Dict.keys m)
      ≡ (if contains (Dict.keys m) k && not (is_field_empty contents k) then 1 else 0)
unfolding count_key Dict.keys
count_key_part contents k [] h = refl
count_key_part contents k ((j, v) ∷ m) h = ground (
  arith,
  eq_iff k j,
  eq_iff j k,
  count_key_part contents k m h.1,
  λ (e : k ≡ j). ap (λ (x : String). is_field_empty contents x) e,
)

contains_of_full :
    (contents : Data) (k : String)
    → is_field_empty contents k ≡ false
    → contains (Dict.keys contents) k ≡ true
contains_of_full contents k h = elim (Option-cases (Dict.lookup k contents)) [
  | inl e ↦ absurd (ground (arith, e))
  | inr (v, e) ↦ contains-keys_of_lookup k contents v e
]

count_key_lem :
    (contents : Data) (k : String)
    → HasNodupKeys contents
    → count_key contents k (Dict.keys contents) ≡ (if not (is_field_empty contents k) then 1 else 0)
count_key_lem contents k h = elim (Bool-cases (is_field_empty contents k)) [
  | inl e ↦ count_key_part contents k contents h ∙ ground (arith, e)
  | inr e ↦ count_key_part contents k contents h ∙ ground (arith, e, contains_of_full contents k e)
]

count_keys-le :
    (contents : Data) (ks : List String)
    → HasNodupKeys contents
    → count_keys contents ks ≤ length ks
unfolding count_keys
count_keys-le contents [] h = omega arith
count_keys-le contents (k ∷ ks) h =
    ground (arith, count_key_lem contents k h, count_keys-le contents ks h)

count_keys_lem :
    (contents : Data) (ks : List String)
    → HasNodupKeys contents
    → nat_eq (length ks) (count_keys contents ks) ≡ is_full contents ks
unfolding count_keys
count_keys_lem contents [] h = refl
count_keys_lem contents (k ∷ ks) h =
    ground
      (arith, count_key_lem contents k h, count_keys-le contents ks h, count_keys_lem contents ks h)

using_loop_lem :
    (contents : Data) (groups : List (List String))
    → HasNodupKeys contents
    → using_loop contents groups ≡ first_full contents groups
unfolding using_loop
using_loop_lem contents [] h = refl
using_loop_lem contents (ks ∷ groups) h =
    rw (count_keys_lem contents ks h, using_loop_lem contents groups h) refl

-- If no key of the data stands twice, `usingKeys` is the first group all of whose keys have a value that
-- is not nil, and is empty if there is none.
pub using_keys_lem :
    (a : AuthData) → HasNodupKeys a.contents → using_keys a ≡ first_full a.contents a.keys
unfolding using_keys
using_keys_lem a h = using_loop_lem a.contents a.keys h
