-- ===== src/Common/Dict.antt =====
-- A Go `map[string]V` as an association list. The order of the list is the order in which a `range`
-- visits it; Go leaves that order open, so a theorem about a loop is stated for every list.
use Prim.Native.String.{String}
use mathlib.Core.Path.{◌≡◌, refl}
use mathlib.Core.Logic.{inl, inr}
use mathlib.Core.Bool.{true, false, ◌||◌}
use mathlib.Core.Option.{Option, none, some}
use mathlib.Core.List.{List, [], ◌∷◌}
use native.Mathlib.Omega.{arith}
use text.Mathlib.Text.{◌==◌}
use text.Mathlib.TextEquality.{eq_iff}
use skygear_server.Common.Tests.{if◌then◌else◌, Option-cases}
use skygear_server.Common.Lists.{contains}

abbrev pub Dict {ℓ} : Type ℓ → Type ℓ
Dict V = List (String × V)

module _ {ℓ} {V : Type ℓ} where
  unfoldable pub lookup : String → Dict V → Option V
  lookup key [] = none
  lookup key ((name, value) ∷ m) =
      let later = lookup key m in if name == key then some value else later

  unfoldable pub insert : String → V → Dict V → Dict V
  insert key value [] = (key, value) ∷ []
  insert key value ((name, old) ∷ m) =
      let later = insert key value m in
      if name == key then (name, value) ∷ m else (name, old) ∷ later

  -- `delete(m, k)`
  unfoldable pub delete : String → Dict V → Dict V
  delete k [] = []
  delete k ((j, w) ∷ m) = let rest = delete k m in if j == k then rest else (j, w) ∷ rest

  -- The keys in the order of a `range`.
  unfoldable pub keys : Dict V → List String
  keys [] = []
  keys ((j, w) ∷ m) = j ∷ keys m

  -- `for k, v := range src { dst[k] = v }`
  unfoldable pub update_all : Dict V → Dict V → Dict V
  update_all dst [] = dst
  update_all dst ((k, v) ∷ src) = update_all (insert k v dst) src

  -- No key stands twice, which a Go map guarantees.
  abbrev pub HasNodupKeys : Dict V → Type 0
  HasNodupKeys [] = Unit
  HasNodupKeys ((k, v) ∷ m) = (contains (keys m) k ≡ false) × HasNodupKeys m

  pub lookup-insert :
      (key other : String) (value : V) (m : Dict V)
      → lookup other (insert key value m) ≡ (if key == other then some value else lookup other m)
  unfolding lookup insert
  lookup-insert key other value [] = refl
  lookup-insert key other value ((name, old) ∷ m) =
      ground (
        arith,
        lookup-insert key other value m,
        eq_iff name key,
        eq_iff name other,
        eq_iff key other,
      )

  pub lookup-delete :
      (k j : String) (m : Dict V) → lookup j (delete k m) ≡ (if k == j then none else lookup j m)
  unfolding lookup delete
  lookup-delete k j [] = ground arith
  lookup-delete k j ((i, w) ∷ m) =
      ground (arith, eq_iff k j, eq_iff i k, eq_iff i j, lookup-delete k j m)

  -- A key that is listed has a value, and no other has.
  pub lookup-none_iff : (k : String) (m : Dict V) → contains (keys m) k ≡ false → lookup k m ≡ none
  unfolding lookup keys
  lookup-none_iff k [] h = refl
  lookup-none_iff k ((j, w) ∷ m) h = ground (arith, lookup-none_iff k m)

  pub contains-keys_of_lookup :
      (k : String) (m : Dict V) (v : V) → lookup k m ≡ some v → contains (keys m) k ≡ true
  unfolding lookup keys
  contains-keys_of_lookup k [] v h = cc
  contains-keys_of_lookup k ((j, w) ∷ m) v h = ground (arith, contains-keys_of_lookup k m v)

  lookup-ne-none_of_contains :
      (k : String) (m : Dict V) → contains (keys m) k ≡ true → ¬ (lookup k m ≡ none)
  unfolding lookup keys
  lookup-ne-none_of_contains k [] h = cc
  lookup-ne-none_of_contains k ((j, w) ∷ m) h = ground (arith, lookup-ne-none_of_contains k m)

  pub lookup_of_contains :
      (k : String) (m : Dict V) → contains (keys m) k ≡ true → (v : V) × (lookup k m ≡ some v)
  lookup_of_contains k m h = elim (Option-cases (lookup k m)) [
    | inl missing ↦ absurd (lookup-ne-none_of_contains k m h missing)
    | inr found ↦ found
  ]

  pub contains-keys-insert :
      (k j : String) (v : V) (m : Dict V)
      → contains (keys (insert k v m)) j ≡ (k == j || contains (keys m) j)
  unfolding insert keys
  contains-keys-insert k j v [] = refl
  contains-keys-insert k j v ((i, w) ∷ m) =
      ground (arith, eq_iff k j, eq_iff i k, eq_iff i j, contains-keys-insert k j v m)

  pub insert-HasNodupKeys :
      (k : String) (v : V) (m : Dict V) → HasNodupKeys m → HasNodupKeys (insert k v m)
  unfolding insert keys
  insert-HasNodupKeys k v [] h = ground arith
  insert-HasNodupKeys k v ((i, w) ∷ m) h =
      ground
        (arith, eq_iff i k, eq_iff k i, contains-keys-insert k i v m, insert-HasNodupKeys k v m)

  pub lookup-update_all :
      (k : String) (dst src : Dict V)
      → HasNodupKeys src
      → lookup k (update_all dst src)
        ≡ elim (lookup k src) [ none ↦ lookup k dst | some v ↦ some v ]
  unfolding lookup update_all
  lookup-update_all k dst [] h = refl
  lookup-update_all k dst ((j, w) ∷ src) h = ground (
    arith,
    eq_iff j k,
    lookup-update_all k (insert j w dst) src,
    lookup-insert j k w dst,
    lookup-none_iff k src,
  )
