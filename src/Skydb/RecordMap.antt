-- ===== src/Skydb/RecordMap.antt =====
-- A Go `map[skydb.RecordID]V` of pkg/server/recordutil/recordutil.go as an association list. Two keys are
-- the same if both fields of the struct are (pkg/server/skydb/record.go, lines 33-37).
use skygear_server.Common.{
  String, ◌≡◌, refl, ap₂, ◌≤◌, ◌<◌, length, Bool, true, ◌&&◌, Option, none, some, List, [], ◌∷◌,
  ◌==◌, eq_iff, arith, if◌then◌else◌,
}
use skygear_server.Skydb.Value.{RecordId}

abbrev pub RecordMap {ℓ} : Type ℓ → Type ℓ
RecordMap V = List (RecordId × V)

abbrev pub id_eq : RecordId → RecordId → Bool
id_eq a b = a.type == b.type && a.key == b.key

pub id_eq_self : (a : RecordId) → id_eq a a ≡ true
id_eq_self a = ground (arith, eq_iff a.type a.type, eq_iff a.key a.key)

pub eq_of_id_eq : (a b : RecordId) → id_eq a b ≡ true → a ≡ b
eq_of_id_eq a b h =
    ap₂ (λ (t k : String). record { type = t; key = k }) (ground (arith, eq_iff a.type b.type))
      (ground (arith, eq_iff a.key b.key))

module _ {ℓ} {V : Type ℓ} where
  unfoldable pub lookup : RecordId → RecordMap V → Option V
  lookup id [] = none
  lookup id ((other, value) ∷ m) =
      let later = lookup id m in if id_eq other id then some value else later

  unfoldable pub insert : RecordId → V → RecordMap V → RecordMap V
  insert id value [] = (id, value) ∷ []
  insert id value ((other, old) ∷ m) =
      let later = insert id value m in
      if id_eq other id then (other, value) ∷ m else (other, old) ∷ later

  pub lookup-insert_self :
      (id : RecordId) (value : V) (m : RecordMap V) → lookup id (insert id value m) ≡ some value
  unfolding lookup insert
  lookup-insert_self id value [] = ground (arith, id_eq_self id)
  lookup-insert_self id value ((other, old) ∷ m) = ground (arith, lookup-insert_self id value m)

  -- An entry of the changed map is the new one or an old one.
  pub lookup-insert_cases :
      (id other : RecordId) (value : V) (m : RecordMap V)
      → lookup other (insert id value m) ≡ (if id_eq id other then some value else lookup other m)
  unfolding lookup insert
  lookup-insert_cases id other value [] = refl
  lookup-insert_cases id other value ((i, old) ∷ m) = ground (
    arith,
    lookup-insert_cases id other value m,
    eq_iff i.type id.type,
    eq_iff i.key id.key,
    eq_iff i.type other.type,
    eq_iff i.key other.key,
    eq_iff id.type other.type,
    eq_iff id.key other.key,
  )

  pub length-insert :
      (id : RecordId) (value : V) (m : RecordMap V)
      → (length m ≤ length (insert id value m)) × (0 < length (insert id value m))
  unfolding insert
  length-insert id value [] = omega arith
  length-insert id value ((other, old) ∷ m) = ground (arith, length-insert id value m)
