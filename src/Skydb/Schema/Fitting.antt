-- ===== src/Skydb/Schema/Fitting.antt =====
-- What compatibility of the schemas of pkg/server/skydb/record.go means.
use skygear_server.Common.{
  ◌+◌, ◌≤◌, String, ◌≡◌, ◌↔◌, ◌⊎◌, inl, inr, refl, ap, ◌∙◌, true, false, some, [], ◌∷◌, nat_eq,
  ◌==◌, eq_iff, arith, Bool-cases, Option-cases, length, contains,
}
use skygear_server.Common.Dict
use skygear_server.Common.Dict.{Dict, HasNodupKeys, lookup-delete, contains-keys_of_lookup}
use skygear_server.Skydb.Schema.{
  DataType, type_number, type_reference, type_integer, type_sequence, FieldType, RecordSchema,
  is_number_compatible_type, definition_compatible, compatible_loop, schema_compatible,
}
use skygear_server.Skydb.Schema.Compatible.{compatible_loop-lookup}

-- Numbers, integers and sequences.
abbrev pub IsNumeric : DataType → Type 0
IsNumeric t = (t ≡ type_number) ⊎ (t ≡ type_integer) ⊎ (t ≡ type_sequence)

-- The types are the same, and refer to the same record type if they are references; or both are numeric.
abbrev pub Fits : FieldType → FieldType → Type 0
Fits f g =
    ((f.type ≡ g.type) × ((f.type ≡ type_reference) → f.reference_type ≡ g.reference_type))
    ⊎ (IsNumeric f.type × IsNumeric g.type)

IsNumeric-of : (t : DataType) → is_number_compatible_type t ≡ true → IsNumeric t
IsNumeric-of t h = elim (Bool-cases (nat_eq t type_number)) [
  | inl a ↦ inl (ground (arith, a))
  | inr a ↦ elim (Bool-cases (nat_eq t type_integer)) [
    | inl b ↦ inr (inl (ground (arith, b)))
    | inr b ↦ inr (inr (ground (arith, h, a, b)))
  ]
]

definition_compatible-Fits : (f g : FieldType) → definition_compatible f g ≡ true → Fits f g
unfolding definition_compatible
definition_compatible-Fits f g h = elim (Bool-cases (nat_eq f.type g.type)) [
  | inl same ↦
      inl
        (ground (arith, same), λ r. ground (arith, h, r, eq_iff f.reference_type g.reference_type))
  | inr differ ↦ inr (
    IsNumeric-of f.type (ground (arith, h, differ)),
    IsNumeric-of g.type (ground (arith, h, differ)),
  )
]

Fits-definition_compatible : (f g : FieldType) → Fits f g → definition_compatible f g ≡ true
unfolding definition_compatible
Fits-definition_compatible f g h = ground (arith, h, eq_iff f.reference_type g.reference_type)

length-delete : {V : Type 0} (k : String) (m : Dict V) → length (Dict.delete k m) ≤ length m
unfolding Dict.delete
length-delete k [] = omega arith
length-delete k ((j, v) ∷ m) = ground (arith, length-delete k m)

length-delete_found :
    {V : Type 0} (k : String) (m : Dict V) (v : V)
    → Dict.lookup k m ≡ some v
    → length (Dict.delete k m) + 1 ≤ length m
unfolding Dict.delete Dict.lookup
length-delete_found k [] v h = absurd (cc)
length-delete_found k ((j, w) ∷ m) v h =
    ground (arith, h, length-delete k m, length-delete_found k m v)

-- Each field of the second schema has one in the first that fits it.
abbrev pub Covers : RecordSchema → RecordSchema → Type 0
Covers schema other =
    (k : String) (t : FieldType)
    → Dict.lookup k other ≡ some t
    → (u : FieldType) × (Dict.lookup k schema ≡ some u) × Fits t u

-- A key that is found further on is another one.
later-differs :
    (j k : String) (other : RecordSchema) (v : FieldType)
    → contains (Dict.keys other) j ≡ false
    → Dict.lookup k other ≡ some v
    → (j == k) ≡ false
later-differs j k other v fresh e = elim (Bool-cases (j == k)) [
  | inl same ↦
      let here : contains (Dict.keys other) j ≡ true =
        ap (contains (Dict.keys other)) ((eq_iff j k).0 same)
        ∙ contains-keys_of_lookup k other v e in
      absurd (cc)
  | inr differ ↦ differ
]

-- A schema that has all the fields of another, each once, is not shorter.
length-le-of_lookup :
    (schema other : RecordSchema)
    → HasNodupKeys other
    → ((k : String) (t : FieldType)
        → Dict.lookup k other ≡ some t
        → (u : FieldType) × (Dict.lookup k schema ≡ some u))
    → length other ≤ length schema
unfolding Dict.lookup Dict.keys
length-le-of_lookup schema [] d h = omega arith
length-le-of_lookup schema ((j, t) ∷ other) (fresh, d) h =
    let (u, here) = h j t (ground (arith, eq_iff j j)) in
    let rest = length-le-of_lookup (Dict.delete j schema) other d (λ k v e.
      let differ = later-differs j k other v fresh e in
      let (w, found) = h k v (ground (arith, e, differ)) in
      (w, lookup-delete j k schema ∙ ground (arith, found, differ))) in
    omega (arith, rest, length-delete_found j schema u here)

compatible_loop-of_Covers :
    (schema other : RecordSchema)
    → HasNodupKeys other
    → Covers schema other
    → compatible_loop schema other ≡ true
unfolding compatible_loop Dict.lookup
compatible_loop-of_Covers schema [] d h = refl
compatible_loop-of_Covers schema ((j, t) ∷ other) (fresh, d) h =
    let (u, here, fits) = h j t (ground (arith, eq_iff j j)) in
    let later =
      compatible_loop-of_Covers schema other d
        (λ k v e. h k v (ground (arith, e, later-differs j k other v fresh e))) in
    ground (arith, here, later, Fits-definition_compatible t u fits)

-- Given that no field stands twice in the second schema, which a map guarantees, it is compatible to the
-- first exactly if each of its fields has one in the first of the same type, and of the same record type
-- if it is a reference, or of a numeric type if it is numeric. The test of the lengths rules out nothing
-- else.
pub schema_compatible_lem :
    (schema other : RecordSchema)
    → HasNodupKeys other
    → schema_compatible schema other ≡ true ↔ Covers schema other
unfolding schema_compatible
schema_compatible_lem schema other d = (
  λ h k t e.
      let found = compatible_loop-lookup schema other k t (ground (arith, h)) e in
      elim (Option-cases (Dict.lookup k schema)) [
        | inl missing ↦ absurd (ground (arith, found, missing))
        | inr (u, here) ↦ (u, here, definition_compatible-Fits t u (ground (arith, found, here)))
      ],
  λ h.
      let size = length-le-of_lookup schema other d (λ k t e. ((h k t e).0, (h k t e).1)) in
      ground (arith, size, compatible_loop-of_Covers schema other d h),
)
