-- ===== src/Skydb/Schema/Compatible.antt =====
-- Which schemas and field types of pkg/server/skydb/record.go are compatible.
use skygear_server.Common.{
  ℕ, String, ◌≡◌, refl, sym, subst, ap, ◌∙◌, Bool, true, not, ◌&&◌, ◌||◌, Option, none, some, [],
  ◌∷◌, nat_eq, ◌==◌, eq_iff, arith, if◌then◌else◌, Bool-cases, inl, inr,
}
use skygear_server.Common.Dict
use skygear_server.Skydb.Schema.{
  DataType, type_number, type_reference, is_number_compatible_type, FieldType, RecordSchema,
  definition_compatible, field_compatible, compatible_loop, schema_compatible,
}

-- A number that types have in common exactly if they are compatible, references aside.
kind : DataType → ℕ
kind t = if is_number_compatible_type t then type_number else t

kind-type_reference : (t : DataType) → nat_eq (kind t) type_reference ≡ nat_eq t type_reference
unfolding kind
kind-type_reference t = ground arith

definition_compatible-kind :
    (f g : FieldType)
    → definition_compatible f g ≡ (
        nat_eq (kind f.type) (kind g.type)
        && (not (nat_eq f.type type_reference) || f.reference_type == g.reference_type))
unfolding definition_compatible kind
definition_compatible-kind f g = ground arith

compatible_kinds :
    (k l m : ℕ) (x y : Bool) (r s t : String)
    → nat_eq k type_reference ≡ x
    → nat_eq l type_reference ≡ y
    → (nat_eq k l && (not x || r == s)) ≡ true
    → (nat_eq l m && (not y || s == t)) ≡ true
    → (nat_eq k m && (not x || r == t)) ≡ true
compatible_kinds k l m x y r s t a b h i = ground (arith, eq_iff r s, eq_iff s t, eq_iff r t)

definition_compatible_symm :
    (f g : FieldType) → definition_compatible f g ≡ true → definition_compatible g f ≡ true
definition_compatible_symm f g h = ground (
  arith,
  definition_compatible-kind f g,
  definition_compatible-kind g f,
  kind-type_reference f.type,
  kind-type_reference g.type,
  eq_iff f.reference_type g.reference_type,
  eq_iff g.reference_type f.reference_type,
)

-- Compatibility of field types is an equivalence: it is reflexive, symmetric and transitive.
pub definition_compatible_equivalence :
    (f g h : FieldType)
    → (definition_compatible f f ≡ true)
      × (definition_compatible f g ≡ true → definition_compatible g f ≡ true)
      × (definition_compatible f g ≡ true
          → definition_compatible g h ≡ true
          → definition_compatible f h ≡ true)
definition_compatible_equivalence f g h = (
  ground (arith, definition_compatible-kind f f, eq_iff f.reference_type f.reference_type),
  definition_compatible_symm f g,
  λ a b.
      definition_compatible-kind f h
      ∙ compatible_kinds (kind f.type) (kind g.type) (kind h.type) (nat_eq f.type type_reference)
          (nat_eq g.type type_reference) f.reference_type g.reference_type h.reference_type
          (kind-type_reference f.type) (kind-type_reference g.type)
          (sym (definition_compatible-kind f g) ∙ a) (sym (definition_compatible-kind g h) ∙ b),
)

-- A field of a schema that passed the loop.
pub compatible_loop-lookup :
    (schema other : RecordSchema) (k : String) (t : FieldType)
    → compatible_loop schema other ≡ true
    → Dict.lookup k other ≡ some t
    → field_compatible t (Dict.lookup k schema) ≡ true
unfolding compatible_loop Dict.lookup
compatible_loop-lookup schema [] k t h e = absurd (cc)
compatible_loop-lookup schema ((j, u) ∷ other) k t h e = elim (Bool-cases (j == k)) [
  | inl same ↦
      let here : u ≡ t = ground arith in
      let first : field_compatible u (Dict.lookup j schema) ≡ true = ground arith in
      subst (λ (x : FieldType). field_compatible x (Dict.lookup k schema) ≡ true) here
        (ap (λ (x : String). field_compatible u (Dict.lookup x schema)) (sym ((eq_iff j k).0 same))
          ∙ first)
  | inr differ ↦ compatible_loop-lookup schema other k t (ground arith) (ground arith)
]

field_compatible_trans :
    (t : FieldType) (o p : Option FieldType)
    → field_compatible t o ≡ true
    → ((u : FieldType) → o ≡ some u → field_compatible u p ≡ true)
    → field_compatible t p ≡ true
field_compatible_trans t none p h k = absurd (cc)
field_compatible_trans t (some u) none h k = k u refl
field_compatible_trans t (some u) (some w) h k =
    (definition_compatible_equivalence t u w).2 h (k u refl)

compatible_loop_trans :
    (a b c : RecordSchema)
    → compatible_loop a b ≡ true
    → compatible_loop b c ≡ true
    → compatible_loop a c ≡ true
unfolding compatible_loop
compatible_loop_trans a b [] h k = refl
compatible_loop_trans a b ((j, t) ∷ c) h k = ground (
  arith,
  field_compatible_trans t (Dict.lookup j b) (Dict.lookup j a) (ground arith)
      (λ u e. compatible_loop-lookup a b j u h e),
  compatible_loop_trans a b c h (ground arith),
)

-- If a schema is compatible to a second one, and that to a third, then the first is compatible to the
-- third.
pub schema_compatible_trans :
    (a b c : RecordSchema)
    → schema_compatible a b ≡ true
    → schema_compatible b c ≡ true
    → schema_compatible a c ≡ true
unfolding schema_compatible
schema_compatible_trans a b c h k =
    ground (arith, compatible_loop_trans a b c (ground arith) (ground arith))
