-- ===== src/Recordutil/SchemaMerger/Merging.antt =====
-- When the schemas of several records merge, in pkg/server/recordutil/recordutil.go.
use skygear_server.Common.{
  String, ◌≡◌, refl, sym, subst, ap, ◌∙◌, true, Option, none, some, List, [], ◌∷◌, ◌==◌, eq_iff,
  arith, All, Option-cases, Bool-cases, inl, inr, ◌⊎◌,
}
use skygear_server.Common.Dict
use skygear_server.Common.Dict.{Dict, lookup-insert}
use skygear_server.Skydb.Schema.{FieldType, RecordSchema}
use skygear_server.Recordutil.SchemaMerger.{
  SchemaMerger, new_schema_merger, field_eq, extend_loop, extend,
}

eq_of_field_eq : (a b : FieldType) → field_eq a b ≡ true → a ≡ b
eq_of_field_eq a b h =
    ground
      (arith, eq_iff a.reference_type b.reference_type, eq_iff a.underlying_type b.underlying_type)

field_eq_self : (a : FieldType) → field_eq a a ≡ true
field_eq_self a =
    ground
      (arith, eq_iff a.reference_type a.reference_type, eq_iff a.underlying_type a.underlying_type)

-- The types that a schema gives to its fields are those of the table.
abbrev pub Embeds : (String → Option FieldType) → RecordSchema → Type 0
Embeds table [] = Unit
Embeds table ((k, t) ∷ schema) = (table k ≡ some t) × Embeds table schema

abbrev Includes : (String → Option FieldType) → RecordSchema → Type 0
Includes table final =
    (k : String) (t : FieldType) → Dict.lookup k final ≡ some t → table k ≡ some t

Includes-insert :
    (table : String → Option FieldType) (key : String) (t : FieldType) (final : RecordSchema)
    → Includes table final
    → table key ≡ some t
    → Includes table (Dict.insert key t final)
Includes-insert table key t final h e = λ k u p. elim (Bool-cases (key == k)) [
  | inl q ↦
      let here : some t ≡ some u = ground (arith, p, q, lookup-insert key k t final) in
      subst (λ x. table x ≡ some u) ((eq_iff key k).0 q) (e ∙ here)
  | inr q ↦ h k u (ground (arith, p, q, lookup-insert key k t final))
]

-- The loop goes on with the field if there is none yet or one of the same type.
loop_merged :
    (key : String) (t : FieldType) (final schema : RecordSchema)
    → (Dict.lookup key final ≡ none) ⊎ (Dict.lookup key final ≡ some t)
    → extend_loop (Dict.insert key t final) schema ≡ extend_loop final ((key, t) ∷ schema)
unfolding extend_loop
loop_merged key t final schema (inl p) = ground (arith, p)
loop_merged key t final schema (inr p) = ground (arith, p, field_eq_self t)

-- A table that fits what was merged so far and the next schema leaves no conflict.
extend_loop-fits :
    (table : String → Option FieldType) (final schema : RecordSchema)
    → Includes table final
    → Embeds table schema
    → ((extend_loop final schema).error ≡ none)
      × Includes table (extend_loop final schema).final_schema
extend_loop-fits table final [] h k = unfold extend_loop in (refl, h)
extend_loop-fits table final ((key, t) ∷ schema) h (e, k) =
    let found : (Dict.lookup key final ≡ none) ⊎ (Dict.lookup key final ≡ some t) =
      elim (Option-cases (Dict.lookup key final)) [
        | inl p ↦ inl p
        | inr (u, p) ↦ inr (p ∙ sym (h key u p) ∙ e)
      ] in
    subst (λ (m : SchemaMerger). (m.error ≡ none) × Includes table m.final_schema)
      (loop_merged key t final schema found)
      (extend_loop-fits table (Dict.insert key t final) schema
        (Includes-insert table key t final h e) k)

-- The first round of a loop without a conflict.
merged_of_loop :
    (key : String) (t : FieldType) (final schema : RecordSchema)
    → (extend_loop final ((key, t) ∷ schema)).error ≡ none
    → (Dict.lookup key final ≡ none) ⊎ (Dict.lookup key final ≡ some t)
unfolding extend_loop
merged_of_loop key t final schema h = elim (Option-cases (Dict.lookup key final)) [
  | inl p ↦ inl p
  | inr (u, p) ↦ elim (Bool-cases (field_eq u t)) [
    | inl q ↦ inr (p ∙ ap some (eq_of_field_eq u t q))
    | inr q ↦ absurd (ground (arith, h, p, q))
  ]
]

abbrev table_of : SchemaMerger → String → Option FieldType
table_of m key = Dict.lookup key m.final_schema

-- Without a conflict, the merged schema has what was merged so far and the next schema.
extend_loop-merges :
    (final schema : RecordSchema)
    → (extend_loop final schema).error ≡ none
    → Includes (table_of (extend_loop final schema)) final
      × Embeds (table_of (extend_loop final schema)) schema
extend_loop-merges final [] h = unfold extend_loop in (λ k t p. p, tt)
extend_loop-merges final ((key, t) ∷ schema) h =
    let found = merged_of_loop key t final schema h in
    let same = loop_merged key t final schema found in
    let (older, newer) =
      extend_loop-merges (Dict.insert key t final) schema
        (ap (λ (m : SchemaMerger). m.error) same ∙ h) in
    let here : Dict.lookup key (Dict.insert key t final) ≡ some t =
      ground (arith, lookup-insert key key t final, eq_iff key key) in
    let kept : Includes (λ k. Dict.lookup k (Dict.insert key t final)) final = λ k u p.
      elim (Bool-cases (key == k)) [
        | inr q ↦ ground (arith, p, q, lookup-insert key k t final)
        | inl q ↦ elim found [
          | inl f ↦ absurd (ground (arith, f, p, (eq_iff key k).0 q))
          | inr f ↦ ground (arith, f, p, (eq_iff key k).0 q, here)
        ]
      ] in
    subst
      (λ (m : SchemaMerger). Includes (table_of m) final × Embeds (table_of m) ((key, t) ∷ schema))
      same (λ k u p. older k u (kept k u p), (older key t here, newer))

-- `Extend` for each of several schemas, in order.
abbrev pub extend_all : SchemaMerger → List RecordSchema → SchemaMerger
extend_all m [] = m
extend_all m (schema ∷ schemas) = extend_all (extend m schema) schemas

-- A schema fits a table if it fits one whose entries the table has.
Embeds-Includes :
    (table : String → Option FieldType) (other : String → Option FieldType)
    → ((k : String) (t : FieldType) → other k ≡ some t → table k ≡ some t)
    → (schema : RecordSchema) → Embeds other schema
    → Embeds table schema
Embeds-Includes table other h [] k = tt
Embeds-Includes table other h ((key, t) ∷ schema) (e, k) =
    (h key t e, Embeds-Includes table other h schema k)

extend-conflict :
    (m : SchemaMerger) (schema : RecordSchema)
    → (extend m schema).error ≡ none
    → (m.error ≡ none) × (extend m schema ≡ extend_loop m.final_schema schema)
unfolding extend
extend-conflict m schema h = elim (Option-cases m.error) [
  | inl p ↦ (p, ground (arith, p))
  | inr (c, p) ↦ absurd (ground (arith, h, p))
]

extend_all-merges :
    (m : SchemaMerger) (schemas : List RecordSchema)
    → (extend_all m schemas).error ≡ none
    → (m.error ≡ none)
      × Includes (table_of (extend_all m schemas)) m.final_schema
      × All (Embeds (table_of (extend_all m schemas))) schemas
extend_all-merges m [] h = (h, λ k t p. p, tt)
extend_all-merges m (schema ∷ schemas) h =
    let (ok, older, newer) = extend_all-merges (extend m schema) schemas h in
    let (ok', same) = extend-conflict m schema ok in
    let (kept, added) =
      extend_loop-merges m.final_schema schema
        (ap (λ (x : SchemaMerger). x.error) (sym same) ∙ ok) in
    let table = table_of (extend_all (extend m schema) schemas) in
    let older' : Includes table (extend_loop m.final_schema schema).final_schema =
      subst (λ (x : SchemaMerger). Includes table x.final_schema) same older in
    (
      ok',
      λ k t p. older' k t (kept k t p),
      (
        Embeds-Includes table (table_of (extend_loop m.final_schema schema)) older' schema added,
        newer,
      ),
    )

extend_all-fits :
    (table : String → Option FieldType) (m : SchemaMerger) (schemas : List RecordSchema)
    → m.error ≡ none
    → Includes table m.final_schema
    → All (Embeds table) schemas
    → ((extend_all m schemas).error ≡ none) × Includes table (extend_all m schemas).final_schema
extend_all-fits table m [] e h k = (e, h)
extend_all-fits table m (schema ∷ schemas) e h (k, ks) =
    let same : extend_loop m.final_schema schema ≡ extend m schema =
      unfold extend in ground (arith, e) in
    let (ok, fits) =
      subst (λ (x : SchemaMerger). (x.error ≡ none) × Includes table x.final_schema) same
        (extend_loop-fits table m.final_schema schema h k) in
    extend_all-fits table (extend m schema) schemas ok fits ks

-- Schemas that are merged one after the other leave no conflict exactly if some table gives each field
-- of each of them its type, and then the merged schema is the least such table.
pub extend_all_lem :
    (schemas : List RecordSchema)
    → let m = extend_all new_schema_merger schemas in
      (m.error ≡ none → All (Embeds (λ k. Dict.lookup k m.final_schema)) schemas)
      × ((table : String → Option FieldType)
          → All (Embeds table) schemas
          → (m.error ≡ none)
            × ((k : String) (t : FieldType)
                → Dict.lookup k m.final_schema ≡ some t
                → table k ≡ some t))
extend_all_lem schemas = (
  λ h. (extend_all-merges new_schema_merger schemas h).2,
  λ table fits.
      extend_all-fits table new_schema_merger schemas refl
        (λ k t p. absurd (unfold Dict.lookup in cc)) fits,
)
