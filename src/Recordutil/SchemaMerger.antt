-- ===== src/Recordutil/SchemaMerger.antt =====
-- pkg/server/recordutil/recordutil.go, lines 402-440 and 498-547: deriving the schema that a request needs
-- and extending the database's by it. `none` is a panic. The error of a merger is the conflict.
pub mod Merging
use skygear_server.Common.{
  String, Bool, true, false, ◌&&◌, ◌||◌, Option, none, some, List, [], ◌∷◌, nat_eq, ◌==◌,
  if◌then◌else◌, ◌>>=◌,
}
use skygear_server.Common.Dict
use skygear_server.Common.Dict.{Dict}
use skygear_server.Skydb.Record.{Record, entries}
use skygear_server.Skydb.Schema.{FieldType, RecordSchema, derive_field_type}
use skygear_server.Skydb.Value.{Value, Data, null}
use skygear_server.Skyerr.{GoError}
use skygear_server.Recordutil.Modify.{Database, Extended, extended, not_extended}

-- `==` on two structs.
abbrev pub field_eq : FieldType → FieldType → Bool
field_eq a b =
    nat_eq a.type b.type
    && a.reference_type == b.reference_type
    && a.underlying_type == b.underlying_type

pub record Conflict : Type 0 where
  pub column : String
  pub original_type : FieldType
  pub data_type : FieldType

pub record SchemaMerger : Type 0 where
  pub final_schema : RecordSchema
  pub error : Option Conflict

abbrev pub new_schema_merger : SchemaMerger
new_schema_merger = record { final_schema = []; error = none }

-- The loop of `Extend`.
pub extend_loop : RecordSchema → RecordSchema → SchemaMerger
extend_loop final [] = record { final_schema = final; error = none }
extend_loop final ((key, t) ∷ schema) = elim (Dict.lookup key final) [
  | none ↦ extend_loop (Dict.insert key t final) schema
  | some original ↦ elim (field_eq original t) [
    | true ↦ extend_loop (Dict.insert key t final) schema
    | false ↦ record {
      final_schema = final;
      error = some (record { column = key; original_type = original; data_type = t });
    }
  ]
]

unfoldable pub extend : SchemaMerger → RecordSchema → SchemaMerger
unfolding extend_loop
extend m schema = elim (m.error) [ some conflict ↦ m | none ↦ extend_loop m.final_schema schema ]

-- The loop of `deriveRecordSchema`; a nil value is skipped.
derive_loop : RecordSchema → Data → Option RecordSchema
derive_loop schema [] = some schema
derive_loop schema ((key, null) ∷ m) = derive_loop schema m
derive_loop schema ((key, value) ∷ m) = do
  t ← derive_field_type value
  derive_loop (Dict.insert key t schema) m

unfoldable pub derive_record_schema : Data → Option RecordSchema
unfolding derive_loop
derive_record_schema m = derive_loop [] m

abbrev merger_of : Option SchemaMerger → SchemaMerger
merger_of none = new_schema_merger
merger_of (some m) = m

-- The first loop of `ExtendRecordSchema`.
merge_loop : Dict SchemaMerger → List Record → Option (Dict SchemaMerger)
unfolding extend derive_record_schema
merge_loop mergers [] = some mergers
merge_loop mergers (rec ∷ records) = do
  schema ← derive_record_schema (entries rec.contents)
  let merger = merger_of (Dict.lookup rec.id.type mergers)
  merge_loop (Dict.insert rec.id.type (extend merger schema) mergers) records

-- The second loop, which stops at the first error: the conflict of a merger, or what `Extend` returned.
pub data Failure : Type 0 where
  conflicting : Conflict → Failure
  refused : GoError → Failure

pub data SchemaAnswer : Type 0 where
  done : Bool → SchemaAnswer
  stopped : Failure → SchemaAnswer

module _ {W : Type 0} (db : Database W) where
  database_loop : Bool → W → Dict SchemaMerger → W × SchemaAnswer
  database_loop any w [] = (w, done any)
  database_loop any w ((record_type, merger) ∷ mergers) = elim (merger.error) [
    | some conflict ↦ (w, stopped (conflicting conflict))
    | none ↦
        let (w', answer) = db.extend w record_type merger.final_schema in
        elim answer [
          | not_extended e ↦ (w', stopped (refused e))
          | extended b ↦ database_loop (any || b) w' mergers
        ]
  ]

  unfoldable pub extend_record_schema : W → List Record → Option (W × SchemaAnswer)
  unfolding merge_loop database_loop
  extend_record_schema w records = do
    mergers ← merge_loop [] records
    some (database_loop false w mergers)
