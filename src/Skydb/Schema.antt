-- ===== src/Skydb/Schema.antt =====
-- pkg/server/skydb/record.go, lines 353-599: the types of fields, and schemas of records. The field
-- `Expression` of computed keys is left out. `DataType` is an unsigned number, as in the source.
pub mod Compatible
pub mod Fitting
use Prim.Native.String.{◌++◌}
use skygear_server.Common.{
  ℕ, String, Bool, true, false, not, ◌&&◌, ◌||◌, Option, none, some, List, [], ◌∷◌, nat_eq, ltb,
  length, ◌==◌, if◌then◌else◌,
}
use skygear_server.Common.Dict
use skygear_server.Common.Dict.{Dict}
use skygear_server.Skydb.Value.{
  Value, RecordId, null, boolean, int64, float64, text, time, asset, reference, location, sequence,
  unknown, geometry,
}

abbrev pub DataType : Type 0
DataType = ℕ

abbrev pub type_string : DataType
type_string = 1

abbrev pub type_number : DataType
type_number = 2

abbrev pub type_boolean : DataType
type_boolean = 3

abbrev pub type_json : DataType
type_json = 4

abbrev pub type_reference : DataType
type_reference = 5

abbrev pub type_location : DataType
type_location = 6

abbrev pub type_date_time : DataType
type_date_time = 7

abbrev pub type_asset : DataType
type_asset = 8

abbrev pub type_acl : DataType
type_acl = 9

abbrev pub type_integer : DataType
type_integer = 10

abbrev pub type_sequence : DataType
type_sequence = 11

abbrev pub type_geometry : DataType
type_geometry = 12

abbrev pub type_unknown : DataType
type_unknown = 13

abbrev pub is_number_compatible_type : DataType → Bool
is_number_compatible_type t =
    nat_eq t type_number || nat_eq t type_integer || nat_eq t type_sequence

abbrev pub is_geometry_compatible_type : DataType → Bool
is_geometry_compatible_type t = nat_eq t type_location || nat_eq t type_geometry

pub record FieldType : Type 0 where
  pub type : DataType
  pub reference_type : String
  pub underlying_type : String

-- `FieldType.DefinitionCompatibleTo`
unfoldable pub definition_compatible : FieldType → FieldType → Bool
definition_compatible f other =
    if nat_eq f.type type_reference
    then nat_eq f.type other.type && f.reference_type == other.reference_type
    else if is_number_compatible_type f.type && is_number_compatible_type other.type
    then true
    else if nat_eq f.type type_geometry && is_geometry_compatible_type other.type
    then nat_eq other.type type_geometry
    else nat_eq f.type other.type

abbrev pub RecordSchema : Type 0
RecordSchema = Dict FieldType

abbrev pub field_compatible : FieldType → Option FieldType → Bool
field_compatible t none = false
field_compatible t (some u) = definition_compatible t u

-- The loop of `RecordSchema.DefinitionCompatibleTo` over the other schema.
pub compatible_loop : RecordSchema → RecordSchema → Bool
compatible_loop schema [] = true
compatible_loop schema ((k, t) ∷ other) =
    let rest = compatible_loop schema other in
    if field_compatible t (Dict.lookup k schema) then rest else false

unfoldable pub schema_compatible : RecordSchema → RecordSchema → Bool
unfolding compatible_loop
schema_compatible schema other =
    if ltb (length schema) (length other) then false else compatible_loop schema other

unfoldable pub has_field : String → RecordSchema → Bool
has_field name schema = elim (Dict.lookup name schema) [ none ↦ false | some t ↦ true ]

unfoldable pub has_fields : List String → RecordSchema → Bool
unfolding has_field
has_fields [] schema = true
has_fields (name ∷ names) schema =
    let rest = has_fields names schema in if not (has_field name schema) then false else rest

unfoldable pub to_simple_name : FieldType → String
to_simple_name f =
    if nat_eq f.type type_string
    then "string"
    else if nat_eq f.type type_number
    then "number"
    else if nat_eq f.type type_boolean
    then "boolean"
    else if nat_eq f.type type_json
    then "json"
    else if nat_eq f.type type_reference
    then "ref(" ++ (f.reference_type ++ ")")
    else if nat_eq f.type type_location
    then "location"
    else if nat_eq f.type type_date_time
    then "datetime"
    else if nat_eq f.type type_asset
    then "asset"
    else if nat_eq f.type type_acl
    then "acl"
    else if nat_eq f.type type_integer
    then "integer"
    else if nat_eq f.type type_sequence
    then "sequence"
    else if nat_eq f.type type_geometry
    then "geometry"
    else if nat_eq f.type type_unknown
    then "unknown"
    else ""

abbrev of_type : DataType → Option FieldType
of_type t = some (record { type = t; reference_type = ""; underlying_type = "" })

-- `none` is the error; a map or a slice of another type is JSON.
unfoldable pub derive_field_type : Value → Option FieldType
derive_field_type null = none
derive_field_type (int64 n) = of_type type_integer
derive_field_type (float64 n) = of_type type_number
derive_field_type (text s) = of_type type_string
derive_field_type (time t) = of_type type_date_time
derive_field_type (boolean b) = of_type type_boolean
derive_field_type (asset a) = of_type type_asset
derive_field_type (reference id) =
    some (record { type = type_reference; reference_type = id.type; underlying_type = "" })
derive_field_type (location x y) = of_type type_location
derive_field_type sequence = of_type type_sequence
derive_field_type (geometry g) = of_type type_geometry
derive_field_type (unknown s) =
    some (record { type = type_unknown; reference_type = ""; underlying_type = s })
derive_field_type _ = of_type type_json
