-- ===== src/Tests/Schemas.antt =====
-- Field types, schemas and authentication data, at concrete values.
use skygear_server.Common.{◌≡◌, ◌↔◌, refl, true, [], ◌∷◌}
use skygear_server.Common.Dict
use skygear_server.Common.Dict.{HasNodupKeys}
use skygear_server.Skydb.AuthData.{AuthData, using_keys}
use skygear_server.Skydb.AuthData.Using.{first_full, using_keys_lem}
use skygear_server.Skydb.Value.{null, text}
use skygear_server.Skydb.Schema.{
  FieldType, RecordSchema, type_string, type_number, type_integer, definition_compatible,
  schema_compatible,
}
use skygear_server.Skydb.Schema.Fitting.{Covers, schema_compatible_lem}

abbrev number : FieldType
number = record { type = type_number; reference_type = ""; underlying_type = "" }

abbrev integer : FieldType
integer = record { type = type_integer; reference_type = ""; underlying_type = "" }

abbrev name : FieldType
name = record { type = type_string; reference_type = ""; underlying_type = "" }

number_takes_integer : definition_compatible number integer ≡ true
unfolding definition_compatible
number_takes_integer = refl

abbrev wide : RecordSchema
wide = ("age", number) ∷ ("name", name) ∷ []

abbrev narrow : RecordSchema
narrow = ("age", integer) ∷ []

abbrev small : RecordSchema
small = ("age", number) ∷ []

wide_to_narrow : schema_compatible wide narrow ≡ true
unfolding schema_compatible definition_compatible Dict.lookup
wide_to_narrow = refl

narrow_once : HasNodupKeys narrow
unfolding Dict.keys
narrow_once = (refl, tt)

schema_compatible_example : schema_compatible wide narrow ≡ true ↔ Covers wide narrow
schema_compatible_example = schema_compatible_lem wide narrow narrow_once

abbrev by_email : AuthData
by_email = record {
  contents = ("username", null) ∷ ("email", text "a@b.c") ∷ [];
  keys = ("username" ∷ []) ∷ ("email" ∷ []) ∷ [];
}

by_email-HasNodupKeys : HasNodupKeys by_email.contents
unfolding Dict.keys
by_email-HasNodupKeys = (refl, (refl, tt))

using_keys_example : using_keys by_email ≡ first_full by_email.contents by_email.keys
using_keys_example = using_keys_lem by_email by_email-HasNodupKeys
