-- ===== src/Handler/Results.antt =====
-- pkg/server/handler/record.go, lines 363-390, and pkg/server/recordutil/recordutil.go, lines 720-760: the
-- answers to a request that saves records, one for each item of the request. `none` is a panic.
pub mod Answering
use skygear_server.Common.{
  String, Bool, true, false, not, Option, none, some, List, [], ◌∷◌, if◌then◌else◌, ◌>>=◌,
}
use skygear_server.Skydb.AuthInfo.{AuthInfo}
use skygear_server.Skydb.FieldAcl.{FieldAcl}
use skygear_server.Skydb.Record
use skygear_server.Skydb.Record.{Record}
use skygear_server.Skydb.RecordMap as ById
use skygear_server.Skydb.Value.{RecordId}
use skygear_server.Skyerr.{Error}
use skygear_server.Recordutil.Fetch.{id_string}
use skygear_server.Recordutil.Modify.{ErrMap}
use skygear_server.Recordutil.Scrub.{scrub_record_fields_for_read}

-- An element of `IncomingItems`.
pub data Item : Type 0 where
  deserialized : RecordId → Item
  malformed : Error → Item

-- A `serializedError`, or a record.
pub data Reply : Type 0 where
  failed : String → Error → Reply
  saved : Record → Reply

pub record RecordResultFilter : Type 0 where
  pub field_acl : FieldAcl
  pub auth_info : Option AuthInfo
  pub bypass_access_control : Bool

-- `JSONResult` of a record that is not nil, without the URL signers of its assets.
unfoldable pub json_result : RecordResultFilter → Record → Option Record
unfolding scrub_record_fields_for_read Record.copy
json_result f rec =
    let copied = Record.copy rec in
    if not f.bypass_access_control
    then scrub_record_fields_for_read f.auth_info copied f.field_acl
    else some copied

-- `saved_records` are those from `currRecordIdx` on.
unfoldable pub make_results :
    RecordResultFilter → ErrMap → List Record → List Item → Option (List Reply)
unfolding json_result ById.lookup
make_results f errs saved_records [] = some []
make_results f errs saved_records (malformed e ∷ items) = do
  rest ← make_results f errs saved_records items
  some (failed "" e ∷ rest)
make_results f errs saved_records (deserialized id ∷ items) = elim (ById.lookup id errs) [
  | some e ↦ do
    rest ← make_results f errs saved_records items
    some (failed (id_string id) e ∷ rest)
  | none ↦ elim saved_records [
    | [] ↦ none
    | rec ∷ others ↦ do
      result ← json_result f rec
      rest ← make_results f errs others items
      some (saved result ∷ rest)
  ]
]
