-- ===== src/Recordutil/Scrub.antt =====
-- pkg/server/recordutil/recordutil.go, lines 31-68: dropping the fields of a record that the user may not
-- read or write. `none` is a panic, of the access check or of `Record.Remove` at a reserved key.
pub mod Rounds
pub mod Written
pub mod Returning
pub mod Reading
use skygear_server.Common.{
  String, Bool, true, false, Option, none, some, List, [], ◌∷◌, ◌++◌, if◌then◌else◌,
}
use skygear_server.Common.Dict
use skygear_server.Skydb.AuthInfo.{AuthInfo}
use skygear_server.Skydb.FieldAcl
use skygear_server.Skydb.FieldAcl.{FieldAcl, Outcome, answer, panicked, out_of_fuel, read, write}
use skygear_server.Skydb.Record
use skygear_server.Skydb.Record.{Record, entries, user_keys}
use skygear_server.Skydb.Value.{Value}
use skygear_server.Skyerr.{Error, new_denied_argument}
use skygear_server.Recordutil.Delta.{derive_delta_record}

-- The loop of `scrubRecordFieldsForRead`; the check sees the record as it is in that round.
pub scrub_read_loop : (Record → String → Outcome) → List String → Record → Option Record
scrub_read_loop check [] rec = some rec
scrub_read_loop check (key ∷ keys) rec = elim (check rec key) [
  | answer true ↦ scrub_read_loop check keys rec
  | answer false ↦ elim (Record.remove key rec) [
    | none ↦ none
    | some rec' ↦ scrub_read_loop check keys rec'
  ]
  | panicked ↦ none
  | out_of_fuel ↦ none
]

unfoldable pub scrub_record_fields_for_read : Option AuthInfo → Record → FieldAcl → Option Record
unfolding scrub_read_loop
scrub_record_fields_for_read auth_info rec acl =
    scrub_read_loop (λ r key. FieldAcl.accessible acl rec.id.type key read auth_info (some r))
      (user_keys rec) rec

-- The record and the fields that were denied.
pub record Scrubbed : Type 0 where
  pub outcome : Record
  pub denied : List String

-- The loop of `scrubRecordFieldsForWrite`.
pub scrub_write_loop :
    (String → Outcome) → Bool → List String → Record → List String → Option Scrubbed
scrub_write_loop check atomic [] rec denied = some (record { outcome = rec; denied = denied })
scrub_write_loop check atomic (key ∷ keys) rec denied = elim (check key) [
  | answer true ↦ scrub_write_loop check atomic keys rec denied
  | answer false ↦ elim atomic [
    | true ↦ scrub_write_loop check atomic keys rec (denied ++ (key ∷ []))
    | false ↦ elim (Record.remove key rec) [
      | none ↦ none
      | some rec' ↦ scrub_write_loop check atomic keys rec' denied
    ]
  ]
  | panicked ↦ none
  | out_of_fuel ↦ none
]

-- `var deltaRecord skydb.Record`
abbrev pub zero_record : Record
zero_record = record {
  id = record { type = ""; key = "" };
  database_id = "";
  owner_id = "";
  created_at = 0;
  creator_id = "";
  updated_at = 0;
  updater_id = "";
  access = none;
  contents = none;
  transient = none;
}

-- The error that is returned, if any field was denied.
abbrev pub denied_error : List String → Option Error
denied_error [] = none
denied_error (key ∷ keys) = some (
    new_denied_argument "Unable to save to some record fields because of Field ACL denied update."
      (key ∷ keys))

abbrev pub with_error : Option Scrubbed → Option (Record × Option Error)
with_error none = none
with_error (some s) = some (s.outcome, denied_error s.denied)

module _ (deep_equal : Value → Value → Bool) where
  unfoldable pub scrub_record_fields_for_write :
      Option AuthInfo → Record → Record → FieldAcl → Bool → Option (Record × Option Error)
  unfolding scrub_write_loop
  scrub_record_fields_for_write auth_info rec orig_record acl atomic =
      let delta = derive_delta_record deep_equal zero_record (some orig_record) rec in
      with_error (
        scrub_write_loop
          (λ key. FieldAcl.accessible acl rec.id.type key write auth_info (some orig_record)) atomic
          (Dict.keys (entries delta.contents)) rec [])
