-- ===== src/Recordutil/Modify.antt =====
-- pkg/server/recordutil/recordutil.go, lines 70-92 and 354-364: requests to save or delete records, and
-- the loop by which both handlers go through the records. `none` is a panic.
pub mod Rounds
pub mod Identity
pub mod Distinct
pub mod Aligned
use skygear_server.Common.{ℕ, String, Bool, true, false, Option, none, some, List, [], ◌∷◌}
use skygear_server.Skydb.Acl.{RecordAcl}
use skygear_server.Skydb.AuthInfo.{AuthInfo}
use skygear_server.Skydb.FieldAcl.{FieldAcl}
use skygear_server.Skydb.Record.{Record}
use skygear_server.Skydb.RecordMap as ById
use skygear_server.Skydb.RecordMap.{RecordMap}
use skygear_server.Skydb.Schema.{RecordSchema}
use skygear_server.Skydb.Value.{RecordId, Asset}
use skygear_server.Skyerr.{Error, GoError}
use skygear_server.Plugin.Hook.{Kind, Called, Registry, execute_hooks}
use skygear_server.Recordutil.Fetch.{Lookup, AccessAnswer}

-- What `Database.Extend` returned.
pub data Extended : Type 0 where
  extended : Bool → Extended
  not_extended : GoError → Extended

-- The methods of `skydb.Database` that the handlers call, on a state `W` of the world. `save` answers
-- with the record that it was given a pointer to.
pub record Database (W : Type 0) : Type 0 where
  pub id : String
  pub user_record_type : String
  pub get : W → RecordId → Lookup
  pub save : W → Record → W × Record × Option GoError
  pub remove : W → RecordId → W × Option GoError
  pub get_schema : W → String → RecordSchema
  pub extend : W → String → RecordSchema → W × Extended

-- What `GetRecordFieldAccess` returned.
pub data FieldAccess : Type 0 where
  allowed : FieldAcl → FieldAccess
  unavailable : GoError → FieldAccess

-- The methods of `skydb.Conn` that the handlers call.
pub record Conn (W : Type 0) : Type 0 where
  pub get_record_access : W → String → AccessAnswer
  pub get_record_default_access : W → String → AccessAnswer
  pub get_record_field_access : W → FieldAccess
  pub get_assets : W → List String → Option (List Asset)

pub record ModifyRequest (W : Type 0) : Type 0 where
  pub hook_registry : Option (Registry W)
  pub atomic : Bool
  pub with_master_key : Bool
  pub auth_info : Option AuthInfo
  pub modify_at : ℕ
  pub records_to_save : List Record
  pub record_ids_to_delete : List RecordId

abbrev pub ErrMap : Type 0
ErrMap = RecordMap Error

-- `len(resp.ErrMap) > 0` is its negation.
abbrev pub is_empty : ErrMap → Bool
is_empty [] = true
is_empty (e ∷ errs) = false

-- The world, the response and the error after a handler.
pub record Modified (W : Type 0) : Type 0 where
  pub world : W
  pub err_map : ErrMap
  pub saved_records : List Record
  pub deleted_record_ids : List RecordId
  pub error : Option Error

-- After a loop: the state, the records that it kept and the map of errors.
pub record Run (S : Type 0) : Type 0 where
  pub state : S
  pub kept : List Record
  pub err_map : ErrMap

module _ {S : Type 0} where
  abbrev pub keep : Record → Option (Run S) → Option (Run S)
  keep rec none = none
  keep rec (some run) = some (record run { kept = rec ∷ run.kept })

  -- The error is stored under the identifier that the record has after the call.
  unfoldable pub execute_record_func :
      (S → Record → Option (Called S)) → S → List Record → ErrMap → Option (Run S)
  unfolding ById.insert
  execute_record_func f s [] errs = some (record { state = s; kept = []; err_map = errs })
  execute_record_func f s (rec ∷ records) errs = elim (f s rec) [
    | none ↦ none
    | some called ↦ elim (called.error) [
      | none ↦ keep called.outcome (execute_record_func f called.state records errs)
      | some e ↦ execute_record_func f called.state records (ById.insert called.outcome.id e errs)
    ]
  ]

-- `if req.HookRegistry != nil { records = executeRecordFunc(...) }`, for a kind of hook.
unfoldable pub trigger :
    {W : Type 0}
    → Option (Registry W)
    → Kind
    → (RecordId → Option Record)
    → W
    → List Record
    → ErrMap
    → Option (Run W)
unfolding execute_record_func execute_hooks
trigger none kind original w records errs =
    some (record { state = w; kept = records; err_map = errs })
trigger (some registry) kind original w records errs =
    execute_record_func (λ w' rec. some (execute_hooks registry kind w' rec (original rec.id))) w
      records errs
