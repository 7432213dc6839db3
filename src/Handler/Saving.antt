-- ===== src/Handler/Saving.antt =====
-- pkg/server/handler/record.go, lines 121-143 and 271-361: the action `record:save`. What `InitRecord` makes
-- of an element of `RawMaps` is a parameter. `none` is a panic.
pub mod Answering
pub mod Items
use skygear_server.Common.{
  ℕ, String, Bool, true, false, not, ◌&&◌, Option, none, some, List, [], ◌∷◌, ◌++◌, if◌then◌else◌,
  ◌>>=◌,
}
use skygear_server.Skydb.AuthInfo.{AuthInfo}
use skygear_server.Skydb.FieldAcl.{FieldAcl}
use skygear_server.Skydb.Record.{Record}
use skygear_server.Skydb.Value.{Value, RecordId}
use skygear_server.Skyerr.{
  Error, GoError, sky, plain, new_error, new_invalid_argument, make_error, not_supported,
  invalid_argument, incompatible_schema,
}
use skygear_server.Plugin.Hook.{Registry}
use skygear_server.Recordutil.Modify.{
  Database, Conn, ModifyRequest, Modified, ErrMap, FieldAccess, allowed, unavailable,
}
use skygear_server.Recordutil.Save.{record_save_handler}
use skygear_server.Recordutil.SchemaMerger.{
  SchemaAnswer, done, stopped, Failure, conflicting, refused, extend_record_schema,
}
use skygear_server.Handler.Atomic.{Transactional, atomic_modify_func}
use skygear_server.Handler.Results.{
  Item, deserialized, malformed, Reply, RecordResultFilter, make_results,
}

-- What `InitRecord` did.
pub data Init : Type 0 where
  initialized : Record → Init
  invalid : Error → Init

pub record RecordSavePayload : Type 0 where
  pub atomic : Bool
  pub incoming_items : List Item
  pub records : List Record
  pub errs : List Error
  pub clean : Bool

-- What `Validate` leaves.
pub data Decoded : Type 0 where
  payload : RecordSavePayload → Decoded
  rejected : Error → Decoded

module _ {M : Type 0} (init_record : M → Init) where
  -- The loop of `Validate`.
  validate_loop : List M → RecordSavePayload → RecordSavePayload
  validate_loop [] p = p
  validate_loop (m ∷ raw_maps) p = elim (init_record m) [
    | initialized rec ↦ validate_loop raw_maps (record p {
      incoming_items = p.incoming_items ++ (deserialized rec.id ∷ []);
      records = p.records ++ (rec ∷ []);
    })
    | invalid e ↦ validate_loop raw_maps (record p {
      incoming_items = p.incoming_items ++ (malformed e ∷ []);
      errs = p.errs ++ (e ∷ []);
      clean = false;
    })
  ]

  -- `Validate`
  unfoldable pub validate : Bool → List M → Decoded
  unfolding validate_loop
  validate atomic [] = rejected (new_invalid_argument "expected list of record" ("records" ∷ []))
  validate atomic (m ∷ raw_maps) = payload (
      validate_loop (m ∷ raw_maps)
        (record { atomic = atomic; incoming_items = []; records = []; errs = []; clean = true }))

-- What the router and the handler's fields give: `read_only` is `Database.IsReadOnly()`, `now` is
-- `timeNow()`, and `send_event` is `none` if there is no sender.
pub record Context (W : Type 0) : Type 0 where
  pub read_only : Bool
  pub transactional : Option (Transactional W)
  pub hook_registry : Option (Registry W)
  pub with_master_key : Bool
  pub auth_info : Option AuthInfo
  pub now : ℕ
  pub send_event : Option (W → W)

-- The payload's answer: an error, or one reply for each item.
pub data Response : Type 0 where
  refusal : Error → Response
  results : List Reply → Response

-- `response.Err`, if extending the schema failed.
abbrev schema_error : Failure → Error
schema_error (refused (sky e)) = e
schema_error _ = new_error incompatible_schema "failed to migrate record schema"

abbrev pub no_field_acl : FieldAcl
no_field_acl = record { record_types = [] }

module _ {W : Type 0} (db : Database W) (conn : Conn W) (deep_equal : Value → Value → Bool)
    (ctx : Context W) where
  -- `NewRecordResultFilter`
  unfoldable pub new_record_result_filter :
      W → (RecordResultFilter → Option (W × Response)) → Option (W × Response)
  new_record_result_filter w next =
      if not ctx.with_master_key
      then elim (conn.get_record_field_access w) [
        | unavailable e ↦ some (w, refusal (make_error e))
        | allowed acl ↦ next (record {
          field_acl = acl;
          auth_info = ctx.auth_info;
          bypass_access_control = ctx.with_master_key;
        })
      ]
      else next (record {
        field_acl = no_field_acl;
        auth_info = ctx.auth_info;
        bypass_access_control = ctx.with_master_key;
      })

  abbrev pub modify_request : RecordSavePayload → ModifyRequest W
  modify_request p = record {
    hook_registry = ctx.hook_registry;
    atomic = p.atomic;
    with_master_key = ctx.with_master_key;
    auth_info = ctx.auth_info;
    modify_at = ctx.now;
    records_to_save = p.records;
    record_ids_to_delete = [];
  }

  -- `saveFunc(&req, &resp)`
  unfoldable pub save_func : RecordSavePayload → W → Option (Modified W)
  unfolding record_save_handler atomic_modify_func
  save_func p w =
      let save = λ (w' : W) (errs : ErrMap).
        record_save_handler db conn deep_equal (modify_request p) w' errs in
      if p.atomic then atomic_modify_func ctx.transactional save w [] else save w []

  -- `sendSchemaChangedEvent`, whose error is only logged.
  abbrev pub sent : Bool → W → W
  sent updated w = elim (ctx.send_event) [ none ↦ w | some send ↦ if updated then send w else w ]

  -- The handler after the schema was extended.
  unfoldable pub saved_results :
      RecordSavePayload → RecordResultFilter → Bool → W → Option (W × Response)
  unfolding save_func make_results
  saved_results p filter updated w = do
    m ← save_func p w
    elim (m.error) [
      | some e ↦ some (m.world, refusal e)
      | none ↦ do
        replies ← make_results filter m.err_map m.saved_records p.incoming_items
        some (sent updated m.world, results replies)
    ]

  unfoldable pub with_filter : RecordSavePayload → W → RecordResultFilter → Option (W × Response)
  unfolding extend_record_schema saved_results
  with_filter p w filter =
      if p.atomic && not p.clean
      then some (w, refusal (new_error invalid_argument "fails to de-serialize records"))
      else extend_record_schema db w p.records >>= λ r. elim (r.1) [
        | stopped failure ↦ some (r.0, refusal (schema_error failure))
        | done updated ↦ saved_results p filter updated r.0
      ]

  -- `Handle`, on the payload that was decoded.
  unfoldable pub handle : RecordSavePayload → W → Option (W × Response)
  unfolding new_record_result_filter with_filter
  handle p w =
      if ctx.read_only
      then some
          (w, refusal (new_error not_supported "modifying the selected database is not supported"))
      else new_record_result_filter w (λ filter. with_filter p w filter)
