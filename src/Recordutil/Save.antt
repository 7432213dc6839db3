-- ===== src/Recordutil/Save.antt =====
-- pkg/server/recordutil/recordutil.go, lines 200-321: saving records. `none` is a panic. The map of
-- the original records is `originals`; the records of a request stand at different addresses.
pub mod Identity
pub mod Loops
pub mod Authorised
pub mod Aligned
pub mod Stamped
use skygear_server.Common.{
  ℕ, String, Bool, true, false, not, ◌&&◌, Option, none, some, List, [], ◌∷◌, map, if◌then◌else◌,
  ◌>>=◌,
}
use skygear_server.Common.Dict
use skygear_server.Skydb.AuthInfo.{AuthInfo}
use skygear_server.Skydb.FieldAcl.{FieldAcl}
use skygear_server.Skydb.Record
use skygear_server.Skydb.Record.{Record}
use skygear_server.Skydb.RecordMap as ById
use skygear_server.Skydb.RecordMap.{RecordMap}
use skygear_server.Skydb.Value.{Value, Data, RecordId, sequence, unknown}
use skygear_server.Skyerr.{Error, GoError, new_error, make_error, unexpected_error}
use skygear_server.Plugin.Hook.{Called, before_save, after_save}
use skygear_server.Recordutil.Delta.{derive_delta_record}
use skygear_server.Recordutil.Scrub.{zero_record, scrub_record_fields_for_write}
use skygear_server.Recordutil.Fetch.{
  RecordFetcher, Fetched, new_record_fetcher, fetch_or_create_record, get_default_access,
}
use skygear_server.Recordutil.Modify.{
  Database, Conn, ModifyRequest, Modified, ErrMap, Run, FieldAccess, allowed, unavailable,
  execute_record_func, trigger, is_empty,
}
use skygear_server.Recordutil.Assets.{make_assets_complete}

-- The value is of the type `Sequence` or `Unknown`.
abbrev pub is_type_hint : Value → Bool
is_type_hint sequence = true
is_type_hint (unknown s) = true
is_type_hint _ = false

-- The loop of `removeRecordFieldTypeHints`.
unfoldable pub without_hints : Data → Data
without_hints [] = []
without_hints ((k, v) ∷ m) =
    let rest = without_hints m in if is_type_hint v then rest else (k, v) ∷ rest

abbrev hints_removed : Option Data → Option Data
unfolding without_hints
hints_removed none = none
hints_removed (some m) = some (without_hints m)

unfoldable pub remove_record_field_type_hints : Record → Record
unfolding without_hints
remove_record_field_type_hints rec = record rec { contents = hints_removed rec.contents }

abbrev pub Originals : Type 0
Originals = RecordMap Record

-- What the first loop carries along.
pub record Fetching : Type 0 where
  pub fetcher : RecordFetcher
  pub originals : Originals

module _ {W : Type 0} (db : Database W) (conn : Conn W) (deep_equal : Value → Value → Bool)
    (req : ModifyRequest W) where
  -- The record that the request is applied to: a new one gets its metadata.
  unfoldable pub initialized : RecordId → Fetched → Option Record
  initialized id f =
      if f.created
      then elim (req.auth_info) [
        | none ↦ none
        | some user ↦ some (record f.outcome {
          id = id;
          database_id = db.id;
          owner_id = user.id;
          created_at = req.modify_at;
          creator_id = user.id;
          updated_at = req.modify_at;
          updater_id = user.id;
        })
      ]
      else some f.outcome

  unfoldable pub scrubbed : FieldAcl → Record → Record → Option (Record × Option Error)
  scrubbed acl rec db_record =
      if not req.with_master_key
      then scrub_record_fields_for_write deep_equal req.auth_info rec db_record acl req.atomic
      else some (rec, none)

  -- The rest of the first function, after the scrubbing.
  unfoldable pub merged :
      Fetching → Bool → Record → Record × Option Error → Option (Called Fetching)
  merged s created db_record (rec, some e) =
      some (record { state = s; outcome = rec; error = some e })
  merged s created db_record (rec, none) = elim (req.auth_info) [
    | none ↦ none
    | some user ↦ some (record {
      state = record s {
        originals =
            if created
            then s.originals
            else ById.insert db_record.id (Record.copy db_record) s.originals;
      };
      outcome = record (Record.apply db_record rec) {
        updated_at = req.modify_at;
        updater_id = user.id;
      };
      error = none;
    })
  ]

  with_record : FieldAcl → Fetching → Record → Fetched → Option (Called Fetching)
  unfolding initialized scrubbed merged
  with_record acl s rec f = elim (f.error) [
    | some e ↦ some (record { state = s; outcome = rec; error = some e })
    | none ↦ do
      db_record ← initialized rec.id f
      result ← scrubbed acl rec db_record
      merged s f.created db_record result
  ]

  -- The function of the first loop, in the world `w`.
  unfoldable pub fetch_for_save : W → FieldAcl → Fetching → Record → Option (Called Fetching)
  unfolding with_record fetch_or_create_record
  fetch_for_save w acl s rec =
      let (f, fetcher) =
        fetch_or_create_record (db.get w) (conn.get_record_access w)
          (conn.get_record_default_access w) s.fetcher rec.id req.auth_info in
      with_record acl (record s { fetcher = fetcher }) rec f

  -- `if record.ACL == nil { record.ACL = defaultACL }`
  unfoldable pub apply_default_access : W → RecordFetcher → Record → Option (Called RecordFetcher)
  unfolding get_default_access
  apply_default_access w fetcher rec = elim (rec.access) [
    | some acl ↦ some (record { state = fetcher; outcome = rec; error = none })
    | none ↦
        let (acl, fetcher') =
          get_default_access (db.get w) (conn.get_record_access w)
            (conn.get_record_default_access w) fetcher rec.id.type in
        some (record { state = fetcher'; outcome = record rec { access = acl }; error = none })
  ]

  -- `if dbErr != nil { err = skyerr.MakeError(dbErr) }`
  abbrev made : Option GoError → Option Error
  made none = none
  made (some e) = some (make_error e)

  unfoldable pub save_record : Originals → W → Record → Option (Called W)
  save_record originals w rec =
      let delta = derive_delta_record deep_equal zero_record (ById.lookup rec.id originals) rec in
      let (w', saved, e) = db.save w delta in
      some (record { state = w'; outcome = saved; error = made e })

  -- What the handler has done when it looks at `req.Atomic`.
  pub record Phases : Type 0 where
    pub originals : Originals
    pub saved : Run W

  unfoldable pub save_phases : FieldAcl → W → ErrMap → Option Phases
  unfolding execute_record_func fetch_for_save apply_default_access trigger save_record
      remove_record_field_type_hints new_record_fetcher
  save_phases acl w errs = do
    fetched ←
        execute_record_func (fetch_for_save w acl)
          (record { fetcher = new_record_fetcher req.with_master_key; originals = [] })
          req.records_to_save errs
    defaulted ←
        execute_record_func (apply_default_access w) fetched.state.fetcher fetched.kept
          fetched.err_map
    let originals = fetched.state.originals
    hooked ←
        trigger req.hook_registry before_save (λ id. ById.lookup id originals) w defaulted.kept
          defaulted.err_map
    saved ←
        execute_record_func (save_record originals) hooked.state
          (map remove_record_field_type_hints hooked.kept) hooked.err_map
    some (record { originals = originals; saved = saved })

  unfoldable pub finish_save : Phases → Option (Modified W)
  unfolding trigger make_assets_complete
  finish_save p =
      if req.atomic && not (is_empty p.saved.err_map)
      then some (record {
        world = p.saved.state;
        err_map = p.saved.err_map;
        saved_records = [];
        deleted_record_ids = [];
        error = some (new_error unexpected_error "atomic operation failed");
      })
      else do
        completed ← make_assets_complete db conn p.saved.state p.saved.kept
        hooked ←
            trigger req.hook_registry after_save (λ id. ById.lookup id p.originals) p.saved.state
              completed p.saved.err_map
        some (record {
          world = hooked.state;
          err_map = hooked.err_map;
          saved_records = hooked.kept;
          deleted_record_ids = [];
          error = none;
        })

  -- The handler after the call of `GetRecordFieldAccess`.
  pub with_field_access : W → ErrMap → FieldAccess → Option (Modified W)
  unfolding save_phases finish_save
  with_field_access w errs (unavailable e) = some (record {
    world = w;
    err_map = errs;
    saved_records = [];
    deleted_record_ids = [];
    error = some (make_error e);
  })
  with_field_access w errs (allowed acl) = save_phases acl w errs >>= finish_save

  -- `RecordSaveHandler`, from a response with an empty list of records and the given map of errors.
  unfoldable pub record_save_handler : W → ErrMap → Option (Modified W)
  unfolding with_field_access
  record_save_handler w errs = with_field_access w errs (conn.get_record_field_access w)
