-- ===== src/Recordutil/Delete.antt =====
-- pkg/server/recordutil/recordutil.go, lines 442-496: deleting records.
pub mod Authorised
use skygear_server.Common.{
  String, Bool, true, false, not, ◌&&◌, Option, none, some, List, [], ◌∷◌, ◌==◌, if◌then◌else◌,
  ◌>>=◌,
}
use skygear_server.Skydb.Acl.{write_level}
use skygear_server.Skydb.Record.{Record}
use skygear_server.Skydb.RecordMap as ById
use skygear_server.Skydb.Value.{RecordId}
use skygear_server.Skyerr.{
  Error, GoError, new_error, make_error, permission_denied, unexpected_error,
}
use skygear_server.Plugin.Hook.{Called, before_delete, after_delete}
use skygear_server.Recordutil.Fetch.{RecordFetcher, new_record_fetcher, fetch_record}
use skygear_server.Recordutil.Modify.{
  Database, Conn, ModifyRequest, Modified, ErrMap, Run, execute_record_func, trigger, is_empty,
}

-- After the first loop: the records that were fetched and the map of errors.
pub record Chosen : Type 0 where
  pub records : List Record
  pub err_map : ErrMap

abbrev pub choose : Record → Chosen → Chosen
choose rec c = record c { records = rec ∷ c.records }

module _ {W : Type 0} (db : Database W) (conn : Conn W) (req : ModifyRequest W) where
  -- `FetchRecord` returns a record whenever it returns no error.
  unfoldable pub fetch_for_delete : W → RecordId → Option Record × Option Error
  unfolding fetch_record
  fetch_for_delete w id =
      fetch_record (db.get w) (conn.get_record_access w) (conn.get_record_default_access w)
        (new_record_fetcher req.with_master_key) id req.auth_info write_level

  -- The first loop.
  pub choose_loop : W → List RecordId → ErrMap → Chosen
  unfolding fetch_for_delete ById.insert
  choose_loop w [] errs = record { records = []; err_map = errs }
  choose_loop w (id ∷ ids) errs = elim (id.type == db.user_record_type) [
    | true ↦
        choose_loop w ids
          (ById.insert id (new_error permission_denied "cannot delete user record") errs)
    | false ↦ elim ((fetch_for_delete w id).1) [
      | some e ↦ choose_loop w ids (ById.insert id e errs)
      | none ↦ elim ((fetch_for_delete w id).0) [
        | none ↦ choose_loop w ids errs
        | some rec ↦ choose rec (choose_loop w ids errs)
      ]
    ]
  ]

  abbrev made : Option GoError → Option Error
  made none = none
  made (some e) = some (make_error e)

  unfoldable pub delete_record : W → Record → Option (Called W)
  delete_record w rec =
      let (w', e) = db.remove w rec.id in
      some (record { state = w'; outcome = rec; error = made e })

  abbrev pub ids_of : List Record → List RecordId
  ids_of [] = []
  ids_of (rec ∷ records) = rec.id ∷ ids_of records

  unfoldable pub finish_delete : Run W → Option (Modified W)
  unfolding trigger
  finish_delete deleted =
      if req.atomic && not (is_empty deleted.err_map)
      then some (record {
        world = deleted.state;
        err_map = deleted.err_map;
        saved_records = [];
        deleted_record_ids = [];
        error = some (new_error unexpected_error "atomic operation failed");
      })
      else do
        hooked ←
            trigger req.hook_registry after_delete (λ id. none) deleted.state deleted.kept
              deleted.err_map
        some (record {
          world = hooked.state;
          err_map = hooked.err_map;
          saved_records = [];
          deleted_record_ids = ids_of hooked.kept;
          error = none;
        })

  -- `RecordDeleteHandler`, from a response with an empty list and the given map of errors.
  unfoldable pub record_delete_handler : W → ErrMap → Option (Modified W)
  unfolding choose_loop trigger execute_record_func delete_record finish_delete new_record_fetcher
  record_delete_handler w errs = do
    let chosen = choose_loop w req.record_ids_to_delete errs
    hooked ← trigger req.hook_registry before_delete (λ id. none) w chosen.records chosen.err_map
    deleted ← execute_record_func delete_record hooked.state hooked.kept hooked.err_map
    finish_delete deleted
