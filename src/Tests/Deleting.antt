-- ===== src/Tests/Deleting.antt =====
-- Deleting records and executing hooks, at concrete requests.
use skygear_server.Common.{
  ◌≡◌, refl, false, ◌&&◌, ◌==◌, none, some, List, [], ◌∷◌, All, if◌then◌else◌, arith,
}
use skygear_server.Common.Dict
use skygear_server.Common.Text.{has_code}
use skygear_server.Skydb.Access as Acl
use skygear_server.Skydb.Record
use skygear_server.Skydb.Record.{Record}
use skygear_server.Skydb.RecordMap as ById
use skygear_server.Skydb.Value.{RecordId}
use skygear_server.Skyerr.{new_error, permission_denied}
use skygear_server.Plugin.Hook.{Func, Registry, before_save, new_registry, register, execute_hooks}
use skygear_server.Plugin.Hook.Registering.{and_then, execute_hooks-register}
use skygear_server.Recordutil.Fetch.{found, new_record_fetcher, fetch_record}
use skygear_server.Recordutil.Modify.{
  Database, Conn, ModifyRequest, allowed, extended, Modified, execute_record_func, trigger,
}
use skygear_server.Recordutil.Delete.{record_delete_handler, delete_record, finish_delete}
use skygear_server.Recordutil.Delete.Authorised.{IsDeletable, record_delete_handler-IsDeletable}
use skygear_server.Handler.Deleting.{record_ids, validate}
use skygear_server.Handler.Deleting.Decoding.{HasPlainType, strings, validate-strings}
use skygear_server.Tests.FieldAccess.{alice, note, note_acl}
use skygear_server.Tests.Store.{World, empty_world}

-- A world that is the list of the identifiers that were removed.
abbrev Removed : Type 0
Removed = List RecordId

abbrev archive : Database Removed
archive = record {
  id = "_public";
  user_record_type = "user";
  get = λ w id. found (record note { id = id });
  save = λ w r. (w, r, none);
  remove = λ w id. (id ∷ w, none);
  get_schema = λ w t. [];
  extend = λ w t schema. (w, extended false);
}

abbrev archive_conn : Conn Removed
archive_conn = record {
  get_record_access = λ w t. record { access = none; failed = false };
  get_record_default_access = λ w t. record { access = none; failed = false };
  get_record_field_access = λ w. allowed note_acl;
  get_assets = λ w names. some [];
}

abbrev user_id : RecordId
user_id = record { type = "user"; key = "alice" }

abbrev delete_request : ModifyRequest Removed
delete_request = record {
  hook_registry = none;
  atomic = false;
  with_master_key = false;
  auth_info = some alice;
  modify_at = 7;
  records_to_save = [];
  record_ids_to_delete = note.id ∷ user_id ∷ [];
}

abbrev deleted_response : Modified Removed
deleted_response = record {
  world = note.id ∷ [];
  err_map = (user_id, new_error permission_denied "cannot delete user record") ∷ [];
  saved_records = [];
  deleted_record_ids = note.id ∷ [];
  error = none;
}

note_deleted :
    record_delete_handler archive archive_conn delete_request [] [] ≡ some deleted_response
unfolding record_delete_handler delete_record finish_delete execute_record_func trigger fetch_record
    new_record_fetcher Record.accessible Acl.accessible ById.insert
note_deleted = refl

-- No record of a user was removed.
abbrev NoUser : Removed → Type 0
NoUser w = All (λ (id : RecordId). (id.type == "user") ≡ false) w

record_delete_handler-IsDeletable_example :
    NoUser (note.id ∷ []) × All (IsDeletable archive archive_conn delete_request []) (note.id ∷ [])
record_delete_handler-IsDeletable_example =
    record_delete_handler-IsDeletable archive archive_conn delete_request NoUser [] []
      deleted_response (λ id r e. ground arith) tt tt (λ v id d h. (d.0, h)) tt note_deleted

abbrev take_over : Func World
take_over w rec old = record { state = w; outcome = record rec { owner_id = "bob" }; error = none }

abbrev hooked : Registry World
hooked = record {
  before_save_hooks = ("note", take_over ∷ []) ∷ [];
  after_save_hooks = [];
  before_delete_hooks = [];
  after_delete_hooks = [];
}

take_over_registered : register before_save "note" take_over new_registry ≡ some hooked
unfolding register new_registry Dict.lookup Dict.insert
take_over_registered = refl

execute_hooks-register_example : execute_hooks hooked before_save empty_world note none ≡ (
    if before_save == before_save && "note" == note.id.type
    then and_then
        (execute_hooks new_registry before_save empty_world note none)
        (λ w' changed. take_over w' changed none)
    else execute_hooks new_registry before_save empty_world note none)
execute_hooks-register_example =
    execute_hooks-register before_save before_save "note" take_over new_registry hooked empty_world
      note none take_over_registered

plain_note : HasPlainType note.id
unfolding has_code
plain_note = refl

validate-strings_example : validate (strings (note.id ∷ [])) ≡ record_ids (note.id ∷ [])
validate-strings_example = validate-strings note.id [] (plain_note, tt)
