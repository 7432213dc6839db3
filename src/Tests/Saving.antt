-- ===== src/Tests/Saving.antt =====
-- Saving records, at concrete requests.
use skygear_server.Common.{
  String, ◌≡◌, refl, true, false, Option, none, some, List, [], ◌∷◌, All, arith,
}
use skygear_server.Skydb.FieldAcl
use skygear_server.Skydb.FieldAcl.{FieldAcl}
use skygear_server.Skydb.UserRole.{match, record_dependent}
use skygear_server.Skydb.Access as Acl
use skygear_server.Common.Dict
use skygear_server.Skydb.Record
use skygear_server.Skydb.Record.{Record}
use skygear_server.Skydb.RecordMap as ById
use skygear_server.Recordutil.Delta.{derive_delta_record}
use skygear_server.Recordutil.Scrub.{scrub_record_fields_for_write}
use skygear_server.Recordutil.Fetch.{new_record_fetcher, fetch_or_create_record, get_default_access}
use skygear_server.Recordutil.Modify.{Modified, execute_record_func, trigger}
use skygear_server.Recordutil.Assets.{make_assets_complete}
use skygear_server.Recordutil.Save.{
  record_save_handler, fetch_for_save, save_phases, finish_save, remove_record_field_type_hints,
  apply_default_access, save_record, without_hints,
}
use skygear_server.Recordutil.Save.Authorised.{IsGranted, record_save_handler-IsGranted}
use skygear_server.Recordutil.Save.Stamped.{IsStamped, fetch_for_save_lem}
use skygear_server.Recordutil.Save.{Fetching}
use skygear_server.Recordutil.Assets.Identity.{ids}
use skygear_server.Plugin.Hook.{Called}
use skygear_server.Skydb.AuthInfo.{AuthInfo}
use skygear_server.Handler.Atomic.{atomic_modify_func, with_transaction}
use skygear_server.Handler.Atomic.Committed.{atomic_modify_func_lem, atomic_save_all}
use skygear_server.Handler.Results.{deserialized, Reply, RecordResultFilter, json_result}
use skygear_server.Handler.Results.Answering.{IsTotal}
use skygear_server.Handler.Saving.{
  Init, initialized, RecordSavePayload, payload, validate, save_func, saved_results, results,
}
use skygear_server.Handler.Saving.Answering.{saved_results-AreReplies}
use skygear_server.Handler.Saving.Items.{AreReplies}
use skygear_server.Recordutil.Modify.{ErrMap, is_empty}
use skygear_server.Recordutil.SchemaMerger.{new_schema_merger}
use skygear_server.Recordutil.SchemaMerger.Merging.{Embeds, extend_all, extend_all_lem}
use skygear_server.Skydb.Schema.{RecordSchema, FieldType}
use skygear_server.Skyerr.{Error, new_error, unexpected_error, atomic_operation_failure}
use skygear_server.Tests.FieldAccess.{alice, note, note_acl}
use skygear_server.Tests.Store.{
  World, empty_world, store, conn, transactions, changed, request, context, never_equal,
  store-GetsById, store-SaveKeepsId,
}

abbrev saved_note : Record
saved_note = record changed { updated_at = 7 }

abbrev saved_response : Modified World
saved_response = record {
  world = record { saved = saved_note ∷ []; committed = false };
  err_map = [];
  saved_records = saved_note ∷ [];
  deleted_record_ids = [];
  error = none;
}

note_saved : record_save_handler store conn never_equal request empty_world [] ≡ some saved_response
unfolding record_save_handler save_phases finish_save fetch_for_save apply_default_access
    save_record remove_record_field_type_hints without_hints execute_record_func trigger
    make_assets_complete fetch_or_create_record get_default_access new_record_fetcher
    scrub_record_fields_for_write derive_delta_record FieldAcl.accessible FieldAcl.next
    FieldAcl.new_field_acl_iterator FieldAcl.enough_fuel FieldAcl.entry_accessible match
    record_dependent Record.remove Record.key_of Record.accessible Record.apply Record.copy
    Record.copy_data Acl.accessible Dict.keys Dict.insert Dict.lookup Dict.delete Dict.update_all
    ById.lookup ById.insert
note_saved = refl

record_save_handler-IsGranted_example :
    All (λ r. IsGranted store conn never_equal request empty_world r.id) (saved_note ∷ [])
record_save_handler-IsGranted_example =
    record_save_handler-IsGranted store conn never_equal request empty_world [] saved_response
      (store-GetsById empty_world) store-SaveKeepsId tt note_saved

abbrev committed_response : Modified World
committed_response = record saved_response {
  world = record { saved = saved_note ∷ []; committed = true };
}

note_committed :
    atomic_modify_func
      (some transactions)
      (λ w errs. record_save_handler store conn never_equal request w errs)
      empty_world
      []
    ≡ some committed_response
unfolding atomic_modify_func with_transaction
note_committed = ground (arith, note_saved)

atomic_save_all_example :
    (m0 : Modified World) × (record_save_handler store conn never_equal request empty_world []
      ≡ some m0)
    × (m0.error ≡ none)
    × (committed_response.world ≡ (transactions.commit m0.world).0)
    × (committed_response.err_map ≡ [])
    × (ids (saved_note ∷ []) ≡ ids (changed ∷ []))
atomic_save_all_example =
    atomic_save_all store conn never_equal request transactions empty_world committed_response refl
      (store-GetsById empty_world) store-SaveKeepsId tt (refl, tt) note_committed refl

abbrev fetching : Fetching
fetching = record {
  fetcher = record {
    with_master_key = false;
    creation_access_cache = [];
    default_access_cache = [];
  };
  originals = [];
}

abbrev fetched_note : Called Fetching
fetched_note = record {
  state = record fetching { originals = (note.id, note) ∷ [] };
  outcome = saved_note;
  error = none;
}

note_fetched :
    fetch_for_save store conn never_equal request empty_world note_acl fetching changed
    ≡ some fetched_note
unfolding fetch_for_save fetch_or_create_record scrub_record_fields_for_write derive_delta_record
    FieldAcl.accessible FieldAcl.next FieldAcl.new_field_acl_iterator FieldAcl.enough_fuel
    FieldAcl.entry_accessible match record_dependent Record.remove Record.key_of Record.accessible
    Record.apply Record.copy Record.copy_data Acl.accessible Dict.keys Dict.insert Dict.lookup
    Dict.delete Dict.update_all ById.insert
note_fetched = refl

fetch_for_save_example :
    (user : AuthInfo) × (request.auth_info ≡ some user)
    × (fetched_note.outcome.updated_at ≡ request.modify_at)
    × (fetched_note.outcome.updater_id ≡ user.id)
    × (fetched_note.outcome.access ≡ changed.access)
    × IsStamped store conn never_equal request user changed.id fetched_note.state
        fetched_note.outcome
        (store.get empty_world changed.id)
fetch_for_save_example =
    fetch_for_save_lem store conn never_equal request empty_world note_acl fetching changed
      fetched_note note_fetched refl

abbrev init_record : Record → Init
init_record r = initialized r

abbrev note_payload : RecordSavePayload
note_payload = record {
  atomic = true;
  incoming_items = deserialized note.id ∷ [];
  records = changed ∷ [];
  errs = [];
  clean = true;
}

note_validated : validate init_record true (changed ∷ []) ≡ payload note_payload
unfolding validate
note_validated = refl

abbrev bypassing : RecordResultFilter
bypassing = record { field_acl = note_acl; auth_info = some alice; bypass_access_control = true }

bypassing-IsTotal : IsTotal bypassing
unfolding json_result
bypassing-IsTotal r = (Record.copy r, refl)

note_func :
    save_func store conn never_equal context note_payload empty_world ≡ some committed_response
unfolding save_func
note_func = note_committed

saved_results-AreReplies_example :
    (w' : World) × (replies : List Reply) × (saved_results store conn never_equal context
        note_payload bypassing false empty_world
      ≡ some (w', results replies))
    × AreReplies init_record [] (changed ∷ []) replies
saved_results-AreReplies_example =
    saved_results-AreReplies store conn never_equal context init_record true (changed ∷ [])
      note_payload bypassing false empty_world committed_response note_validated (refl, tt)
      store-GetsById store-SaveKeepsId tt bypassing-IsTotal note_func refl

abbrev broken_response : Modified World
broken_response = record saved_response {
  err_map = (note.id, new_error unexpected_error "after") ∷ [];
  saved_records = [];
}

abbrev broken_func : World → ErrMap → Option (Modified World)
broken_func w errs = some broken_response

-- A response that has no error but an entry in its map.
atomic_modify_func_example :
    (m : Modified World) × (atomic_modify_func (some transactions) broken_func empty_world []
      ≡ some m)
    × (m.err_map ≡ broken_response.err_map)
    × (m.saved_records ≡ broken_response.saved_records)
    × (broken_response.error ≡ none → m.world ≡ (transactions.commit broken_response.world).0)
    × ((e : Error)
        → broken_response.error ≡ some e
        → m.world ≡ (transactions.rollback broken_response.world).0)
    × (m.error ≡ none
        → (broken_response.error ≡ none)
          × ((transactions.commit broken_response.world).1 ≡ none)
          × (is_empty broken_response.err_map ≡ true))
    × (broken_response.error ≡ none
        → (transactions.commit broken_response.world).1 ≡ none
        → m.error ≡ elim (is_empty broken_response.err_map) [
          | true ↦ none
          | false ↦ some (
              new_error atomic_operation_failure
                "Atomic Operation rolled back due to one or more errors")
        ])
atomic_modify_func_example =
    atomic_modify_func_lem transactions broken_func empty_world [] broken_response refl refl

abbrev title_schema : RecordSchema
title_schema = ("title", record { type = 1; reference_type = ""; underlying_type = "" }) ∷ []

extend_all_example :
    let m = extend_all new_schema_merger (title_schema ∷ title_schema ∷ []) in
    (m.error ≡ none
      → All (Embeds (λ k. Dict.lookup k m.final_schema)) (title_schema ∷ title_schema ∷ []))
    × ((table : String → Option FieldType)
        → All (Embeds table) (title_schema ∷ title_schema ∷ [])
        → (m.error ≡ none)
          × ((k : String) (t : FieldType)
              → Dict.lookup k m.final_schema ≡ some t
              → table k ≡ some t))
extend_all_example = extend_all_lem (title_schema ∷ title_schema ∷ [])
