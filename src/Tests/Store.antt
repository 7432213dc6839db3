-- ===== src/Tests/Store.antt =====
-- A small world for the tests: the records that were saved, and whether they are committed.
use skygear_server.Common.{refl, Bool, true, false, none, some, List, [], ◌∷◌, arith}
use skygear_server.Skydb.Record.{Record}
use skygear_server.Skydb.Value.{Value, text}
use skygear_server.Recordutil.Fetch.{found}
use skygear_server.Recordutil.Modify.{Database, Conn, ModifyRequest, allowed, extended}
use skygear_server.Recordutil.Save.Identity.{GetsById, SaveKeepsId}
use skygear_server.Handler.Atomic.{Transactional}
use skygear_server.Handler.Saving.{Context}
use skygear_server.Tests.FieldAccess.{alice, note, note_acl}

pub record World : Type 0 where
  pub saved : List Record
  pub committed : Bool

abbrev pub empty_world : World
empty_world = record { saved = []; committed = true }

-- Every identifier names a note of alice.
abbrev pub store : Database World
store = record {
  id = "_public";
  user_record_type = "user";
  get = λ w id. found (record note { id = id });
  save = λ w r. (record { saved = r ∷ w.saved; committed = false }, r, none);
  remove = λ w id. (record w { committed = false }, none);
  get_schema = λ w t. [];
  extend = λ w t schema. (w, extended false);
}

abbrev pub conn : Conn World
conn = record {
  get_record_access = λ w t. record { access = none; failed = false };
  get_record_default_access = λ w t. record { access = none; failed = false };
  get_record_field_access = λ w. allowed note_acl;
  get_assets = λ w names. some [];
}

abbrev pub transactions : Transactional World
transactions = record {
  begin = λ w. (w, none);
  commit = λ w. (record w { committed = true }, none);
  rollback = λ w. (empty_world, none);
}

abbrev pub changed : Record
changed = record note { contents = some (("title", text "new") ∷ []) }

abbrev pub request : ModifyRequest World
request = record {
  hook_registry = none;
  atomic = true;
  with_master_key = false;
  auth_info = some alice;
  modify_at = 7;
  records_to_save = changed ∷ [];
  record_ids_to_delete = [];
}

abbrev pub context : Context World
context = record {
  read_only = false;
  transactional = some transactions;
  hook_registry = none;
  with_master_key = false;
  auth_info = some alice;
  now = 7;
  send_event = none;
}

abbrev pub never_equal : Value → Value → Bool
never_equal v w = false

pub store-GetsById : (w : World) → GetsById (store.get w)
store-GetsById w id r e = ground arith

pub store-SaveKeepsId : SaveKeepsId store
store-SaveKeepsId w r = refl
