-- ===== src/Recordutil/Fetch.antt =====
-- pkg/server/recordutil/recordutil.go, lines 94-198: fetching the record that a request is about, or
-- allowing its creation. The database (`skydb.Database.Get`) and the connection's two lookups of access
-- control lists (`skydb.Conn`) are parameters; a fetcher is used for one request and asks each once.
pub mod Caching
pub mod Creating
pub mod Found
use Prim.Native.String.{◌++◌}
use skygear_server.Common.{
  String, Bool, true, false, not, ◌&&◌, Option, none, some, [], nat_eq, if◌then◌else◌,
}
use skygear_server.Common.Dict
use skygear_server.Common.Dict.{Dict}
use skygear_server.Skydb.Acl.{RecordAclLevel, RecordAcl, write_level, create_level}
use skygear_server.Skydb.Access as Acl
use skygear_server.Skydb.AuthInfo.{AuthInfo}
use skygear_server.Skydb.Record
use skygear_server.Skydb.Record.{Record}
use skygear_server.Skydb.Value.{RecordId}
use skygear_server.Skyerr.{
  Error, new_error, resource_not_found, permission_denied, unexpected_error,
}
use skygear_server.Recordutil.Scrub.{zero_record}

-- What `Database.Get` did: it filled the record, returned `ErrRecordNotFound`, or another error.
pub data Lookup : Type 0 where
  found : Record → Lookup
  not_found : Lookup
  broken : Lookup

-- What `GetRecordAccess` or `GetRecordDefaultAccess` returned: a list, which may be nil, and whether
-- the error is not nil.
pub record AccessAnswer : Type 0 where
  pub access : Option RecordAcl
  pub failed : Bool

pub record RecordFetcher : Type 0 where
  pub with_master_key : Bool
  pub creation_access_cache : Dict RecordAcl
  pub default_access_cache : Dict RecordAcl

unfoldable pub new_record_fetcher : Bool → RecordFetcher
new_record_fetcher master = record {
  with_master_key = master;
  creation_access_cache = [];
  default_access_cache = [];
}

-- `if err == nil && access != nil { cache[recordType] = access }`
pub store : Dict RecordAcl → String → Bool → Option RecordAcl → Dict RecordAcl
store cache record_type failed none = cache
store cache record_type true (some acl) = cache
store cache record_type false (some acl) = Dict.insert record_type acl cache

-- The body that `getCreationAccess` and `getDefaultAccess` share, on their two maps.
pub cached_or :
    Option RecordAcl → Dict RecordAcl → String → AccessAnswer → Option RecordAcl × Dict RecordAcl
unfolding store
cached_or (some acl) cache record_type reply = (some acl, cache)
cached_or none cache record_type reply =
    (reply.access, store cache record_type reply.failed reply.access)

abbrev pub cached_access :
    Dict RecordAcl → String → AccessAnswer → Option RecordAcl × Dict RecordAcl
cached_access cache record_type reply =
    cached_or (Dict.lookup record_type cache) cache record_type reply

-- A nil list has length 0.
abbrev pub acl_of : Option RecordAcl → RecordAcl
acl_of none = []
acl_of (some acl) = acl

-- The three results of `FetchOrCreateRecord`.
pub record Fetched : Type 0 where
  pub outcome : Record
  pub created : Bool
  pub error : Option Error

-- `RecordID.String`
abbrev pub id_string : RecordId → String
id_string id = id.type ++ "/" ++ id.key

module _ (db_get : RecordId → Lookup)
    (get_record_access get_record_default_access : String → AccessAnswer) where
  unfoldable pub get_creation_access : RecordFetcher → String → Option RecordAcl × RecordFetcher
  unfolding cached_or
  get_creation_access f record_type =
      let (acl, cache) =
        cached_access f.creation_access_cache record_type (get_record_access record_type) in
      (acl, record f { creation_access_cache = cache })

  unfoldable pub get_default_access : RecordFetcher → String → Option RecordAcl × RecordFetcher
  unfolding cached_or
  get_default_access f record_type =
      let (acl, cache) =
        cached_access f.default_access_cache record_type (get_record_default_access record_type) in
      (acl, record f { default_access_cache = cache })

  -- The error of `FetchRecord` after the record was found.
  abbrev access_error : RecordFetcher → Record → Option AuthInfo → RecordAclLevel → Option Error
  access_error f r auth_info level =
      if not f.with_master_key && not (Record.accessible r auth_info level)
      then some (new_error permission_denied "no permission to perform operation")
      else none

  -- The results of `FetchRecord`, by what the database did.
  pub fetch_result :
      Lookup
      → RecordFetcher
      → RecordId
      → Option AuthInfo
      → RecordAclLevel
      → Option Record × Option Error
  fetch_result (found r) f id auth_info level = (some r, access_error f r auth_info level)
  fetch_result not_found f id auth_info level =
      (none, some (new_error resource_not_found "record not found"))
  fetch_result broken f id auth_info level =
      (none, some (new_error unexpected_error ("failed to fetch record id = " ++ id_string id)))

  unfoldable pub fetch_record :
      RecordFetcher → RecordId → Option AuthInfo → RecordAclLevel → Option Record × Option Error
  unfolding fetch_result
  fetch_record f id auth_info level = fetch_result (db_get id) f id auth_info level

  -- `allowCreation`
  pub allow_creation : RecordFetcher → RecordId → Option AuthInfo → Bool × RecordFetcher
  unfolding get_creation_access
  allow_creation f id auth_info =
      let (acl, f') = get_creation_access f id.type in
      if f.with_master_key
      then (true, f)
      else (Acl.accessible (acl_of acl) auth_info create_level, f')

  pub after_error : RecordFetcher → RecordId → Option AuthInfo → Error → Fetched × RecordFetcher
  unfolding allow_creation
  after_error f id auth_info e =
      let (allowed, f') = allow_creation f id auth_info in
      if nat_eq e.code resource_not_found
      then if allowed
        then (record { outcome = zero_record; created = true; error = none }, f')
        else (
          record {
            outcome = zero_record;
            created = false;
            error = some (new_error permission_denied "no permission to create");
          },
          f',
        )
      else (record { outcome = zero_record; created = false; error = some e }, f)

  -- `*fetchedRecord`, which is not nil when the error is.
  abbrev dereferenced : Option Record → Record
  dereferenced none = zero_record
  dereferenced (some r) = r

  pub with_fetched :
      RecordFetcher
      → RecordId
      → Option AuthInfo
      → Option Record × Option Error
      → Fetched × RecordFetcher
  unfolding after_error
  with_fetched f id auth_info (r, none) =
      (record { outcome = dereferenced r; created = false; error = none }, f)
  with_fetched f id auth_info (r, some e) = after_error f id auth_info e

  unfoldable pub fetch_or_create_record :
      RecordFetcher → RecordId → Option AuthInfo → Fetched × RecordFetcher
  unfolding fetch_record with_fetched
  fetch_or_create_record f id auth_info =
      with_fetched f id auth_info (fetch_record f id auth_info write_level)
