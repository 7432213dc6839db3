-- ===== src/Recordutil/Fetch/Creating.antt =====
-- Who gets or creates a record through `FetchOrCreateRecord` of pkg/server/recordutil/recordutil.go.
use Prim.Native.String.{◌++◌}
use skygear_server.Common.{
  String, ◌≡◌, refl, Bool, true, false, ◌||◌, Option, none, some, [], ◌∷◌, arith, if◌then◌else◌,
}
use skygear_server.Skydb.Acl.{RecordAcl, write_level, create_level}
use skygear_server.Skydb.Access as Acl
use skygear_server.Skydb.Access.Grants.{create_denied}
use skygear_server.Skydb.AuthInfo.{AuthInfo}
use skygear_server.Skydb.Record
use skygear_server.Skydb.Record.{Record}
use skygear_server.Skydb.Value.{RecordId}
use skygear_server.Skyerr.{Error, new_error, permission_denied, unexpected_error}
use skygear_server.Recordutil.Scrub.{zero_record}
use skygear_server.Recordutil.Fetch.{
  Lookup, found, not_found, broken, AccessAnswer, RecordFetcher, Fetched, acl_of, id_string,
  get_creation_access, allow_creation, fetch_result, with_fetched, after_error, fetch_record,
  fetch_or_create_record,
}
use skygear_server.Recordutil.Fetch.Caching.{IsCoherent, caches_transparent}

abbrev is_empty : RecordAcl → Bool
is_empty [] = true
is_empty (ace ∷ acl) = false

accessible-create_level :
    (acl : RecordAcl) (auth_info : Option AuthInfo)
    → Acl.accessible acl auth_info create_level ≡ is_empty acl
accessible-create_level [] auth_info = unfold Acl.accessible in refl
accessible-create_level (ace ∷ acl) auth_info = create_denied ace acl auth_info

abbrev fetched : Record → Fetched
fetched r = record { outcome = r; created = false; error = none }

abbrev new_record : Fetched
new_record = record { outcome = zero_record; created = true; error = none }

abbrev refused : Error → Fetched
refused e = record { outcome = zero_record; created = false; error = some e }

-- What a request may have, by what the database and the connection hold.
abbrev pub decided : Bool → RecordId → Option AuthInfo → RecordAcl → Lookup → Fetched
decided master id auth_info creation_acl (found r) =
    if master || Record.accessible r auth_info write_level
    then fetched r
    else refused (new_error permission_denied "no permission to perform operation")
decided master id auth_info creation_acl not_found =
    if master || is_empty creation_acl
    then new_record
    else refused (new_error permission_denied "no permission to create")
decided master id auth_info creation_acl broken =
    refused (new_error unexpected_error ("failed to fetch record id = " ++ id_string id))

module _ (db_get : RecordId → Lookup) (creation default : String → AccessAnswer) where
  allow_creation_lem :
      (f : RecordFetcher) (id : RecordId) (auth_info : Option AuthInfo)
      → IsCoherent creation default f
      → (allow_creation db_get creation default f id auth_info).0
        ≡ (f.with_master_key || is_empty (acl_of (creation id.type).access))
  unfolding allow_creation
  allow_creation_lem f id auth_info h = ground (
    arith,
    (caches_transparent db_get creation default f id.type h).0,
    accessible-create_level (acl_of (get_creation_access db_get creation default f id.type).0)
        auth_info,
  )

  with_fetched-fetch_result :
      (lookup : Lookup) (f : RecordFetcher) (id : RecordId) (auth_info : Option AuthInfo)
      → IsCoherent creation default f
      → (with_fetched db_get creation default f id auth_info
          (fetch_result db_get creation default lookup f id auth_info write_level)).0
        ≡ decided f.with_master_key id auth_info (acl_of (creation id.type).access) lookup
  unfolding with_fetched fetch_result after_error new_error
  with_fetched-fetch_result (found r) f id auth_info h = ground arith
  with_fetched-fetch_result not_found f id auth_info h =
      ground (arith, allow_creation_lem f id auth_info h)
  with_fetched-fetch_result broken f id auth_info h = ground arith

  -- From a fetcher whose caches hold only what the connection answers: a stored record is handed out
  -- with the master key or write access to it, else permission is denied; a missing record may be
  -- created with the master key or if the list of creation access that the connection answers is nil
  -- or empty, else permission is denied; if the database fails otherwise, an error that names the
  -- record is returned.
  pub fetch_or_create_record_lem :
      (f : RecordFetcher) (id : RecordId) (auth_info : Option AuthInfo)
      → IsCoherent creation default f
      → (fetch_or_create_record db_get creation default f id auth_info).0
        ≡ decided f.with_master_key id auth_info (acl_of (creation id.type).access) (db_get id)
  unfolding fetch_or_create_record fetch_record
  fetch_or_create_record_lem f id auth_info h =
      with_fetched-fetch_result (db_get id) f id auth_info h
