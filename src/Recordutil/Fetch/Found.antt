-- ===== src/Recordutil/Fetch/Found.antt =====
-- What else `FetchOrCreateRecord` of pkg/server/recordutil/recordutil.go promises: where the record comes
-- from, and what the fetcher remembers.
use skygear_server.Common.{
  String, ◌≡◌, Bool, true, false, ◌||◌, Option, none, some, arith, if_elim, nat_eq,
}
use skygear_server.Skydb.Acl.{write_level}
use skygear_server.Skydb.AuthInfo.{AuthInfo}
use skygear_server.Skydb.Record
use skygear_server.Skydb.Record.{Record}
use skygear_server.Skydb.Value.{RecordId}
use skygear_server.Skyerr.{Error, new_error, resource_not_found}
use skygear_server.Recordutil.Fetch.{
  Lookup, found, not_found, broken, AccessAnswer, RecordFetcher, Fetched, get_creation_access,
  allow_creation, fetch_result, with_fetched, after_error, fetch_record, fetch_or_create_record,
}
use skygear_server.Recordutil.Fetch.Caching.{IsCoherent, caches_transparent}

-- What was fetched, by what the database did.
abbrev pub HasShape : Lookup → Fetched → Type 0
HasShape (found r) f = (f.created ≡ false) × (f.outcome ≡ r)
HasShape not_found f = f.created ≡ true
HasShape broken f = ⊥

module _ (db_get : RecordId → Lookup) (creation default : String → AccessAnswer) where
  found_of_lookup :
      (lookup : Lookup) (f : RecordFetcher) (id : RecordId) (auth_info : Option AuthInfo)
      → let r =
          (with_fetched db_get creation default f id auth_info
            (fetch_result db_get creation default lookup f id auth_info write_level)).0 in
        r.created ≡ false → r.error ≡ none → lookup ≡ found r.outcome
  unfolding with_fetched fetch_result after_error new_error
  found_of_lookup (found r) f id auth_info h k = ground arith
  found_of_lookup not_found f id auth_info h k = absurd (ground arith)
  found_of_lookup broken f id auth_info h k = absurd (ground arith)

  -- A record that is neither new nor refused is the one that the database holds.
  pub found_of_fetched :
      (f : RecordFetcher) (id : RecordId) (auth_info : Option AuthInfo)
      → let r = (fetch_or_create_record db_get creation default f id auth_info).0 in
        r.created ≡ false → r.error ≡ none → db_get id ≡ found r.outcome
  unfolding fetch_or_create_record fetch_record
  found_of_fetched f id auth_info h k = found_of_lookup (db_get id) f id auth_info h k

  -- The fetcher has the same key as before, and caches that hold only what the connection answers.
  abbrev pub Remembers : Bool → RecordFetcher → Type 0
  Remembers master f = (f.with_master_key ≡ master) × IsCoherent creation default f

  get_creation_access-Remembers :
      (master : Bool) (f : RecordFetcher) (t : String)
      → Remembers master f
      → Remembers master (get_creation_access db_get creation default f t).1
  get_creation_access-Remembers master f t (h, k) =
      (unfold get_creation_access in h, (caches_transparent db_get creation default f t k).1)

  allow_creation-Remembers :
      (master : Bool) (f : RecordFetcher) (id : RecordId) (auth_info : Option AuthInfo)
      → Remembers master f
      → Remembers master (allow_creation db_get creation default f id auth_info).1
  unfolding allow_creation
  allow_creation-Remembers master f id auth_info h =
      if_elim (λ (p : Bool × RecordFetcher). Remembers master p.1) f.with_master_key h
        (get_creation_access-Remembers master f id.type h)

  with_fetched-Remembers :
      (master : Bool) (f : RecordFetcher) (id : RecordId) (auth_info : Option AuthInfo)
      (result : Option Record × Option Error)
      → Remembers master f
      → Remembers master (with_fetched db_get creation default f id auth_info result).1
  unfolding with_fetched after_error
  with_fetched-Remembers master f id auth_info (r, none) h = h
  with_fetched-Remembers master f id auth_info (r, some e) h =
      let h' = allow_creation-Remembers master f id auth_info h in
      let P = λ (p : Fetched × RecordFetcher). Remembers master p.1 in
      if_elim P (nat_eq e.code resource_not_found)
        (if_elim P (allow_creation db_get creation default f id auth_info).0 h' h') h

  pub fetch_or_create_record-Remembers :
      (master : Bool) (f : RecordFetcher) (id : RecordId) (auth_info : Option AuthInfo)
      → Remembers master f
      → Remembers master (fetch_or_create_record db_get creation default f id auth_info).1
  unfolding fetch_or_create_record
  fetch_or_create_record-Remembers master f id auth_info h =
      with_fetched-Remembers master f id auth_info
        (fetch_record db_get creation default f id auth_info write_level) h

  granted_of_lookup :
      (lookup : Lookup) (f : RecordFetcher) (id : RecordId) (auth_info : Option AuthInfo)
      (r : Record)
      → let result = fetch_result db_get creation default lookup f id auth_info write_level in
        result.1 ≡ none
        → result.0 ≡ some r
        → (lookup ≡ found r)
          × ((f.with_master_key || Record.accessible r auth_info write_level) ≡ true)
  unfolding fetch_result
  granted_of_lookup (found r') f id auth_info r h k = ground arith
  granted_of_lookup not_found f id auth_info r h k = absurd (ground arith)
  granted_of_lookup broken f id auth_info r h k = absurd (ground arith)

  -- A record that `FetchRecord` returns for writing is stored, and may be written to.
  pub granted_of_fetched :
      (f : RecordFetcher) (id : RecordId) (auth_info : Option AuthInfo) (r : Record)
      → (fetch_record db_get creation default f id auth_info write_level).1 ≡ none
      → (fetch_record db_get creation default f id auth_info write_level).0 ≡ some r
      → (db_get id ≡ found r)
        × ((f.with_master_key || Record.accessible r auth_info write_level) ≡ true)
  unfolding fetch_record
  granted_of_fetched f id auth_info r h k = granted_of_lookup (db_get id) f id auth_info r h k

  shape_of_lookup :
      (lookup : Lookup) (f : RecordFetcher) (id : RecordId) (auth_info : Option AuthInfo)
      → let r =
          (with_fetched db_get creation default f id auth_info
            (fetch_result db_get creation default lookup f id auth_info write_level)).0 in
        r.error ≡ none → HasShape lookup r
  unfolding with_fetched fetch_result after_error new_error
  shape_of_lookup (found r) f id auth_info k = ground arith
  shape_of_lookup not_found f id auth_info k = ground arith
  shape_of_lookup broken f id auth_info k = absurd (ground arith)

  pub shape_of_fetched :
      (f : RecordFetcher) (id : RecordId) (auth_info : Option AuthInfo)
      → (fetch_or_create_record db_get creation default f id auth_info).0.error ≡ none
      → HasShape (db_get id) (fetch_or_create_record db_get creation default f id auth_info).0
  unfolding fetch_or_create_record fetch_record
  shape_of_fetched f id auth_info k = shape_of_lookup (db_get id) f id auth_info k
