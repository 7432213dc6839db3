-- ===== src/Recordutil/Fetch/Caching.antt =====
-- The caches of `RecordFetcher` of pkg/server/recordutil/recordutil.go do not change any answer.
use skygear_server.Common.{
  String, ◌≡◌, refl, ap, sym, ◌∙◌, Bool, true, false, Option, none, some, eq_iff, ◌==◌, arith, inl,
  inr, Bool-cases,
}
use skygear_server.Common.Dict
use skygear_server.Common.Dict.{Dict, lookup-insert}
use skygear_server.Skydb.Acl.{RecordAcl}
use skygear_server.Skydb.Value.{RecordId}
use skygear_server.Recordutil.Fetch.{
  Lookup, AccessAnswer, RecordFetcher, new_record_fetcher, store, cached_or, get_creation_access,
  get_default_access,
}

-- Every list that the map holds is the one that the connection answers.
abbrev pub Agrees : (String → AccessAnswer) → Dict RecordAcl → Type 0
Agrees reply cache =
    (t : String) (acl : RecordAcl) → Dict.lookup t cache ≡ some acl → (reply t).access ≡ some acl

module _ (reply : String → AccessAnswer) where
  store-Agrees :
      (cache : Dict RecordAcl) (t : String) (failed : Bool) (o : Option RecordAcl)
      → (reply t).access ≡ o
      → Agrees reply cache
      → Agrees reply (store cache t failed o)
  unfolding store
  store-Agrees cache t failed none e h = λ s acl p. h s acl p
  store-Agrees cache t true (some a) e h = λ s acl p. h s acl p
  store-Agrees cache t false (some a) e h = λ s acl p. elim (Bool-cases (t == s)) [
    | inl q ↦
        let here : some a ≡ some acl = ground (arith, lookup-insert t s a cache) in
        ap (λ x. (reply x).access) (sym ((eq_iff t s).0 q)) ∙ e ∙ here
    | inr q ↦ h s acl (ground (arith, lookup-insert t s a cache))
  ]

  cached_or_lem :
      (o : Option RecordAcl) (cache : Dict RecordAcl) (t : String)
      → Dict.lookup t cache ≡ o
      → Agrees reply cache
      → ((cached_or o cache t (reply t)).0 ≡ (reply t).access)
        × Agrees reply (cached_or o cache t (reply t)).1
  unfolding cached_or
  cached_or_lem none cache t e h =
      (refl, store-Agrees cache t (reply t).failed (reply t).access refl h)
  cached_or_lem (some acl) cache t e h = (sym (h t acl e), h)

-- Both caches hold only what the connection answers.
abbrev pub IsCoherent : (String → AccessAnswer) → (String → AccessAnswer) → RecordFetcher → Type 0
IsCoherent creation default f =
    Agrees creation f.creation_access_cache × Agrees default f.default_access_cache

pub new_record_fetcher-IsCoherent :
    (creation default : String → AccessAnswer) (master : Bool)
    → IsCoherent creation default (new_record_fetcher master)
unfolding new_record_fetcher Dict.lookup
new_record_fetcher-IsCoherent creation default master =
    (λ t acl p. absurd (cc), λ t acl p. absurd (cc))

-- From a fetcher whose caches hold only what the connection answers, both lookups return the list that
-- the connection answers at that record type, and leave such a fetcher.
pub caches_transparent :
    (db_get : RecordId → Lookup) (creation default : String → AccessAnswer) (f : RecordFetcher)
    (record_type : String)
    → IsCoherent creation default f
    → ((get_creation_access db_get creation default f record_type).0
        ≡ (creation record_type).access)
      × IsCoherent creation default (get_creation_access db_get creation default f record_type).1
      × ((get_default_access db_get creation default f record_type).0
          ≡ (default record_type).access)
      × IsCoherent creation default (get_default_access db_get creation default f record_type).1
unfolding get_creation_access get_default_access
caches_transparent db_get creation default f t h =
    let c = cached_or_lem creation _ f.creation_access_cache t refl h.0 in
    let d = cached_or_lem default _ f.default_access_cache t refl h.1 in
    (c.0, (c.1, h.1), d.0, (h.0, d.1))
