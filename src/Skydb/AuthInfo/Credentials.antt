-- ===== src/Skydb/AuthInfo/Credentials.antt =====
-- Provider data of a user, of pkg/server/skydb/authinfo.go.
use skygear_server.Common.{
  String, ◌≡◌, inl, inr, refl, Option, none, [], ◌==◌, arith, if◌then◌else◌, Option-cases,
}
use skygear_server.Common.Dict
use skygear_server.Common.Dict.{lookup-insert, lookup-delete}
use skygear_server.Skydb.Value.{Data}
use skygear_server.Skydb.AuthInfo.{
  AuthInfo, set_provider_info_data, get_provider_info_data, remove_provider_info_data,
}

lookup-nil : (j : String) → Dict.lookup {V = Option Data} j [] ≡ none
unfolding Dict.lookup
lookup-nil j = refl

-- Setting the data of a provider's principal changes what is read at that principal alone, and removing it
-- leaves no data there and the rest as it was.
pub provider_info_data_lem :
    (k j : String) (d : Option Data) (info : AuthInfo)
    → (get_provider_info_data j (set_provider_info_data k d info)
        ≡ (if k == j then d else get_provider_info_data j info))
      × (get_provider_info_data j (remove_provider_info_data k info)
          ≡ (if k == j then none else get_provider_info_data j info))
unfolding get_provider_info_data set_provider_info_data remove_provider_info_data
provider_info_data_lem k j d info = elim (Option-cases info.provider_info) [
  | inl e ↦ (rw e (ground (arith, lookup-insert k j d [], lookup-nil j)), rw e (ground arith))
  | inr (m, e) ↦
      (rw e (ground (arith, lookup-insert k j d m)), rw e (ground (arith, lookup-delete k j m)))
]
