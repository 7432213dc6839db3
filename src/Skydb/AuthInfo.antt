-- ===== src/Skydb/AuthInfo.antt =====
-- pkg/server/skydb/authinfo.go: the `AuthInfo` of a user, its password, roles and provider data.
pub mod Credentials
use skygear_server.Common.{ℕ, String, Bool, true, Option, none, some, List, [], ◌∷◌, ◌≡◌}
use skygear_server.Common.Dict
use skygear_server.Common.Dict.{Dict}
use skygear_server.Skydb.Value.{Data}
use skygear_server.Utils.{string_slice_contain_any, string_slice_contain_all}

abbrev pub ProviderInfo : Type 0
ProviderInfo = Dict (Option Data)

-- A nil map or pointer is `none`.
pub record AuthInfo : Type 0 where
  pub id : String
  pub hashed_password : Option String
  pub roles : List String
  pub provider_info : Option ProviderInfo
  pub token_valid_since : Option ℕ
  pub last_seen_at : Option ℕ

-- What the code uses of golang.org/x/crypto/bcrypt: a hash is accepted with the password that it was
-- generated from.
pub record Bcrypt : Type 0 where
  pub generate : String → Option String
  pub accepts : Option String → String → Bool
  pub accepts_generated :
      (password hash : String) → generate password ≡ some hash → accepts (some hash) password ≡ true

unfoldable pub new_anonymous_auth_info : String → AuthInfo
new_anonymous_auth_info uuid = record {
  id = uuid;
  hashed_password = none;
  roles = [];
  provider_info = none;
  token_valid_since = none;
  last_seen_at = none;
}

unfoldable pub new_provider_info_auth_info : String → String → Option Data → AuthInfo
unfolding new_anonymous_auth_info
new_provider_info_auth_info uuid principal_id auth_data =
    let info = new_anonymous_auth_info uuid in
    record info { provider_info = some ((principal_id, auth_data) ∷ []) }

-- `none` is the panic after a failed hash.
unfoldable pub set_password : Bcrypt → ℕ → String → AuthInfo → Option AuthInfo
set_password b now password info = elim (b.generate password) [
  | none ↦ none
  | some hash ↦ some (record info { hashed_password = some hash; token_valid_since = some now })
]

unfoldable pub new_auth_info : Bcrypt → ℕ → String → String → Option AuthInfo
unfolding new_anonymous_auth_info set_password
new_auth_info b now uuid password = set_password b now password (new_anonymous_auth_info uuid)

unfoldable pub is_same_password : Bcrypt → AuthInfo → String → Bool
is_same_password b info password = b.accepts info.hashed_password password

abbrev pub or_empty : Option ProviderInfo → ProviderInfo
or_empty none = []
or_empty (some m) = m

unfoldable pub set_provider_info_data : String → Option Data → AuthInfo → AuthInfo
set_provider_info_data principal_id auth_data info = record info {
  provider_info = some (Dict.insert principal_id auth_data (or_empty info.provider_info));
}

abbrev pub or_nil : Option (Option Data) → Option Data
or_nil none = none
or_nil (some m) = m

unfoldable pub get_provider_info_data : String → AuthInfo → Option Data
get_provider_info_data principal_id info = elim (info.provider_info) [
  | none ↦ none
  | some m ↦ or_nil (Dict.lookup principal_id m)
]

unfoldable pub remove_provider_info_data : String → AuthInfo → AuthInfo
remove_provider_info_data principal_id info = elim (info.provider_info) [
  | none ↦ info
  | some m ↦ record info { provider_info = some (Dict.delete principal_id m) }
]

unfoldable pub has_any_roles : AuthInfo → List String → Bool
has_any_roles info roles = string_slice_contain_any info.roles roles

unfoldable pub has_all_roles : AuthInfo → List String → Bool
has_all_roles info roles = string_slice_contain_all info.roles roles
