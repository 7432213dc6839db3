-- ===== src/Preprocessor/Inject.antt =====
-- pkg/server/preprocessor/preprocessor.go: the user and the database of a request, and the guards
-- `RequireAuth` and `RequireAdminOrMasterKey`. The connection's answers are parameters.
pub mod Isolation
pub mod Guards
pub mod Revoking
use Prim.Native.String.{◌++◌}
use skygear_server.Common.{
  ℕ, ◌+◌, String, Bool, true, false, not, ◌&&◌, ◌||◌, Option, none, some, List, [], ◌∷◌, ◌==◌, ltb,
  if◌then◌else◌,
}
use skygear_server.Common.Text.{strip_prefix}
use skygear_server.Skydb.AuthInfo.{AuthInfo, has_any_roles}
use skygear_server.Skyerr.{
  Error, GoError, new_error, make_error, new_invalid_argument, not_authenticated, permission_denied,
  access_token_not_accepted, unexpected_auth_info_not_found,
}
use skygear_server.Router.{
  AccessToken, Payload, Response, Step, Database, public_db, union_db, private_db, returned,
  has_master_key, text_at, status_ok, status_bad_request, status_unauthorized, status_forbidden,
  status_internal_server_error,
}
use skygear_server.Preprocessor.Auth.{with_err, unauthorized}

issued_late_enough : Option ℕ → ℕ → Bool
issued_late_enough none since = true
issued_late_enough (some issued) since = ltb since (issued + 1000000000)

valid_since : AccessToken → Option ℕ → Bool
unfolding issued_late_enough
valid_since token none = true
valid_since token (some since) = issued_late_enough token.issued_at since

-- `token.IssuedAt().After(tokenValidSince.Add(-1 * time.Second))`, the second moved to the other side.
unfoldable pub is_token_still_valid : AccessToken → AuthInfo → Bool
unfolding valid_since
is_token_still_valid token auth_info = valid_since token auth_info.token_valid_since

-- What `GetAuth` did: it filled the user, returned `ErrUserNotFound`, or another error with its text.
pub data AuthLookup : Type 0 where
  auth_found : AuthInfo → AuthLookup
  user_not_found : AuthLookup
  auth_failed : String → AuthLookup

-- Whether `CreateAuth` returned no error, `ErrUserDuplicated`, or another error.
pub data Creation : Type 0 where
  auth_created auth_duplicated creation_failed : Creation

-- `skydb.AuthInfo{ID: payload.AuthInfoID}`
abbrev pub auth_info_with_id : String → AuthInfo
auth_info_with_id id = record {
  id = id;
  hashed_password = none;
  roles = [];
  provider_info = none;
  token_valid_since = none;
  last_seen_at = none;
}

-- `payload.AccessToken != nil && !isTokenStillValid(payload.AccessToken, authinfo)`
abbrev pub is_stale : Option AccessToken → AuthInfo → Bool
is_stale none auth_info = false
is_stale (some token) auth_info = not (is_token_still_valid token auth_info)

-- The end of `InjectAuthIfPresent.Preprocess`.
inject_found : AuthInfo → Payload → Response → Step
unfolding new_error
inject_found auth_info p response =
    if is_stale p.access_token auth_info
    then unauthorized p response
        (new_error access_token_not_accepted "token does not exist or it has expired")
    else returned status_ok (record p { auth_info = some auth_info }) response

after_creation : Creation → Payload → Response → Step
unfolding inject_found
after_creation creation_failed p response = returned status_internal_server_error p response
after_creation _ p response = inject_found (auth_info_with_id p.auth_info_id) p response

auth_error : String → Payload → Response → Step
unfolding new_error
auth_error message p response =
    returned status_internal_server_error p
      (with_err (new_error unexpected_auth_info_not_found message) response)

module _ (get_auth : String → AuthLookup) (create_auth : AuthInfo → Creation)
    (user_not_found_text : String) where
  inject_by : AuthLookup → Payload → Response → Step
  unfolding inject_found after_creation auth_error has_master_key
  inject_by (auth_found auth_info) p response = inject_found auth_info p response
  inject_by user_not_found p response =
      if has_master_key p
      then after_creation (create_auth (auth_info_with_id p.auth_info_id)) p response
      else auth_error user_not_found_text p response
  inject_by (auth_failed message) p response = auth_error message p response

  -- `InjectAuthIfPresent.Preprocess`
  unfoldable pub inject_auth_if_present : Payload → Response → Step
  unfolding inject_by has_master_key
  inject_auth_if_present p response =
      let god = record p { auth_info_id = "_god"; context_user_id = some "_god" } in
      if p.auth_info_id == ""
      then if has_master_key p
        then inject_by (get_auth "_god") god response
        else returned status_ok p response
      else inject_by (get_auth p.auth_info_id) p response

-- `get_admin_roles` is `none` where `GetAdminRoles` returned the error.
module _ (get_admin_roles : Option (List String)) (admin_roles_error : GoError) where
  has_admin_role : Option (List String) → Option AuthInfo → Payload → Response → Step
  unfolding new_error make_error has_any_roles
  has_admin_role roles none p response =
      unauthorized p response
        (new_error not_authenticated "User is required for this action, please login.")
  has_admin_role none (some user) p response =
      returned status_internal_server_error p (with_err (make_error admin_roles_error) response)
  has_admin_role (some roles) (some user) p response =
      if has_any_roles user roles
      then returned status_ok p response
      else unauthorized p response
          (new_error permission_denied "no permission to perform this action")

  -- `RequireAdminOrMasterKey.Preprocess`
  unfoldable pub require_admin_or_master_key : Payload → Response → Step
  unfolding has_admin_role has_master_key
  require_admin_or_master_key p response =
      if has_master_key p
      then returned status_ok p response
      else has_admin_role get_admin_roles p.auth_info p response

-- `RequireAuth.Preprocess`
require_auth_of : Option AuthInfo → Payload → Response → Step
unfolding new_error
require_auth_of none p response =
    unauthorized p response
      (new_error not_authenticated "Authentication is required for this action, please login.")
require_auth_of (some user) p response = returned status_ok p response

unfoldable pub require_auth : Payload → Response → Step
unfolding require_auth_of
require_auth p response = require_auth_of p.auth_info p response

abbrev is_set : Option AuthInfo → Bool
is_set none = false
is_set (some user) = true

-- `payload.AuthInfo != nil && databaseID == payload.AuthInfo.ID`
abbrev is_own : Option AuthInfo → String → Bool
is_own none id = false
is_own (some user) id = id == user.id

abbrev select_db : Database → Payload → Response → Step
select_db db p response = returned status_ok (record p { database = some db }) response

private_of : Option AuthInfo → Payload → Response → Step
unfolding new_error
private_of none p response =
    unauthorized p response
      (new_error not_authenticated "Authentication is needed for private DB access")
private_of (some user) p response = select_db (private_db user.id) p response

-- `!ok || databaseID == ""`
abbrev pub or_public : Option String → String
or_public none = "_public"
or_public (some id) = if id == "" then "_public" else id

has_underscore : Option String → Bool
has_underscore none = false
has_underscore (some rest) = true

other_database : String → Payload → Response → Step
unfolding has_underscore has_master_key new_error new_invalid_argument
other_database id p response =
    if has_underscore (strip_prefix "_" id)
    then returned status_bad_request p
        (with_err (new_invalid_argument "invalid database ID" ("database_id" ∷ [])) response)
    else if has_master_key p
    then select_db (private_db id) p response
    else if is_own p.auth_info id
    then select_db (private_db id) p response
    else returned status_forbidden p (
        with_err
          (new_error permission_denied
            "The selected DB cannot be accessed because permission is denied")
          response)

database_by : String → Payload → Response → Step
unfolding private_of other_database has_master_key new_error
database_by id p response =
    if id == "_private"
    then private_of p.auth_info p response
    else if id == "_public"
    then select_db public_db p response
    else if id == "_union"
    then if has_master_key p
      then select_db union_db p response
      else unauthorized p response
          (new_error not_authenticated "Master key is needed for union DB access")
    else other_database id p response

-- `InjectDatabase.Preprocess`
unfoldable pub inject_database : Payload → Response → Step
unfolding database_by text_at
inject_database p response = database_by (or_public (text_at "database_id" p.contents)) p response

-- `InjectPublicDatabase.Preprocess`
unfoldable pub inject_public_database : Payload → Response → Step
inject_public_database p response = select_db public_db p response
