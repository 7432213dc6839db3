-- ===== src/Preprocessor/Auth.antt =====
-- pkg/server/preprocessor/auth.go, lines 28-127: the access key and the access token of a request. The
-- token store is a parameter.
pub mod Identity
use Prim.Native.String.{◌++◌}
use skygear_server.Common.{
  ℕ, String, Bool, true, false, not, ◌&&◌, Option, none, some, ◌==◌, if◌then◌else◌,
}
use skygear_server.Skyerr.{
  Error, GoError, new_error, make_error, access_key_not_accepted, not_authenticated,
  access_token_not_accepted,
}
use skygear_server.Router.{
  AccessKeyType, no_access_key, client_access_key, master_access_key, AccessToken, Payload,
  Response, Step, returned, api_key, access_token_string, has_master_key, text_at, status_ok,
  status_unauthorized,
}

-- `authtoken.Token`, of pkg/server/authtoken/authtoken.go, lines 27-33; an issue time that `IsZero` is `none`.
pub record Token : Type 0 where
  pub access_token : String
  pub expired_at : Option ℕ
  pub app_name : String
  pub auth_info_id : String
  pub issued_at : Option ℕ

-- What `Store.Get` did: it filled the token, returned a `*NotFoundError`, or another error.
pub data TokenLookup : Type 0 where
  token_found : Token → TokenLookup
  token_not_found : TokenLookup
  token_failed : GoError → TokenLookup

-- `payload.Context = context.WithValue(payload.Context, AccessKeyTypeContextKey, payload.AccessKey)`
abbrev pub with_key : AccessKeyType → Payload → Payload
with_key key p = record p { access_key = key; context_access_key = some key }

-- The error, or the payload after the check.
pub data Checked : Type 0 where
  accepted : Payload → Checked
  rejected : Error → Checked

check_keys : Payload → String → String → String → Checked
unfolding new_error
check_keys p key client_key master_key =
    if not (master_key == "") && key == master_key
    then accepted (with_key master_access_key p)
    else if not (client_key == "") && key == client_key
    then accepted (with_key client_access_key p)
    else if key == ""
    then accepted (with_key no_access_key p)
    else rejected (new_error access_key_not_accepted ("Cannot verify api key: `" ++ (key ++ "`")))

check_by : AccessKeyType → Payload → String → String → Checked
unfolding check_keys
check_by no_access_key p client_key master_key = check_keys p (api_key p) client_key master_key
check_by client_access_key p client_key master_key = accepted p
check_by master_access_key p client_key master_key = accepted p

unfoldable pub check_request_access_key : Payload → String → String → Checked
unfolding check_by
check_request_access_key p client_key master_key = check_by p.access_key p client_key master_key

abbrev pub with_err : Error → Response → Response
with_err e response = record response { err = some e }

abbrev pub unauthorized : Payload → Response → Error → Step
unauthorized p response e = returned status_unauthorized p (with_err e response)

-- The fields of `AccessKeyValidationPreprocessor` and `UserAuthenticator` but the store.
pub record Keys : Type 0 where
  pub client_key : String
  pub master_key : String
  pub app_name : String

key_required : AccessKeyType → String → Payload → Response → Step
unfolding new_error
key_required no_access_key app_name p response =
    unauthorized p response (new_error not_authenticated "Api key is empty")
key_required _ app_name p response = returned status_ok (record p { app_name = app_name }) response

validate_checked : Keys → Checked → Payload → Response → Step
unfolding key_required
validate_checked keys (rejected e) p response = unauthorized p response e
validate_checked keys (accepted p') p response =
    key_required p'.access_key keys.app_name p' response

-- `AccessKeyValidationPreprocessor.Preprocess`
unfoldable pub validate_access_key : Keys → Payload → Response → Step
unfolding validate_checked check_request_access_key
validate_access_key keys p response =
    validate_checked keys (check_request_access_key p keys.client_key keys.master_key) p response

-- A user chosen by a caller that has the master key.
impersonate : Option String → Payload → Payload
impersonate none p = p
impersonate (some user_id) p = record p { auth_info_id = user_id; context_user_id = some user_id }

impersonated : Payload → Payload
unfolding impersonate has_master_key text_at
impersonated p = if has_master_key p then impersonate (text_at "_user_id" p.contents) p else p

without_token : AccessKeyType → String → Payload → Response → Step
unfolding impersonated new_error
without_token no_access_key app_name p response =
    unauthorized p response (new_error not_authenticated "Both api key and access token are empty")
without_token _ app_name p response =
    returned status_ok (record (impersonated p) { app_name = app_name }) response

with_token : TokenLookup → Payload → Response → Step
unfolding new_error make_error
with_token token_not_found p response =
    unauthorized p response
      (new_error access_token_not_accepted "token does not exist or it has expired")
with_token (token_failed e) p response = unauthorized p response (make_error e)
with_token (token_found token) p response =
    returned status_ok
      (record p {
        app_name = token.app_name;
        auth_info_id = token.auth_info_id;
        context_user_id = some token.auth_info_id;
        access_token = some (record { issued_at = token.issued_at });
      })
      response

module _ (token_get : String → TokenLookup) where
  authenticate_by : Keys → String → Payload → Response → Step
  unfolding with_token without_token
  authenticate_by keys token p response =
      if token == ""
      then without_token p.access_key keys.app_name p response
      else with_token (token_get token) p response

  authenticate_checked : Keys → Checked → Payload → Response → Step
  unfolding authenticate_by
  authenticate_checked keys (rejected e) p response = unauthorized p response e
  authenticate_checked keys (accepted p') p response =
      authenticate_by keys (access_token_string p') p' response

  -- `UserAuthenticator.Preprocess`
  unfoldable pub authenticate_user : Keys → Payload → Response → Step
  unfolding authenticate_checked check_request_access_key
  authenticate_user keys p response =
      authenticate_checked keys (check_request_access_key p keys.client_key keys.master_key) p
        response
