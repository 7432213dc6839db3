-- ===== src/Tests/Requests.antt =====
-- The preprocessors and the pipeline, at concrete requests.
use skygear_server.Common.{
  ℕ, ◌+◌, ◌≤◌, ◌<◌, String, ◌≡◌, ◌≢◌, ◌⊎◌, refl, Bool, true, false, Option, none, some, List, [],
  ◌∷◌, ◌==◌, eq_iff, arith, any, contains, if◌then◌else◌,
}
use skygear_server.Common.Dict
use skygear_server.Skydb.AuthInfo.{AuthInfo, Bcrypt, set_password, has_any_roles}
use skygear_server.Skydb.Value.{text}
use skygear_server.Skyerr.{plain, new_error, access_token_not_accepted}
use skygear_server.Router.{
  AccessToken, Payload, Response, Processor, Handler, finished, returned, no_access_key, handled,
  text_at, api_key, access_token_string, has_master_key, status_ok, private_db, call_handler,
}
use skygear_server.Router.Pipeline.{Passes, call_handler_lem}
use skygear_server.Preprocessor.Auth.{
  Keys, Token, TokenLookup, token_found, token_not_found, check_request_access_key,
  authenticate_user, unauthorized,
}
use skygear_server.Preprocessor.Auth.Identity.{Identified, authenticate_user_lem}
use skygear_server.Preprocessor.Inject.{
  AuthLookup, auth_found, Creation, auth_created, inject_auth_if_present,
  require_admin_or_master_key, inject_database, is_token_still_valid,
}
use skygear_server.Preprocessor.Inject.Isolation.{IsOwn, inject_database-IsOwn}
use skygear_server.Preprocessor.Inject.Guards.{
  IsFresh, require_admin_or_master_key_lem, inject_auth_if_present-IsFresh,
}
use skygear_server.Preprocessor.Inject.Revoking.{set_password-revokes}
use skygear_server.Utils.{string_slice_contain_any, str_at}
use skygear_server.Tests.FieldAccess.{alice}

abbrev no_response : Response
no_response = record { err = none; outcome = none }

-- A request with a token.
abbrev request : Payload
request = record {
  contents = ("access_token", text "t1") ∷ ("database_id", text "_private") ∷ [];
  context_access_key = none;
  context_user_id = none;
  app_name = "";
  auth_info_id = "";
  auth_info = none;
  access_key = no_access_key;
  access_token = none;
  database = none;
}

abbrev token : Token
token = record {
  access_token = "t1";
  expired_at = none;
  app_name = "app";
  auth_info_id = "alice";
  issued_at = some 5;
}

abbrev tokens : String → TokenLookup
tokens s = if s == "t1" then token_found token else token_not_found

abbrev keys : Keys
keys = record { client_key = "client"; master_key = "master"; app_name = "app" }

abbrev identified : Payload
identified = record request {
  context_access_key = some no_access_key;
  app_name = "app";
  auth_info_id = "alice";
  context_user_id = some "alice";
  access_token = some (record { issued_at = some 5 });
}

request_authenticated :
    authenticate_user tokens keys request no_response ≡ returned status_ok identified no_response
unfolding authenticate_user check_request_access_key api_key access_token_string text_at Dict.lookup
request_authenticated = refl

authenticate_user_example : Identified tokens keys request identified.auth_info_id
authenticate_user_example =
    authenticate_user_lem tokens keys request no_response status_ok identified no_response
      request_authenticated refl

abbrev users : String → AuthLookup
users id = auth_found alice

abbrev creations : AuthInfo → Creation
creations user = auth_created

abbrev with_user : Payload
with_user = record identified { auth_info = some alice }

user_injected :
    inject_auth_if_present users creations "user not found" identified no_response
    ≡ returned status_ok with_user no_response
unfolding inject_auth_if_present has_master_key is_token_still_valid
user_injected = refl

inject_auth_example : IsFresh identified.auth_info identified.access_token with_user.auth_info
inject_auth_example =
    inject_auth_if_present-IsFresh users creations "user not found" identified no_response with_user
      no_response user_injected

abbrev with_database : Payload
with_database = record with_user { database = some (private_db "alice") }

database_injected :
    inject_database with_user no_response ≡ returned status_ok with_database no_response
unfolding inject_database text_at Dict.lookup
database_injected = refl

no_master_key : has_master_key with_user ≡ false
unfolding has_master_key
no_master_key = refl

inject_database_example : IsOwn with_user.auth_info with_database.database
inject_database_example =
    inject_database-IsOwn with_user no_response with_database no_response no_master_key
      database_injected

admin_passed :
    require_admin_or_master_key (some ("writer" ∷ [])) (plain "lost") with_user no_response
    ≡ returned status_ok with_user no_response
unfolding require_admin_or_master_key has_master_key has_any_roles string_slice_contain_any str_at
admin_passed = refl

require_admin_example :
    (user : AuthInfo) × (with_user.auth_info ≡ some user)
    × ((admin_roles : List String) × (some ("writer" ∷ []) ≡ some admin_roles)
        × (any (contains user.roles) admin_roles ≡ true))
require_admin_example =
    require_admin_or_master_key_lem (some ("writer" ∷ [])) (plain "lost") with_user no_response
      status_ok with_user no_response no_master_key admin_passed refl

abbrev answer_user : Handler
answer_user p r = finished (record r { outcome = some (text p.auth_info_id) })

abbrev processors : List Processor
processors = authenticate_user tokens keys ∷ inject_database ∷ []

call_handler_example :
    ((s' : ℕ) × (a' : Payload) × (r' : Response) × Passes processors status_ok request no_response
        s' a' r'
      × (call_handler answer_user processors request no_response ≡ handled s' (answer_user a' r')))
    ⊎ (((other : Handler)
          → call_handler other processors request no_response
            ≡ call_handler answer_user processors request no_response)
        × ((call_handler answer_user processors request no_response).1.err ≢ none))
call_handler_example = call_handler_lem processors answer_user request no_response

-- A hash that is the password itself.
abbrev accepts_same : Option String → String → Bool
accepts_same none password = false
accepts_same (some hash) password = hash == password

plain_bcrypt : Bcrypt
plain_bcrypt = record {
  generate = λ password. some password;
  accepts = accepts_same;
  accepts_generated = λ password hash h. ground (arith, eq_iff hash password);
}

abbrev alice_with_password : AuthInfo
alice_with_password = record alice {
  hashed_password = some "secret";
  token_valid_since = some 5000000000;
}

password_set : set_password plain_bcrypt 5000000000 "secret" alice ≡ some alice_with_password
unfolding set_password plain_bcrypt
password_set = refl

abbrev old_token : AccessToken
old_token = record { issued_at = some 4000000000 }

abbrev changed_user : String → AuthLookup
changed_user id = auth_found alice_with_password

abbrev with_old_token : Payload
with_old_token = record identified { access_token = some old_token }

set_password-revokes_example :
    (4000000000 + 1000000000 ≤ 5000000000
      → inject_auth_if_present changed_user creations "user not found" with_old_token no_response
        ≡ unauthorized with_old_token no_response
            (new_error access_token_not_accepted "token does not exist or it has expired"))
    × (5000000000 < 4000000000 + 1000000000
        → inject_auth_if_present changed_user creations "user not found" with_old_token no_response
          ≡ returned status_ok
              (record with_old_token { auth_info = some alice_with_password })
              no_response)
set_password-revokes_example =
    set_password-revokes changed_user creations "user not found" plain_bcrypt 5000000000 "secret"
      alice alice_with_password with_old_token no_response old_token 4000000000 password_set refl
      refl refl refl
