-- ===== src/Router.antt =====
-- pkg/server/router: the payload of a request (model.go), the status of an error (errors.go), and the
-- call of the preprocessors and the handler (common.go).
pub mod Pipeline
use skygear_server.Common.{
  ℕ, String, Bool, true, false, ◌&&◌, Option, none, some, List, [], ◌∷◌, nat_eq, leb, if◌then◌else◌,
}
use skygear_server.Common.Dict
use skygear_server.Common.Dict.{Dict}
use skygear_server.Skydb.AuthInfo.{AuthInfo}
use skygear_server.Skydb.Value.{Value, Data, text}
use skygear_server.Skyerr
use skygear_server.Skyerr.{Error, ErrorCode, new_error}

-- `http.Status...`
abbrev pub status_ok : ℕ
status_ok = 200

abbrev pub status_bad_request : ℕ
status_bad_request = 400

abbrev pub status_unauthorized : ℕ
status_unauthorized = 401

abbrev pub status_forbidden : ℕ
status_forbidden = 403

abbrev pub status_not_found : ℕ
status_not_found = 404

abbrev pub status_internal_server_error : ℕ
status_internal_server_error = 500

-- `AccessKeyType`
pub data AccessKeyType : Type 0 where
  no_access_key client_access_key master_access_key : AccessKeyType

-- `AccessToken`; an issue time for which `IsZero` holds is `none`. Times are nanoseconds.
pub record AccessToken : Type 0 where
  pub issued_at : Option ℕ

-- `skydb.Database`, as the calls of `skydb.Conn` select it.
pub data Database : Type 0 where
  public_db union_db : Database
  private_db : String → Database

-- The fields that the preprocessors read or write; `context_*` are the values of `Context`.
pub record Payload : Type 0 where
  pub contents : Data
  pub context_access_key : Option AccessKeyType
  pub context_user_id : Option String
  pub app_name : String
  pub auth_info_id : String
  pub auth_info : Option AuthInfo
  pub access_key : AccessKeyType
  pub access_token : Option AccessToken
  pub database : Option Database

-- `Err` and `Result`
pub record Response : Type 0 where
  pub err : Option Error
  pub outcome : Option Value

-- `v, ok := m[key].(string)`
abbrev as_text : Option Value → Option String
as_text (some (text s)) = some s
as_text _ = none

unfoldable pub text_at : String → Data → Option String
text_at key m = as_text (Dict.lookup key m)

abbrev pub or_empty : Option String → String
or_empty none = ""
or_empty (some s) = s

unfoldable pub api_key : Payload → String
unfolding text_at
api_key p = or_empty (text_at "api_key" p.contents)

unfoldable pub access_token_string : Payload → String
unfolding text_at
access_token_string p = or_empty (text_at "access_token" p.contents)

unfoldable pub has_master_key : Payload → Bool
has_master_key p = elim (p.access_key) [
  | no_access_key ↦ false
  | client_access_key ↦ false
  | master_access_key ↦ true
]

-- The map of `defaultStatusCode`.
abbrev statuses : List (ErrorCode × ℕ)
statuses =
    (Skyerr.not_authenticated, 401)
    ∷ (Skyerr.permission_denied, 403)
    ∷ (Skyerr.access_key_not_accepted, 401)
    ∷ (Skyerr.access_token_not_accepted, 401)
    ∷ (Skyerr.invalid_credentials, 401)
    ∷ (Skyerr.invalid_signature, 401)
    ∷ (Skyerr.bad_request, 400)
    ∷ (Skyerr.invalid_argument, 400)
    ∷ (Skyerr.incompatible_schema, 409)
    ∷ (Skyerr.atomic_operation_failure, 409)
    ∷ (Skyerr.partial_operation_failure, 200)
    ∷ (Skyerr.duplicated, 409)
    ∷ (Skyerr.constraint_violated, 409)
    ∷ (Skyerr.resource_not_found, 404)
    ∷ (Skyerr.undefined_operation, 404)
    ∷ (Skyerr.not_supported, 501)
    ∷ (Skyerr.not_implemented, 501)
    ∷ (Skyerr.plugin_unavailable, 503)
    ∷ (Skyerr.plugin_timeout, 504)
    ∷ (Skyerr.record_query_invalid, 400)
    ∷ (Skyerr.response_timeout, 503)
    ∷ (Skyerr.denied_argument, 403)
    ∷ (Skyerr.record_query_denied, 403)
    ∷ []

pub status_of : ErrorCode → List (ErrorCode × ℕ) → ℕ
status_of code [] = status_internal_server_error
status_of code ((c, status) ∷ rest) =
    let other = status_of code rest in if nat_eq c code then status else other

unfoldable pub default_status_code : Error → ℕ
unfolding status_of
default_status_code e = status_of e.code statuses

-- What `Preprocess` did: it returned a status, or it panicked with what `errorFromRecoveringPanic` turns
-- into the error; the payload and the response are as it left them.
pub data Step : Type 0 where
  returned : ℕ → Payload → Response → Step
  panicked : Response → Error → Step

-- What `Handle` did.
pub data Handled : Type 0 where
  finished : Response → Handled
  failed : Response → Error → Handled

abbrev pub Processor : Type 0
Processor = Payload → Response → Step

abbrev pub Handler : Type 0
Handler = Payload → Response → Handled

abbrev pub recovered : Response → Error → ℕ × Response
recovered response e = (default_status_code e, record response { err = some e })

abbrev pub handled : ℕ → Handled → ℕ × Response
handled status (finished response) = (status, response)
handled status (failed response e) = recovered response e

abbrev pub stopped : ℕ → Response → Error → ℕ × Response
stopped status response e =
    (if nat_eq status status_ok then default_status_code e else status, response)

-- `if resp.Err != nil { ... return }`
pub unless_error :
    Option Error → (ℕ → Payload → Response → ℕ × Response) → ℕ → Payload → Response → ℕ × Response
unless_error (some e) rest status payload response = stopped status response e
unless_error none rest status payload response = rest status payload response

-- One round of the loop of `callHandler`, with the rounds that follow.
pub after_step : (ℕ → Payload → Response → ℕ × Response) → Step → ℕ × Response
unfolding unless_error default_status_code
after_step rest (panicked response e) = recovered response e
after_step rest (returned status payload response) =
    unless_error response.err rest status payload response

-- The loop of `callHandler`, then the handler.
pub call_loop : List Processor → Handler → ℕ → Payload → Response → ℕ × Response
unfolding after_step default_status_code
call_loop [] handler status payload response = handled status (handler payload response)
call_loop (p ∷ pp) handler status payload response =
    after_step (call_loop pp handler) (p payload response)

unfoldable pub call_handler : Handler → List Processor → Payload → Response → ℕ × Response
unfolding call_loop
call_handler handler pp payload response = call_loop pp handler status_ok payload response

-- What `HandlePayload` writes when no timeout is exceeded: the status and the response.
abbrev written_status : ℕ → Option Error → ℕ
written_status status none = status
written_status status (some e) =
    if leb 200 status && leb status 299 then default_status_code e else status

unfoldable pub handle_payload :
    Option (Handler × List Processor) → Payload → Response → ℕ × Response
unfolding call_handler
handle_payload none payload response = (
  written_status status_not_found (some (new_error Skyerr.undefined_operation "route unmatched")),
  record response { err = some (new_error Skyerr.undefined_operation "route unmatched") },
)
handle_payload (some (handler, pp)) payload response =
    let (status, response') = call_handler handler pp payload response in
    (written_status status response'.err, response')
