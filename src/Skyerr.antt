-- ===== src/Skyerr.antt =====
-- pkg/server/skyerr/skyerr.go: the codes of errors, and errors as values.
use skygear_server.Common.{ℕ, String, List, []}

-- `type ErrorCode int`
abbrev pub ErrorCode : Type 0
ErrorCode = ℕ

abbrev pub not_authenticated : ErrorCode
not_authenticated = 101

abbrev pub permission_denied : ErrorCode
permission_denied = 102

abbrev pub access_key_not_accepted : ErrorCode
access_key_not_accepted = 103

abbrev pub access_token_not_accepted : ErrorCode
access_token_not_accepted = 104

abbrev pub invalid_credentials : ErrorCode
invalid_credentials = 105

abbrev pub invalid_signature : ErrorCode
invalid_signature = 106

abbrev pub bad_request : ErrorCode
bad_request = 107

abbrev pub invalid_argument : ErrorCode
invalid_argument = 108

abbrev pub duplicated : ErrorCode
duplicated = 109

abbrev pub resource_not_found : ErrorCode
resource_not_found = 110

abbrev pub not_supported : ErrorCode
not_supported = 111

abbrev pub not_implemented : ErrorCode
not_implemented = 112

abbrev pub constraint_violated : ErrorCode
constraint_violated = 113

abbrev pub incompatible_schema : ErrorCode
incompatible_schema = 114

abbrev pub atomic_operation_failure : ErrorCode
atomic_operation_failure = 115

abbrev pub partial_operation_failure : ErrorCode
partial_operation_failure = 116

abbrev pub undefined_operation : ErrorCode
undefined_operation = 117

abbrev pub plugin_unavailable : ErrorCode
plugin_unavailable = 118

abbrev pub plugin_timeout : ErrorCode
plugin_timeout = 119

abbrev pub record_query_invalid : ErrorCode
record_query_invalid = 120

abbrev pub plugin_initializing : ErrorCode
plugin_initializing = 121

abbrev pub response_timeout : ErrorCode
response_timeout = 122

abbrev pub denied_argument : ErrorCode
denied_argument = 123

abbrev pub record_query_denied : ErrorCode
record_query_denied = 124

abbrev pub unexpected_error : ErrorCode
unexpected_error = 10000

abbrev pub unexpected_auth_info_not_found : ErrorCode
unexpected_auth_info_not_found = 10001

-- `genericError`; of the map `info` only the list under the key `arguments` is kept, the one that the
-- constructors below fill.
pub record Error : Type 0 where
  pub code : ErrorCode
  pub message : String
  pub arguments : List String

unfoldable pub new_error : ErrorCode → String → Error
new_error code message = record { code = code; message = message; arguments = [] }

unfoldable pub new_invalid_argument : String → List String → Error
new_invalid_argument message arguments = record {
  code = invalid_argument;
  message = message;
  arguments = arguments;
}

unfoldable pub new_denied_argument : String → List String → Error
new_denied_argument message arguments = record {
  code = denied_argument;
  message = message;
  arguments = arguments;
}

-- An `error` of Go: one of the interface `Error`, or another with its text.
pub data GoError : Type 0 where
  sky : Error → GoError
  plain : String → GoError

unfoldable pub make_error : GoError → Error
unfolding new_error
make_error (sky e) = e
make_error (plain message) = new_error unexpected_error message
