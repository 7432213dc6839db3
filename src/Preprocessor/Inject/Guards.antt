-- ===== src/Preprocessor/Inject/Guards.antt =====
-- `RequireAdminOrMasterKey` and `InjectAuthIfPresent` of pkg/server/preprocessor/preprocessor.go.
use skygear_server.Common.{
  ℕ, ◌+◌, ◌<◌, String, ◌≡◌, ◌⊎◌, inl, inr, refl, sym, ◌∙◌, true, false, Option, none, some, List,
  ◌==◌, arith, Bool-cases, contains, any, ltb→lt,
}
use skygear_server.Skydb.AuthInfo.{AuthInfo, has_any_roles}
use skygear_server.Skyerr.{GoError}
use skygear_server.Utils.Slices.{string_slice_contain_any_lem}
use skygear_server.Router.{
  AccessToken, Payload, Response, Step, returned, panicked, has_master_key, status_ok,
}
use skygear_server.Preprocessor.Inject.{
  AuthLookup, auth_found, user_not_found, auth_failed, Creation, auth_created, auth_duplicated,
  creation_failed, issued_late_enough, valid_since, is_token_still_valid, is_stale, inject_found,
  auth_info_with_id, after_creation, auth_error, inject_by, inject_auth_if_present, has_admin_role,
  require_admin_or_master_key,
}

abbrev IsAdmin : Option (List String) → Option AuthInfo → Type 0
IsAdmin roles auth_info =
    (user : AuthInfo) × (auth_info ≡ some user)
    × ((admin_roles : List String) × (roles ≡ some admin_roles)
        × (any (contains user.roles) admin_roles ≡ true))

has_admin_role_lem :
    (admin_roles_error : GoError) (get_admin_roles roles : Option (List String))
    (o : Option AuthInfo) (p : Payload) (r : Response) (status : ℕ) (p' : Payload) (r' : Response)
    → has_admin_role get_admin_roles admin_roles_error roles o p r ≡ returned status p' r'
    → r'.err ≡ none
    → IsAdmin roles o
unfolding has_admin_role
has_admin_role_lem err all roles none p r status p' r' h ok = absurd (ground arith)
has_admin_role_lem err all none (some user) p r status p' r' h ok = absurd (ground arith)
has_admin_role_lem err all (some roles) (some user) p r status p' r' h ok =
    elim (Bool-cases (has_any_roles user roles)) [
      | inl b ↦ (
        user,
        refl,
        (
          roles,
          refl,
          sym (string_slice_contain_any_lem user.roles roles) ∙ unfold has_any_roles in b,
        ),
      )
      | inr b ↦ absurd (ground arith)
    ]

-- If `RequireAdminOrMasterKey` leaves no error in the response of a request without the master key, which is
-- when `callHandler` goes on with the request, then its user has one of the admin roles.
pub require_admin_or_master_key_lem :
    (get_admin_roles : Option (List String)) (admin_roles_error : GoError) (p : Payload)
    (r : Response) (status : ℕ) (p' : Payload) (r' : Response)
    → has_master_key p ≡ false
    → require_admin_or_master_key get_admin_roles admin_roles_error p r ≡ returned status p' r'
    → r'.err ≡ none
    → (user : AuthInfo) × (p.auth_info ≡ some user)
      × ((admin_roles : List String) × (get_admin_roles ≡ some admin_roles)
          × (any (contains user.roles) admin_roles ≡ true))
unfolding require_admin_or_master_key
require_admin_or_master_key_lem get_admin_roles err p r status p' r' m h ok =
    has_admin_role_lem err get_admin_roles get_admin_roles p.auth_info p r status p' r'
      (ground arith) ok

abbrev user_of : Step → Option AuthInfo
user_of (returned s p r) = p.auth_info
user_of (panicked r e) = none

-- The user of the payload was not there before, and the token is not too old for the user.
abbrev pub IsFresh : Option AuthInfo → Option AccessToken → Option AuthInfo → Type 0
IsFresh before token after =
    (after ≡ before)
    ⊎ ((user : AuthInfo) × (after ≡ some user)
        × ((t : AccessToken) (issued since : ℕ)
            → token ≡ some t
            → t.issued_at ≡ some issued
            → user.token_valid_since ≡ some since
            → since < issued + 1000000000))

fresh_of :
    (token : Option AccessToken) (user : AuthInfo)
    → is_stale token user ≡ false
    → (t : AccessToken) (issued since : ℕ) → token ≡ some t
    → t.issued_at ≡ some issued
    → user.token_valid_since ≡ some since
    → since < issued + 1000000000
unfolding is_token_still_valid valid_since issued_late_enough
fresh_of token user h t issued since e f g =
    ltb→lt since (issued + 1000000000) (ground (arith, e, f, g))

inject_found-IsFresh :
    (user : AuthInfo) (p : Payload) (r : Response) (p' : Payload) (r' : Response)
    → inject_found user p r ≡ returned status_ok p' r'
    → IsFresh p.auth_info p.access_token p'.auth_info
unfolding inject_found
inject_found-IsFresh user p r p' r' h = elim (Bool-cases (is_stale p.access_token user)) [
  | inl b ↦ absurd (ground arith)
  | inr b ↦ inr (user, ground arith, fresh_of p.access_token user b)
]

after_creation-IsFresh :
    (c : Creation) (p : Payload) (r : Response) (p' : Payload) (r' : Response)
    → after_creation c p r ≡ returned status_ok p' r'
    → IsFresh p.auth_info p.access_token p'.auth_info
unfolding after_creation
after_creation-IsFresh creation_failed p r p' r' h = absurd (ground arith)
after_creation-IsFresh auth_created p r p' r' h = inject_found-IsFresh _ p r p' r' h
after_creation-IsFresh auth_duplicated p r p' r' h = inject_found-IsFresh _ p r p' r' h

module _ (get_auth : String → AuthLookup) (create_auth : AuthInfo → Creation)
    (user_not_found_text : String) where
  inject_by-IsFresh :
      (lookup : AuthLookup) (p : Payload) (r : Response) (p' : Payload) (r' : Response)
      → inject_by get_auth create_auth user_not_found_text lookup p r ≡ returned status_ok p' r'
      → IsFresh p.auth_info p.access_token p'.auth_info
  unfolding inject_by auth_error
  inject_by-IsFresh (auth_found user) p r p' r' h = inject_found-IsFresh user p r p' r' h
  inject_by-IsFresh user_not_found p r p' r' h = elim (Bool-cases (has_master_key p)) [
    | inl b ↦
        after_creation-IsFresh (create_auth (auth_info_with_id p.auth_info_id)) p r p' r'
          (ground arith)
    | inr b ↦ absurd (ground arith)
  ]
  inject_by-IsFresh (auth_failed m) p r p' r' h = absurd (ground arith)

  -- If `InjectAuthIfPresent` lets a request pass, then either it leaves its user as it was, or it sets a
  -- user, and if the request has a token with an issue time and the user has a time from which tokens
  -- are valid, then that time is less than a second (10^9 nanoseconds) after the issue.
  pub inject_auth_if_present-IsFresh :
      (p : Payload) (r : Response) (p' : Payload) (r' : Response)
      → inject_auth_if_present get_auth create_auth user_not_found_text p r
        ≡ returned status_ok p' r'
      → IsFresh p.auth_info p.access_token p'.auth_info
  unfolding inject_auth_if_present
  inject_auth_if_present-IsFresh p r p' r' h = elim (Bool-cases (p.auth_info_id == "")) [
    | inl b ↦ elim (Bool-cases (has_master_key p)) [
      | inl m ↦
          inject_by-IsFresh (get_auth "_god")
            (record p { auth_info_id = "_god"; context_user_id = some "_god" }) r p' r'
            (ground arith)
      | inr m ↦ inl (ground arith)
    ]
    | inr b ↦ inject_by-IsFresh (get_auth p.auth_info_id) p r p' r' (ground arith)
  ]
