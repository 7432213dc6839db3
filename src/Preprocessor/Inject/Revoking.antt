-- ===== src/Preprocessor/Inject/Revoking.antt =====
-- `SetPassword` of pkg/server/skydb/authinfo.go, and the test of the token by `InjectAuthIfPresent` of
-- pkg/server/preprocessor/preprocessor.go.
use skygear_server.Common.{
  ℕ, ◌+◌, ◌≤◌, ◌<◌, String, ◌≡◌, inl, inr, ap, ◌∙◌, false, some, ◌==◌, arith, leb, Option-cases,
}
use skygear_server.Skyerr.{new_error, access_token_not_accepted}
use skygear_server.Skydb.AuthInfo.{AuthInfo, Bcrypt, set_password}
use skygear_server.Router.{AccessToken, Payload, Response, returned, status_ok}
use skygear_server.Preprocessor.Auth.{unauthorized}
use skygear_server.Preprocessor.Inject.{
  AuthLookup, auth_found, Creation, issued_late_enough, valid_since, is_token_still_valid, is_stale,
  inject_found, inject_by, inject_auth_if_present,
}

set_password-valid_since :
    (b : Bcrypt) (now : ℕ) (password : String) (info info' : AuthInfo)
    → set_password b now password info ≡ some info'
    → info'.token_valid_since ≡ some now
unfolding set_password
set_password-valid_since b now password info info' h = elim (Option-cases (b.generate password)) [
  | inl e ↦ absurd (ground arith)
  | inr (hash, e) ↦ ground arith
]

-- A token is stale exactly if it was issued a second or more before the user's time.
is_stale_of_times :
    (t : AccessToken) (user : AuthInfo) (issued since : ℕ)
    → t.issued_at ≡ some issued
    → user.token_valid_since ≡ some since
    → is_stale (some t) user ≡ leb (issued + 1000000000) since
unfolding is_token_still_valid valid_since issued_late_enough
is_stale_of_times t user issued since e f = ground (arith, e, f)

module _ (get_auth : String → AuthLookup) (create_auth : AuthInfo → Creation)
    (user_not_found_text : String) where
  -- Suppose that a password was set at the time `now`, and that a request of this user has a token with an
  -- issue time. If the token was issued a second (10^9 nanoseconds) or more before, then
  -- `InjectAuthIfPresent` leaves the payload as it was, with an error and the status 401; else it gives the
  -- request the user and no error.
  pub set_password-revokes :
      (b : Bcrypt) (now : ℕ) (password : String) (info info' : AuthInfo) (p : Payload)
      (r : Response) (t : AccessToken) (issued : ℕ)
      → set_password b now password info ≡ some info'
      → get_auth p.auth_info_id ≡ auth_found info'
      → (p.auth_info_id == "") ≡ false
      → p.access_token ≡ some t
      → t.issued_at ≡ some issued
      → (issued + 1000000000 ≤ now
          → inject_auth_if_present get_auth create_auth user_not_found_text p r
            ≡ unauthorized p r
                (new_error access_token_not_accepted "token does not exist or it has expired"))
        × (now < issued + 1000000000
            → inject_auth_if_present get_auth create_auth user_not_found_text p r
              ≡ returned status_ok (record p { auth_info = some info' }) r)
  unfolding inject_auth_if_present inject_by inject_found
  set_password-revokes b now password info info' p r t issued h found known token at =
      let since = set_password-valid_since b now password info info' h in
      let stale : is_stale p.access_token info' ≡ leb (issued + 1000000000) now =
        ap (λ o. is_stale o info') token ∙ is_stale_of_times t info' issued now at since in
      (
        λ old. ground (arith, found, known, stale, old),
        λ young. ground (arith, found, known, stale, young),
      )
