-- ===== src/Preprocessor/Auth/Identity.antt =====
-- Whose request it is after `UserAuthenticator` of pkg/server/preprocessor/auth.go.
use skygear_server.Common.{
  ℕ, String, ◌≡◌, ◌≢◌, ◌⊎◌, inl, inr, refl, ap, sym, subst, ◌∙◌, true, false, not, ◌&&◌, none, some,
  ◌==◌, eq_iff, arith, Bool-cases, Option-cases,
}
use skygear_server.Router.{
  AccessKeyType, no_access_key, client_access_key, master_access_key, Payload, Response, Step,
  returned, panicked, api_key, access_token_string, has_master_key, text_at, or_empty,
}
use skygear_server.Preprocessor.Auth.{
  Token, TokenLookup, token_found, token_not_found, token_failed, Checked, accepted, rejected,
  check_keys, check_by, check_request_access_key, Keys, impersonate, impersonated, without_token,
  with_token, authenticate_by, authenticate_checked, authenticate_user,
}

-- The configured key is set and the request sent it.
abbrev pub Sent : String → Payload → Type 0
Sent key p = (key ≢ "") × (api_key p ≡ key)

-- The request sent the configured key, or it came with an access key of this type that was set before.
abbrev pub Holds : String → AccessKeyType → Payload → Type 0
Holds key kind p = Sent key p ⊎ (p.access_key ≡ kind)

-- What stands behind an access key after the check.
abbrev KeyMatches : Keys → Payload → AccessKeyType → Type 0
KeyMatches keys p no_access_key = api_key p ≡ ""
KeyMatches keys p client_access_key = Holds keys.client_key client_access_key p
KeyMatches keys p master_access_key = Holds keys.master_key master_access_key p

abbrev CheckedWell : Keys → Payload → Checked → Type 0
CheckedWell keys p (rejected e) = Unit
CheckedWell keys p (accepted p') =
    KeyMatches keys p p'.access_key
    × (p'.contents ≡ p.contents)
    × (p'.auth_info_id ≡ p.auth_info_id)

Sent-of : (key : String) (p : Payload) → (not (key == "") && api_key p == key) ≡ true → Sent key p
Sent-of key p h = (λ e. ground (arith, eq_iff key ""), ground (arith, eq_iff (api_key p) key))

-- The four outcomes of the check.
check_keys_lem :
    (keys : Keys) (p : Payload)
    → CheckedWell keys p (check_keys p (api_key p) keys.client_key keys.master_key)
unfolding check_keys
check_keys_lem keys p =
    elim (Bool-cases (not (keys.master_key == "") && api_key p == keys.master_key)) [
      | inl m ↦ rw m (inl (Sent-of keys.master_key p m), refl, refl)
      | inr m ↦ elim (Bool-cases (not (keys.client_key == "") && api_key p == keys.client_key)) [
        | inl c ↦ rw (m, c) (inl (Sent-of keys.client_key p c), refl, refl)
        | inr c ↦ elim (Bool-cases (api_key p == "")) [
          | inl e ↦ rw (m, c, e) ((eq_iff (api_key p) "").0 e, refl, refl)
          | inr e ↦ rw (m, c, e) tt
        ]
      ]
    ]

check_by_lem :
    (keys : Keys) (p : Payload) (key : AccessKeyType)
    → p.access_key ≡ key
    → CheckedWell keys p (check_by key p keys.client_key keys.master_key)
unfolding check_by
check_by_lem keys p no_access_key h = check_keys_lem keys p
check_by_lem keys p client_access_key h = (subst (KeyMatches keys p) (sym h) (inr h), refl, refl)
check_by_lem keys p master_access_key h = (subst (KeyMatches keys p) (sym h) (inr h), refl, refl)

-- The user that a request was given, and why.
abbrev pub Identified : (String → TokenLookup) → Keys → Payload → String → Type 0
Identified token_get keys p user_id =
    ((t : Token) × (access_token_string p ≢ "")
      × (token_get (access_token_string p) ≡ token_found t)
      × (user_id ≡ t.auth_info_id))
    ⊎ (((user_id ≡ p.auth_info_id)
          × (Holds keys.client_key client_access_key p ⊎ Holds keys.master_key master_access_key p))
        ⊎ ((text_at "_user_id" p.contents ≡ some user_id)
            × Holds keys.master_key master_access_key p))

access_token_string_of_contents :
    (q p : Payload) → q.contents ≡ p.contents → access_token_string q ≡ access_token_string p
unfolding access_token_string
access_token_string_of_contents q p e = ap (λ m. or_empty (text_at "access_token" m)) e

abbrev user_of : Step → String
user_of (returned s p r) = p.auth_info_id
user_of (panicked r e) = ""

impersonated_other : (q : Payload) → has_master_key q ≡ false → impersonated q ≡ q
unfolding impersonated
impersonated_other q h = rw h refl

impersonated-none : (q : Payload) → text_at "_user_id" q.contents ≡ none → impersonated q ≡ q
unfolding impersonated impersonate
impersonated-none q h = elim (Bool-cases (has_master_key q)) [
  | inl b ↦ rw (b, h) refl
  | inr b ↦ rw b refl
]

impersonated-some :
    (q : Payload) (user_id : String)
    → has_master_key q ≡ true
    → text_at "_user_id" q.contents ≡ some user_id
    → (impersonated q).auth_info_id ≡ user_id
unfolding impersonated impersonate
impersonated-some q user_id b h = rw (b, h) refl

has_master_key-eq-true : (q : Payload) → master_access_key ≡ q.access_key → has_master_key q ≡ true
unfolding has_master_key
has_master_key-eq-true q k = ground arith

has_master_key-eq-false :
    (q : Payload) → client_access_key ≡ q.access_key → has_master_key q ≡ false
unfolding has_master_key
has_master_key-eq-false q k = ground arith

module _ (token_get : String → TokenLookup) (keys : Keys) (p : Payload) where
  Identified-by_token :
      (q : Payload) (r : Response) (lookup : TokenLookup) (status : ℕ) (p' : Payload)
      (r' : Response)
      → access_token_string p ≢ ""
      → token_get (access_token_string p) ≡ lookup
      → with_token lookup q r ≡ returned status p' r'
      → r'.err ≡ none
      → Identified token_get keys p p'.auth_info_id
  unfolding with_token
  Identified-by_token q r token_not_found status p' r' n e h ok = absurd (ground arith)
  Identified-by_token q r (token_failed err) status p' r' n e h ok = absurd (ground arith)
  Identified-by_token q r (token_found t) status p' r' n e h ok = inl (t, n, e, cc)

  Identified-without_token :
      (q : Payload) (r : Response) (key : AccessKeyType) (status : ℕ) (p' : Payload) (r' : Response)
      → key ≡ q.access_key
      → CheckedWell keys p (accepted q)
      → without_token key keys.app_name q r ≡ returned status p' r'
      → r'.err ≡ none
      → Identified token_get keys p p'.auth_info_id
  unfolding without_token
  Identified-without_token q r no_access_key status p' r' k w h ok = absurd (ground arith)
  Identified-without_token q r client_access_key status p' r' k w h ok = inr (
      inl (
        ap user_of (sym h)
            ∙ ap (λ (x : Payload). x.auth_info_id)
                (impersonated_other q (has_master_key-eq-false q k))
            ∙ w.2,
        inl (subst (KeyMatches keys p) (sym k) w.0),
      ))
  Identified-without_token q r master_access_key status p' r' k w h ok =
      let sent = subst (KeyMatches keys p) (sym k) w.0 in
      elim (Option-cases (text_at "_user_id" q.contents)) [
        | inl e ↦ inr (
            inl (
              ap user_of (sym h)
                  ∙ ap (λ (x : Payload). x.auth_info_id) (impersonated-none q e)
                  ∙ w.2,
              inr sent,
            ))
        | inr (user_id, e) ↦ inr (
            inr (
              ap (text_at "_user_id") (sym w.1)
                  ∙ e
                  ∙ ap some (
                      sym (impersonated-some q user_id (has_master_key-eq-true q k) e)
                      ∙ ap user_of h),
              sent,
            ))
      ]

  Identified-checked :
      (c : Checked) (r : Response) (status : ℕ) (p' : Payload) (r' : Response)
      → CheckedWell keys p c
      → authenticate_checked token_get keys c p r ≡ returned status p' r'
      → r'.err ≡ none
      → Identified token_get keys p p'.auth_info_id
  unfolding authenticate_checked authenticate_by
  Identified-checked (rejected e) r status p' r' w h ok = absurd (ground arith)
  Identified-checked (accepted q) r status p' r' w h ok =
      let same = access_token_string_of_contents q p w.1 in
      elim (Bool-cases (access_token_string q == "")) [
        | inl e ↦ Identified-without_token q r q.access_key status p' r' refl w (ground arith) ok
        | inr e ↦
            Identified-by_token q r (token_get (access_token_string q)) status p' r'
              (λ n. ground (arith, eq_iff (access_token_string q) "")) (ap token_get (sym same))
              (ground arith) ok
      ]

  -- If `UserAuthenticator` leaves no error in the response, which is when `callHandler` goes on with the
  -- request, then its user is the one of the token that it sent and that the store holds; or it has the user
  -- it came with, and sent a configured key or came with an access key; or it names the user in `_user_id`,
  -- and sent the master key or came with the master access key.
  pub authenticate_user_lem :
      (r : Response) (status : ℕ) (p' : Payload) (r' : Response)
      → authenticate_user token_get keys p r ≡ returned status p' r'
      → r'.err ≡ none
      → Identified token_get keys p p'.auth_info_id
  unfolding authenticate_user check_request_access_key
  authenticate_user_lem r status p' r' h ok =
      Identified-checked (check_by p.access_key p keys.client_key keys.master_key) r status p' r'
        (check_by_lem keys p p.access_key refl) h ok
