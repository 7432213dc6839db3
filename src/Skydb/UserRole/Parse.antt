-- ===== src/Skydb/UserRole/Parse.antt =====
-- Parsing and printing of user roles in pkg/server/skydb/access.go: `ParseFieldUserRole` and `String`.
use Prim.Native.Char.{Char}
use Prim.Native.String.{◌++◌}
use skygear_server.Common.{
  String, ◌≡◌, refl, ap, ◌∙◌, true, false, ◌||◌, ◌⊎◌, inl, inr, Option, none, some, ◌==◌, eq_iff,
  arith,
}
use skygear_server.Common.Text.{
  split2, has_code, split2-append, split2_absent, rejoin, rejoin-split2, append_cons, append_nil,
}
use skygear_server.Skydb.UserRole.{
  FieldUserRoleType, FieldUserRole, owner_type, specific_user_type, dynamic_user_type,
  defined_role_type, any_user_type, public_type, is_bare, is_detailed, role_of_components,
  parse_field_user_role, role_string,
}

abbrev colon : Char
colon = ":"

-- A role that `ParseFieldUserRole` can return.
abbrev pub IsWellFormed : FieldUserRole → Type 0
IsWellFormed r = ((is_bare r.type ≡ true) × (r.detail ≡ "")) ⊎ (is_detailed r.type ≡ true)

has_code_of : (t u : String) → (t == u) ≡ true → has_code b':' t ≡ has_code b':' u
has_code_of t u h = ap (has_code b':') ((eq_iff t u).0 h)

no_colon : (t : FieldUserRoleType) → (is_bare t || is_detailed t) ≡ true → has_code b':' t ≡ false
unfolding has_code
no_colon t h = ground (
  arith,
  has_code_of t owner_type,
  has_code_of t specific_user_type,
  has_code_of t dynamic_user_type,
  has_code_of t defined_role_type,
  has_code_of t any_user_type,
  has_code_of t public_type,
)

is_bare_of : (t u : String) → (t == u) ≡ true → is_bare t ≡ is_bare u
is_bare_of t u h = ap (λ (x : String). is_bare x) ((eq_iff t u).0 h)

bare-not-detailed : (t : FieldUserRoleType) → is_detailed t ≡ true → is_bare t ≡ false
bare-not-detailed t h = ground (
  arith,
  is_bare_of t specific_user_type,
  is_bare_of t dynamic_user_type,
  is_bare_of t defined_role_type,
)

colon_append : (s : String) → (":" ++ s) ≡ String.◌∷◌ colon s
colon_append s = append_cons colon String.[] s ∙ ap (String.◌∷◌ colon) (append_nil s)

parse_bare :
    (t : FieldUserRoleType)
    → is_bare t ≡ true
    → parse_field_user_role t ≡ some (record { type = t; detail = "" })
unfolding parse_field_user_role
parse_bare t b = rw (split2_absent b':' t (no_colon t (ground arith))) (ground arith)

parse_detailed :
    (t : FieldUserRoleType) (detail : String)
    → is_detailed t ≡ true
    → parse_field_user_role (t ++ (":" ++ detail)) ≡ some (record { type = t; detail = detail })
unfolding parse_field_user_role
parse_detailed t detail b = rw (
  colon_append detail,
  split2-append b':' t colon detail refl (no_colon t (ground arith)),
  bare-not-detailed t b,
  b,
)

role_string_bare : (r : FieldUserRole) → is_bare r.type ≡ true → role_string r ≡ some r.type
unfolding role_string
role_string_bare r b = rw b

role_string_detailed :
    (r : FieldUserRole)
    → is_detailed r.type ≡ true
    → role_string r ≡ some (r.type ++ (":" ++ r.detail))
unfolding role_string
role_string_detailed r b = rw (bare-not-detailed r.type b, b)

-- Printing a role of a known type, with no detail where its type takes none, and parsing the text
-- gives the role.
pub parse-role_string :
    (r : FieldUserRole) {s : String}
    → IsWellFormed r
    → role_string r ≡ some s
    → parse_field_user_role s ≡ some r
parse-role_string r (inl (b, d)) h = cc (parse_bare r.type b, role_string_bare r b)
parse-role_string r (inr b) h = cc (parse_detailed r.type r.detail b, role_string_detailed r b)

role_string-components :
    (t : String) (rest : Option String) {r : FieldUserRole}
    → role_of_components (t, rest) ≡ some r
    → (role_string r ≡ some (rejoin colon (t, rest))) × IsWellFormed r
unfolding role_of_components role_string
role_string-components t none h = ground arith
role_string-components t (some rest) {r} h = ground (arith, colon_append rest, bare-not-detailed t)

-- Printing a role that was parsed from a text gives that text, and the role has a detail only if its
-- type takes one.
pub role_string-parse :
    (s : String) {r : FieldUserRole}
    → parse_field_user_role s ≡ some r
    → (role_string r ≡ some s) × IsWellFormed r
unfolding parse_field_user_role
role_string-parse s h =
    let (p, w) = role_string-components (split2 b':' s).0 (split2 b':' s).1 h in
    (p ∙ ap some (rejoin-split2 colon s), w)
