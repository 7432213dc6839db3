-- ===== src/Skydb/UserRole.antt =====
-- pkg/server/skydb/access.go, lines 336-505: the user roles of field access control.
pub mod Order
pub mod Parse
pub mod Match
use Prim.Native.Nat.{Ordering}
use Prim.Native.String.{◌++◌, compare}
use skygear_server.Common.{
  String, Bool, true, false, not, ◌&&◌, ◌||◌, Option, none, some, List, [], ◌∷◌, ◌==◌,
  if◌then◌else◌, contains,
}
use skygear_server.Common.Order.{then_compare}
use skygear_server.Common.Text.{split2}
use skygear_server.Skydb.AuthInfo.{AuthInfo}
use skygear_server.Skydb.Record
use skygear_server.Skydb.Record.{Record}
use skygear_server.Skydb.Value.{Value, Items, text, slice, nil, cons}

-- `type FieldUserRoleType string`
abbrev pub FieldUserRoleType : Type 0
FieldUserRoleType = String

abbrev pub owner_type : FieldUserRoleType
owner_type = "_owner"

abbrev pub specific_user_type : FieldUserRoleType
specific_user_type = "_user_id"

abbrev pub dynamic_user_type : FieldUserRoleType
dynamic_user_type = "_field"

abbrev pub defined_role_type : FieldUserRoleType
defined_role_type = "_role"

abbrev pub any_user_type : FieldUserRoleType
any_user_type = "_any_user"

abbrev pub public_type : FieldUserRoleType
public_type = "_public"

pub record FieldUserRole : Type 0 where
  pub type : FieldUserRoleType
  pub detail : String  -- `Data`

-- The loop of `FieldUserRoleType.Compare`; the signs -1, 0 and 1 are `lt`, `eq` and `gt`.
pub first_of_two : FieldUserRoleType → FieldUserRoleType → List FieldUserRoleType → Ordering
first_of_two a b [] = Ordering.eq
first_of_two a b (each ∷ types) =
    let rest = first_of_two a b types in
    if a == each then Ordering.lt else if b == each then Ordering.gt else rest

abbrev pub evaluation_order : List FieldUserRoleType
evaluation_order =
    owner_type ∷ specific_user_type ∷ dynamic_user_type ∷ defined_role_type ∷ any_user_type
    ∷ public_type ∷ []

unfoldable pub type_compare : FieldUserRoleType → FieldUserRoleType → Ordering
unfolding first_of_two
type_compare a b = if a == b then Ordering.eq else first_of_two a b evaluation_order

unfoldable pub record_dependent : FieldUserRoleType → Bool
record_dependent t = t == owner_type || t == dynamic_user_type

-- The roles with no detail, and those with one: the groups of cases of the source's `switch`es.
abbrev pub is_bare : FieldUserRoleType → Bool
is_bare t = t == owner_type || (t == any_user_type || t == public_type)

abbrev pub is_detailed : FieldUserRoleType → Bool
is_detailed t = t == specific_user_type || (t == dynamic_user_type || t == defined_role_type)

bare_role : FieldUserRoleType → Option String → Option FieldUserRole
bare_role t none = some (record { type = t; detail = "" })
bare_role t (some rest) = none

detailed_role : FieldUserRoleType → Option String → Option FieldUserRole
detailed_role t none = none
detailed_role t (some rest) = some (record { type = t; detail = rest })

role_of_components : String × Option String → Option FieldUserRole
unfolding bare_role detailed_role
role_of_components (t, rest) =
    if is_bare t then bare_role t rest else if is_detailed t then detailed_role t rest else none

-- `none` is the error "unexpected user role string". The separator is `:`.
unfoldable pub parse_field_user_role : String → Option FieldUserRole
unfolding role_of_components
parse_field_user_role role_string = role_of_components (split2 b':' role_string)

-- `FieldUserRole.String`; `none` is the panic at another type.
unfoldable pub role_string : FieldUserRole → Option String
role_string r =
    if is_bare r.type
    then some r.type
    else if is_detailed r.type
    then some (r.type ++ (":" ++ r.detail))
    else none

unfoldable pub role_compare : FieldUserRole → FieldUserRole → Ordering
unfolding type_compare
role_compare r other = then_compare (type_compare r.type other.type) (compare r.detail other.detail)

-- The loop over `[]interface{}`.
pub any_item_is : String → Items → Bool
any_item_is id nil = false
any_item_is id (cons (text user_id) items) = if user_id == id then true else any_item_is id items
any_item_is id (cons _ items) = any_item_is id items

-- The type switch on the field's value.
pub value_names : String → Value → Bool
unfolding any_item_is
value_names id (text field_val) = id == field_val
value_names id (slice items) = any_item_is id items
value_names id _ = false

-- `none` is the panic of `Record.Get` at an empty field name.
match_dynamic : FieldUserRole → AuthInfo → Record → Option Bool
unfolding value_names
match_dynamic r auth_info rec = elim (Record.get r.detail rec) [
  | none ↦ none
  | some field_val ↦ some (value_names auth_info.id field_val)
]

-- The loop over the user's roles.
any_role_is : String → List String → Bool
any_role_is detail [] = false
any_role_is detail (role ∷ roles) = if role == detail then true else any_role_is detail roles

-- The `switch` for a user; the record is given where the role depends on it.
match_user : FieldUserRole → AuthInfo → Option Record → Option Bool
unfolding match_dynamic any_role_is
match_user r user rec =
    if r.type == owner_type
    then elim rec [ none ↦ none | some x ↦ some (x.owner_id == user.id) ]
    else if r.type == specific_user_type
    then some (user.id == r.detail)
    else if r.type == dynamic_user_type
    then elim rec [ none ↦ none | some x ↦ match_dynamic r user x ]
    else if r.type == defined_role_type
    then some (any_role_is r.detail user.roles)
    else if r.type == any_user_type
    then some true
    else none

abbrev is_none {ℓ} : {A : Type ℓ} → Option A → Bool
is_none none = true
is_none (some a) = false

-- `FieldUserRole.Match`; `none` is a panic.
unfoldable pub match : FieldUserRole → Option AuthInfo → Option Record → Option Bool
unfolding match_user record_dependent
match r authinfo rec = if r.type == public_type then some true else elim authinfo [
  | none ↦ some false
  | some user ↦ if record_dependent r.type && is_none rec then some false else match_user r user rec
]
