-- ===== src/Skydb/UserRole/Match.antt =====
-- `FieldUserRole.Match` of pkg/server/skydb/access.go, role by role.
use skygear_server.Common.{◌≡◌, ◌≢◌, refl, true, ◌||◌, ◌⊎◌, Option, none, some, eq_iff, arith}
use skygear_server.Skydb.AuthInfo.{AuthInfo}
use skygear_server.Skydb.Record
use skygear_server.Skydb.Record.{Record}
use skygear_server.Skydb.Record.Keys.{get-ne-none}
use skygear_server.Common.Text.{split2}
use skygear_server.Skydb.UserRole.{
  FieldUserRole, dynamic_user_type, is_bare, is_detailed, match, match_dynamic,
  parse_field_user_role,
}

match_dynamic-ne-none :
    (r : FieldUserRole) (user : AuthInfo) (rec : Record)
    → r.detail ≢ ""
    → match_dynamic r user rec ≢ none
unfolding match_dynamic
match_dynamic-ne-none r user rec h = ground (arith, get-ne-none r.detail rec)

-- Matching a role whose type is known does not panic, for any user and record or none, unless the role
-- is dynamic and names no field.
pub match-ne-none :
    (r : FieldUserRole) (authinfo : Option AuthInfo) (rec : Option Record)
    → (is_bare r.type || is_detailed r.type) ≡ true
    → (r.type ≢ dynamic_user_type) ⊎ (r.detail ≢ "")
    → match r authinfo rec ≢ none
unfolding match
match-ne-none r none rec k h = ground arith
match-ne-none r (some user) none k h = ground arith
match-ne-none r (some user) (some x) k h =
    ground (arith, match_dynamic-ne-none r user x, eq_iff r.type dynamic_user_type)

-- The text `_field:` parses, to a role at which matching panics for every user and record.
pub empty_field_panics :
    (user : AuthInfo) (rec : Record)
    → (r : FieldUserRole) × (parse_field_user_role "_field:" ≡ some r)
      × (match r (some user) (some rec) ≡ none)
unfolding parse_field_user_role match split2 Record.get Record.key_of
empty_field_panics user rec = (record { type = dynamic_user_type; detail = "" }, refl, refl)
