-- ===== src/Skydb/Record.antt =====
-- pkg/server/skydb/record.go, lines 160-346: a record, and reading, writing and merging its fields.
-- `none` is a panic of the source: an index out of range, a failed type assertion, a write to a nil map,
-- or a call of `panic`. A nil map is `none` too, in the fields `contents` (`Data`) and `transient`.

pub mod Keys
pub mod Merge
pub mod Access
pub mod Identity
use Prim.Native.Char.{code}
use skygear_server.Common.{
  ℕ, String, Bool, true, false, not, ◌&&◌, Option, none, some, List, [], ◌∷◌, nat_eq, ◌==◌,
  if◌then◌else◌,
}
use skygear_server.Common.Dict
use skygear_server.Common.Dict.{Dict}
use skygear_server.Common.Text.{strip_prefix}
use skygear_server.Skydb.Acl.{RecordAclLevel, RecordAcl}
use skygear_server.Skydb.Access as Acl
use skygear_server.Skydb.AuthInfo.{AuthInfo}
use skygear_server.Skydb.Value.{
  Value, Fields, Data, RecordId, null, text, time, acl, nil_transient, transient, end, field,
}

pub record Record : Type 0 where
  pub id : RecordId
  pub database_id : String
  pub owner_id : String
  pub created_at : ℕ
  pub creator_id : String
  pub updated_at : ℕ
  pub updater_id : String
  pub access : Option RecordAcl
  pub contents : Option Data
  pub transient : Option Data

-- Reading and ranging over a nil map find nothing.
abbrev pub entries {ℓ} : {V : Type ℓ} → Option (Dict V) → Dict V
entries none = []
entries (some m) = m

-- The cases of the `switch` on the key that `Get` and `Set` share; `no_key` is the empty key, at which
-- `key[0]` is out of range.
pub data Key : Type 0 where
  no_key type_key id_key database_id_key owner_id_key access_key created_at_key : Key
  created_by_key updated_at_key updated_by_key transient_map_key unknown_key : Key
  transient_key : String → Key
  user_key : String → Key

transient_or_unknown : Option String → Key
transient_or_unknown none = unknown_key
transient_or_unknown (some name) = transient_key name

reserved_key_of : String → Key
unfolding transient_or_unknown
reserved_key_of key =
    if key == "_type"
    then type_key
    else if key == "_id"
    then id_key
    else if key == "_database_id"
    then database_id_key
    else if key == "_owner_id"
    then owner_id_key
    else if key == "_access"
    then access_key
    else if key == "_created_at"
    then created_at_key
    else if key == "_created_by"
    then created_by_key
    else if key == "_updated_at"
    then updated_at_key
    else if key == "_updated_by"
    then updated_by_key
    else if key == "_transient"
    then transient_map_key
    else transient_or_unknown (strip_prefix "_transient_" key)

unfoldable pub key_of : String → Key
unfolding reserved_key_of
key_of String.[] = no_key
key_of (String.◌∷◌ c rest) =
    if nat_eq (code c) b'_'
    then reserved_key_of (String.◌∷◌ c rest)
    else user_key (String.◌∷◌ c rest)

abbrev or_null : Option Value → Value
or_null none = null
or_null (some v) = v

unfoldable pub to_fields : Data → Fields
to_fields [] = end
to_fields ((k, v) ∷ m) = field k v (to_fields m)

unfoldable pub from_fields : Fields → Data
from_fields end = []
from_fields (field k v m) = (k, v) ∷ from_fields m

transient_value : Option Data → Value
unfolding to_fields
transient_value none = nil_transient
transient_value (some m) = transient (to_fields m)

pub get_at : Key → Record → Option Value
unfolding transient_value
get_at no_key r = none
get_at type_key r = some (text r.id.type)
get_at id_key r = some (text r.id.key)
get_at database_id_key r = some (text r.database_id)
get_at owner_id_key r = some (text r.owner_id)
get_at access_key r = some (acl r.access)
get_at created_at_key r = some (time r.created_at)
get_at created_by_key r = some (text r.creator_id)
get_at updated_at_key r = some (time r.updated_at)
get_at updated_by_key r = some (text r.updater_id)
get_at transient_map_key r = some (transient_value r.transient)
get_at unknown_key r = some null
get_at (transient_key name) r = some (or_null (Dict.lookup name (entries r.transient)))
get_at (user_key key) r = some (or_null (Dict.lookup key (entries r.contents)))

unfoldable pub get : String → Record → Option Value
unfolding get_at
get key r = get_at (key_of key) r

-- `i.(string)`, `i.(time.Time)`
with_text : Value → (String → Record) → Option Record
with_text (text s) f = some (f s)
with_text _ f = none

with_time : Value → (ℕ → Record) → Option Record
with_time (time t) f = some (f t)
with_time _ f = none

set_access : Value → Record → Option Record
set_access (acl a) r = some (record r { access = a })
set_access _ r = none

set_transient_map : Value → Record → Option Record
unfolding from_fields
set_transient_map nil_transient r = some (record r { transient = none })
set_transient_map (transient m) r = some (record r { transient = some (from_fields m) })
set_transient_map _ r = none

set_user_key : String → Value → Option Data → Record → Option Record
set_user_key key v none r = none
set_user_key key v (some m) r = some (record r { contents = some (Dict.insert key v m) })

pub set_at : Key → Value → Record → Option Record
unfolding with_text with_time set_access set_transient_map set_user_key
set_at no_key v r = none
set_at type_key v r = with_text v (λ s. record r { id = record { type = s; key = r.id.key } })
set_at id_key v r = with_text v (λ s. record r { id = record { type = r.id.type; key = s } })
set_at database_id_key v r = with_text v (λ s. record r { database_id = s })
set_at owner_id_key v r = with_text v (λ s. record r { owner_id = s })
set_at access_key v r = set_access v r
set_at created_at_key v r = with_time v (λ t. record r { created_at = t })
set_at created_by_key v r = with_text v (λ s. record r { creator_id = s })
set_at updated_at_key v r = with_time v (λ t. record r { updated_at = t })
set_at updated_by_key v r = with_text v (λ s. record r { updater_id = s })
set_at transient_map_key v r = set_transient_map v r
set_at unknown_key v r = none
set_at (transient_key name) v r =
    some (record r { transient = some (Dict.insert name v (entries r.transient)) })
set_at (user_key key) v r = set_user_key key v r.contents r

unfoldable pub set : String → Value → Record → Option Record
unfolding set_at
set key v r = set_at (key_of key) v r

abbrev delete_key : String → Option Data → Option Data
delete_key key none = none
delete_key key (some m) = some (Dict.delete key m)

pub remove_at : Key → Record → Option Record
remove_at (user_key key) r = some (record r { contents = delete_key key r.contents })
remove_at _ r = none

unfoldable pub remove : String → Record → Option Record
unfolding remove_at
remove key r = remove_at (key_of key) r

unfoldable pub user_keys : Record → List String
user_keys r = Dict.keys (entries r.contents)

abbrev pub user_id_of : Option AuthInfo → String
user_id_of none = ""
user_id_of (some user) = user.id

accessible_by_list : RecordAcl → Record → Option AuthInfo → RecordAclLevel → Bool
accessible_by_list list r authinfo level =
    if not (r.database_id == "") && not (r.database_id == user_id_of authinfo)
    then false
    else if r.owner_id == user_id_of authinfo
    then true
    else Acl.accessible list authinfo level

unfoldable pub accessible : Record → Option AuthInfo → RecordAclLevel → Bool
unfolding accessible_by_list
accessible r authinfo level = elim (r.access) [
  | none ↦ true
  | some list ↦ accessible_by_list list r authinfo level
]

-- `Data.Copy`
unfoldable pub copy_data : Data → Data
copy_data d = Dict.update_all [] d

abbrev copy_map : Option Data → Option Data
copy_map none = none
copy_map (some d) = some (copy_data d)

unfoldable pub copy : Record → Record
unfolding copy_data
copy r = record r { contents = copy_map r.contents; transient = copy_map r.transient }

-- `if src != nil { if dst == nil { dst = Data{} }; for k, v := range src { dst[k] = v } }`
abbrev overlay : Option Data → Option Data → Option Data
overlay dst none = dst
overlay dst (some src) = some (Dict.update_all (entries dst) src)

unfoldable pub apply : Record → Record → Record
apply r src = record r {
  access = src.access;
  contents = overlay r.contents src.contents;
  transient = overlay r.transient src.transient;
}

unfoldable pub merged_copy : Record → Record → Record
unfolding copy apply
merged_copy r merge = apply (copy r) merge
