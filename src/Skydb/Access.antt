-- ===== src/Skydb/Access.antt =====
-- pkg/server/skydb/access.go, lines 76-135: who may access a record by its access control list. A nil
-- `*AuthInfo` is `none`.
pub mod Grants
use skygear_server.Common.{
  String, Bool, true, false, ◌&&◌, ◌||◌, Option, none, some, List, [], ◌∷◌, ◌==◌, if◌then◌else◌,
}
use skygear_server.Skydb.Acl.{RecordAclLevel, read_level, write_level, RecordAclEntry, RecordAcl}
use skygear_server.Skydb.AuthInfo.{AuthInfo}

unfoldable pub accessible_level : RecordAclEntry → RecordAclLevel → Bool
accessible_level ace level =
    if level == read_level
    then true
    else if level == ace.level && level == write_level
    then true
    else false

-- The loop over the user's roles.
any_role_accessible : RecordAclEntry → RecordAclLevel → List String → Bool
any_role_accessible ace level [] = false
any_role_accessible ace level (role ∷ roles) =
    let rest = any_role_accessible ace level roles in
    if role == ace.role then (if accessible_level ace level then true else rest) else rest

user_accessible : RecordAclEntry → AuthInfo → RecordAclLevel → Bool
user_accessible ace authinfo level =
    if authinfo.id == ace.user_id && accessible_level ace level
    then true
    else any_role_accessible ace level authinfo.roles

unfoldable pub entry_accessible : RecordAclEntry → Option AuthInfo → RecordAclLevel → Bool
unfolding any_role_accessible user_accessible accessible_level
entry_accessible ace authinfo level =
    if ace.public
    then accessible_level ace level
    else elim authinfo [ none ↦ false | some user ↦ user_accessible ace user level ]

-- The loop of `RecordACL.Accessible`, from the value that `accessible` has.
any_entry : RecordAcl → Option AuthInfo → RecordAclLevel → Bool → Bool
any_entry [] authinfo level found = found
any_entry (ace ∷ entries) authinfo level found =
    any_entry entries authinfo level (if entry_accessible ace authinfo level then true else found)

unfoldable pub accessible : RecordAcl → Option AuthInfo → RecordAclLevel → Bool
unfolding any_entry
accessible [] authinfo level = true
accessible (ace ∷ entries) authinfo level = any_entry (ace ∷ entries) authinfo level false
