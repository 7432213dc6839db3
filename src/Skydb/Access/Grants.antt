-- ===== src/Skydb/Access/Grants.antt =====
-- What an access control list grants, said without the loops of `RecordACL.Accessible`.
use skygear_server.Common.{
  String, ◌≡◌, refl, sym, ◌∙◌, Bool, true, false, ◌&&◌, ◌||◌, Option, none, some, List, [], ◌∷◌,
  any, contains, arith, ◌==◌, if◌then◌else◌,
}
use skygear_server.Skydb.Acl.{
  RecordAclLevel, read_level, write_level, create_level, RecordAclEntry, RecordAcl,
}
use skygear_server.Skydb.AuthInfo.{AuthInfo}
use skygear_server.Skydb.Access.{
  accessible_level, any_role_accessible, any_entry, entry_accessible, accessible,
}

-- The entry names the user: everybody, the user's own id, or a role that the user has.
abbrev pub names : RecordAclEntry → Option AuthInfo → Bool
names ace none = ace.public
names ace (some user) = ace.public || user.id == ace.user_id || contains user.roles ace.role

-- A level that an entry of level `granted` covers.
abbrev pub covers : RecordAclLevel → RecordAclLevel → Bool
covers granted level = level == read_level || (level == granted && level == write_level)

any_role_accessible_lem :
    (ace : RecordAclEntry) (level : RecordAclLevel) (roles : List String)
    → any_role_accessible ace level roles ≡ (contains roles ace.role && covers ace.level level)
unfolding any_role_accessible accessible_level
any_role_accessible_lem ace level [] = refl
any_role_accessible_lem ace level (role ∷ roles) =
    ground (arith, any_role_accessible_lem ace level roles)

-- An entry grants a level exactly if it names the user and covers the level.
pub entry_accessible_lem :
    (ace : RecordAclEntry) (authinfo : Option AuthInfo) (level : RecordAclLevel)
    → entry_accessible ace authinfo level ≡ (names ace authinfo && covers ace.level level)
unfolding entry_accessible
entry_accessible_lem ace none level = ground arith
entry_accessible_lem ace (some user) level =
    ground (arith, any_role_accessible_lem ace level user.roles)

any_entry_lem :
    (acl : RecordAcl) (authinfo : Option AuthInfo) (level : RecordAclLevel) (found : Bool)
    → any_entry acl authinfo level found
      ≡ (found || any (λ ace. names ace authinfo && covers ace.level level) acl)
unfolding any_entry
any_entry_lem [] authinfo level found = ground arith
any_entry_lem (ace ∷ acl) authinfo level found = ground (
  arith,
  entry_accessible_lem ace authinfo level,
  any_entry_lem acl authinfo level (if entry_accessible ace authinfo level then true else found),
)

pub acl_accessible_lem :
    (acl : RecordAcl) (authinfo : Option AuthInfo) (level : RecordAclLevel)
    → accessible acl authinfo level ≡ elim acl [
      | [] ↦ true
      | ace ∷ entries ↦ any (λ e. names e authinfo && covers e.level level) (ace ∷ entries)
    ]
unfolding accessible
acl_accessible_lem [] authinfo level = refl
acl_accessible_lem (ace ∷ entries) authinfo level =
    any_entry_lem (ace ∷ entries) authinfo level false

any-covers_read :
    (acl : RecordAcl) (authinfo : Option AuthInfo)
    → any (λ e. names e authinfo && covers e.level write_level) acl ≡ true
    → any (λ e. names e authinfo && covers e.level read_level) acl ≡ true
any-covers_read [] authinfo h = h
any-covers_read (ace ∷ acl) authinfo h = ground (arith, any-covers_read acl authinfo)

-- Whoever may write a record by its access control list may read it.
pub write-implies-read :
    (acl : RecordAcl) (authinfo : Option AuthInfo)
    → accessible acl authinfo write_level ≡ true
    → accessible acl authinfo read_level ≡ true
write-implies-read [] authinfo h = acl_accessible_lem [] authinfo read_level
write-implies-read (ace ∷ acl) authinfo h =
    acl_accessible_lem (ace ∷ acl) authinfo read_level
    ∙ any-covers_read (ace ∷ acl) authinfo
        (sym (acl_accessible_lem (ace ∷ acl) authinfo write_level) ∙ h)

any-covers_create :
    (acl : RecordAcl) (authinfo : Option AuthInfo)
    → any (λ e. names e authinfo && covers e.level create_level) acl ≡ false
any-covers_create [] authinfo = refl
any-covers_create (ace ∷ acl) authinfo = ground (arith, any-covers_create acl authinfo)

-- A list that has an entry lets nobody create a record, whatever the levels of its entries are.
pub create_denied :
    (ace : RecordAclEntry) (entries : RecordAcl) (authinfo : Option AuthInfo)
    → accessible (ace ∷ entries) authinfo create_level ≡ false
create_denied ace entries authinfo =
    acl_accessible_lem (ace ∷ entries) authinfo create_level
    ∙ any-covers_create (ace ∷ entries) authinfo
