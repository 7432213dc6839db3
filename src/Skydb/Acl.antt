-- ===== src/Skydb/Acl.antt =====
-- pkg/server/skydb/access.go, lines 24-74: the entries of a record's access control list.
use skygear_server.Common.{String, Bool, true, false, List}

-- `type RecordACLLevel string`
abbrev pub RecordAclLevel : Type 0
RecordAclLevel = String

abbrev pub read_level : RecordAclLevel
read_level = "read"

abbrev pub write_level : RecordAclLevel
write_level = "write"

abbrev pub create_level : RecordAclLevel
create_level = "create"

pub record RecordAclEntry : Type 0 where
  pub relation : String
  pub role : String
  pub level : RecordAclLevel
  pub user_id : String
  pub public : Bool

abbrev pub RecordAcl : Type 0
RecordAcl = List RecordAclEntry

unfoldable pub new_record_acl_entry_relation : String → RecordAclLevel → RecordAclEntry
new_record_acl_entry_relation relation level = record {
  relation = relation;
  role = "";
  level = level;
  user_id = "";
  public = false;
}

unfoldable pub new_record_acl_entry_direct : String → RecordAclLevel → RecordAclEntry
new_record_acl_entry_direct user_id level = record {
  relation = "$direct";
  role = "";
  level = level;
  user_id = user_id;
  public = false;
}

unfoldable pub new_record_acl_entry_role : String → RecordAclLevel → RecordAclEntry
new_record_acl_entry_role role level = record {
  relation = "";
  role = role;
  level = level;
  user_id = "";
  public = false;
}

unfoldable pub new_record_acl_entry_public : RecordAclLevel → RecordAclEntry
new_record_acl_entry_public level = record {
  relation = "";
  role = "";
  level = level;
  user_id = "";
  public = true;
}
