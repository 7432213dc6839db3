-- ===== src/Tests/FieldAccess.antt =====
-- Access to records and to their fields, at concrete lists and users.
use skygear_server.Common.{◌≡◌, ◌≢◌, ◌⊎◌, inr, refl, true, false, none, some, List, [], ◌∷◌}
use skygear_server.Common.Text.{split2}
use skygear_server.Skydb.Acl.{RecordAcl, write_level, create_level}
use skygear_server.Skydb.Access as Acl
use skygear_server.Skydb.Access.Grants.{create_denied}
use skygear_server.Skydb.AuthInfo.{AuthInfo}
use skygear_server.Skydb.Record
use skygear_server.Skydb.Record.{Record, entries, user_id_of}
use skygear_server.Skydb.Value.{text}
use skygear_server.Skydb.UserRole.{
  FieldUserRole, owner_type, public_type, dynamic_user_type, parse_field_user_role, role_string,
  match,
}
use skygear_server.Skydb.UserRole.Parse.{parse-role_string}
use skygear_server.Skydb.UserRole.Match.{match-ne-none}
use skygear_server.Skydb.FieldAcl.{
  FieldAclEntry, FieldAcl, less, entry_compare, wildcard_compare, answer, write,
}
use skygear_server.Skydb.FieldAcl.Order.{less_strict_weak_order}
use skygear_server.Skydb.FieldAcl.Decide.{NoneSelected, Decides, outcome, field_acl_decision}
use skygear_server.Skydb.FieldAcl.Scan.{verdict}
use skygear_server.Tests.Sorting.{insertion_sorter}

abbrev pub alice : AuthInfo
alice = record {
  id = "alice";
  hashed_password = none;
  roles = "writer" ∷ [];
  provider_info = none;
  token_valid_since = none;
  last_seen_at = none;
}

abbrev writers : RecordAcl
writers =
    record { relation = ""; role = "writer"; level = write_level; user_id = ""; public = false }
    ∷ []

abbrev pub note : Record
note = record {
  id = record { type = "note"; key = "1" };
  database_id = "";
  owner_id = "alice";
  created_at = 1;
  creator_id = "alice";
  updated_at = 1;
  updater_id = "alice";
  access = some writers;
  contents = some (("title", text "old") ∷ []);
  transient = none;
}

abbrev owner_rule : FieldAclEntry
owner_rule = record {
  record_type = "note";
  record_field = "title";
  user_role = record { type = owner_type; detail = "" };
  writable = true;
  readable = true;
  comparable = true;
  discoverable = true;
}

abbrev public_rule : FieldAclEntry
public_rule = record {
  record_type = "*";
  record_field = "*";
  user_role = record { type = public_type; detail = "" };
  writable = false;
  readable = true;
  comparable = false;
  discoverable = false;
}

abbrev pub rules : List FieldAclEntry
rules = public_rule ∷ owner_rule ∷ []

abbrev pub note_acl : FieldAcl
note_acl = record { record_types = ("note", owner_rule ∷ []) ∷ ("*", public_rule ∷ []) ∷ [] }

field_acl_decision_example :
    (NoneSelected write (some alice) (some note) insertion_sorter rules "note" "title"
      × (outcome write (some alice) (some note) insertion_sorter rules "note" "title"
          ≡ answer true))
    ⊎ ((e : FieldAclEntry) × Decides write
          (some alice)
          (some note)
          insertion_sorter
          rules
          "note"
          "title"
          e
        × (outcome write (some alice) (some note) insertion_sorter rules "note" "title"
            ≡ verdict write (some alice) (some note) e))
field_acl_decision_example =
    field_acl_decision write (some alice) (some note) insertion_sorter rules "note" "title"

owner_first : less owner_rule public_rule ≡ true
unfolding less entry_compare wildcard_compare
owner_first = refl

less_example : less public_rule owner_rule ≡ false
less_example = (less_strict_weak_order owner_rule public_rule owner_rule).0 owner_first

create_denied_example :
    Acl.accessible
      (record { relation = ""; role = "writer"; level = create_level; user_id = ""; public = false }
        ∷ [])
      (some alice)
      create_level
    ≡ false
create_denied_example =
    create_denied
      (record {
        relation = "";
        role = "writer";
        level = create_level;
        user_id = "";
        public = false;
      })
      [] (some alice)

note_writable : Record.accessible note (some alice) write_level ≡ true
unfolding Record.accessible Acl.accessible
note_writable = refl

abbrev author_role : FieldUserRole
author_role = record { type = dynamic_user_type; detail = "author" }

author_printed : role_string author_role ≡ some "_field:author"
unfolding role_string
author_printed = refl

parse-role_string_example : parse_field_user_role "_field:author" ≡ some author_role
parse-role_string_example = parse-role_string author_role (inr refl) author_printed

author_parsed : parse_field_user_role "_field:author" ≡ some author_role
unfolding parse_field_user_role split2
author_parsed = refl

author_named : author_role.detail ≢ ""
author_named = λ e. absurd (cc)

match-ne-none_example : match author_role (some alice) (some note) ≢ none
match-ne-none_example = match-ne-none author_role (some alice) (some note) refl (inr author_named)
