-- ===== src/Tests/Records.antt =====
-- Records, users and the handling of records, at concrete values.
use skygear_server.Common.{
  ◌≢◌, ◌==◌, Bool-cases, inl, inr, subst, String, ◌≡◌, refl, Bool, true, false, Option, none, some,
  [], ◌∷◌, ◌&&◌, ◌==◌, eq_iff, arith, if◌then◌else◌,
}
use skygear_server.Common.Dict
use skygear_server.Common.Dict.{HasNodupKeys}
use skygear_server.Skydb.FieldAcl
use skygear_server.Skydb.FieldAcl.{FieldAcl, answer, write}
use skygear_server.Skydb.Record
use skygear_server.Skydb.Record.{Record, entries, get, set, remove, merged_copy}
use skygear_server.Skydb.Record.Merge.{or_else, merged_copy_lem}
use skygear_server.Skydb.Value.{Value, RecordId, text}
use skygear_server.Recordutil.Delta.{
  derive_delta_record, derive_delta_record_lem, difference, is_changed,
}
use skygear_server.Recordutil.Scrub.{scrub_record_fields_for_write}
use skygear_server.Skyerr.{Error}
use skygear_server.Recordutil.Scrub.Returning.{scrub_record_fields_for_write_returns}
use skygear_server.Recordutil.Scrub.Rounds.{is_refused}
use skygear_server.Recordutil.Scrub.Written.{
  is_some, change, write_check, written_fields, written_fields_allowed,
}
use skygear_server.Recordutil.Fetch.{
  Lookup, found, not_found, AccessAnswer, RecordFetcher, new_record_fetcher, acl_of,
  get_creation_access, fetch_or_create_record,
}
use skygear_server.Recordutil.Fetch.Caching.{
  IsCoherent, new_record_fetcher-IsCoherent, caches_transparent,
}
use skygear_server.Recordutil.Fetch.Creating.{decided, fetch_or_create_record_lem}
use skygear_server.Skydb.UserRole.{
  match, record_dependent, dynamic_user_type, owner_type, public_type,
}
use skygear_server.Tests.FieldAccess.{alice, note, note_acl, rules}
use skygear_server.Tests.Sorting.{insertion_sorter}

abbrev changed_note : Record
changed_note = record note { contents = some (("title", text "new") ∷ []) }

note-set : set "title" (text "new") note ≡ some changed_note
unfolding set Record.key_of Dict.insert
note-set = refl

abbrev empty_note : Record
empty_note = record note { contents = some [] }

note_removed : remove "title" note ≡ some empty_note
unfolding remove Record.key_of Dict.delete
note_removed = refl

one_key : HasNodupKeys (entries note.contents)
unfolding Dict.keys
one_key = (refl, tt)

one_key' : HasNodupKeys (entries changed_note.contents)
unfolding Dict.keys
one_key' = (refl, tt)

merged_copy_example :
    Dict.lookup "title" (entries (merged_copy note changed_note).contents)
    ≡ or_else
        (Dict.lookup "title" (entries changed_note.contents))
        (Dict.lookup "title" (entries note.contents))
merged_copy_example = (merged_copy_lem note changed_note "title" one_key tt one_key' tt).0

abbrev never_equal : Value → Value → Bool
never_equal v w = false

derive_delta_record_example :
    Dict.lookup "title"
      (entries (derive_delta_record never_equal note (some note) changed_note).contents)
    ≡ difference never_equal
        (Dict.lookup "title" (entries changed_note.contents))
        (Dict.lookup "title" (entries note.contents))
derive_delta_record_example =
    (derive_delta_record_lem never_equal note note changed_note "title" one_key').0

note_scrubbed :
    scrub_record_fields_for_write never_equal (some alice) changed_note note note_acl true
    ≡ some (changed_note, none)
unfolding scrub_record_fields_for_write derive_delta_record FieldAcl.accessible FieldAcl.next
    FieldAcl.new_field_acl_iterator FieldAcl.enough_fuel FieldAcl.entry_accessible match
    record_dependent remove Record.key_of Dict.keys Dict.insert Dict.lookup Dict.delete
note_scrubbed = refl

note_refused :
    scrub_record_fields_for_write never_equal none changed_note note note_acl false
    ≡ some (empty_note, none)
unfolding scrub_record_fields_for_write derive_delta_record FieldAcl.accessible FieldAcl.next
    FieldAcl.new_field_acl_iterator FieldAcl.enough_fuel FieldAcl.entry_accessible match
    record_dependent remove Record.key_of Dict.keys Dict.insert Dict.lookup Dict.delete
note_refused = refl

title_changed :
    is_changed never_equal (text "new") (Dict.lookup "title" (entries note.contents)) ≡ true
unfolding Dict.lookup
title_changed = refl

title_found : Dict.lookup "title" (entries changed_note.contents) ≡ some (text "new")
unfolding Dict.lookup
title_found = refl

written_fields_allowed_example :
    FieldAcl.accessible note_acl "note" "title" write (some alice) (some note) ≡ answer true
written_fields_allowed_example =
    written_fields_allowed never_equal (some alice) changed_note note note_acl true changed_note
      "title" (text "new") one_key' note_scrubbed title_found title_changed

written_fields_example : Dict.lookup "title" (entries empty_note.contents) ≡ (
    if is_some (change never_equal none changed_note note note_acl "title")
      && is_refused (write_check never_equal none changed_note note note_acl "title")
    then none
    else Dict.lookup "title" (entries changed_note.contents))
written_fields_example =
    (written_fields never_equal none changed_note note note_acl empty_note none one_key'
        note_refused).1
      "title"

only_title :
    (k : String) (v : Value)
    → Dict.lookup k (entries changed_note.contents) ≡ some v
    → Record.key_of k ≡ Record.user_key k
unfolding Dict.lookup Record.key_of
only_title k v h = elim (Bool-cases ("title" == k)) [
  | inl e ↦ subst (λ j. Record.key_of j ≡ Record.user_key j) ((eq_iff "title" k).0 e) refl
  | inr e ↦ absurd (ground arith)
]

public_static : public_type ≢ dynamic_user_type
public_static e =
    let same : (public_type == dynamic_user_type) ≡ true =
      (eq_iff public_type dynamic_user_type).1 e in
    absurd (cc)

owner_static : owner_type ≢ dynamic_user_type
owner_static e =
    let same : (owner_type == dynamic_user_type) ≡ true =
      (eq_iff owner_type dynamic_user_type).1 e in
    absurd (cc)

scrub_returns_example :
    (r' : Record) × (e : Option Error) × (scrub_record_fields_for_write never_equal
        (some alice)
        changed_note
        note
        (FieldAcl.new_field_acl insertion_sorter rules)
        false
      ≡ some (r', e))
scrub_returns_example =
    scrub_record_fields_for_write_returns never_equal (some alice) changed_note note
      insertion_sorter rules false one_key' only_title
      ((refl, inl public_static), ((refl, inl owner_static), tt))

abbrev hold_notes : RecordId → Lookup
hold_notes id = if id.key == "1" then found note else not_found

abbrev answer_nil : String → AccessAnswer
answer_nil t = record { access = none; failed = true }

abbrev fetcher : RecordFetcher
fetcher = record { with_master_key = false; creation_access_cache = []; default_access_cache = [] }

fetcher-IsCoherent : IsCoherent answer_nil answer_nil fetcher
unfolding new_record_fetcher
fetcher-IsCoherent = new_record_fetcher-IsCoherent answer_nil answer_nil false

caches_transparent_example :
    (get_creation_access hold_notes answer_nil answer_nil fetcher "note").0
    ≡ (answer_nil "note").access
caches_transparent_example =
    (caches_transparent hold_notes answer_nil answer_nil fetcher "note" fetcher-IsCoherent).0

abbrev other_id : RecordId
other_id = record { type = "note"; key = "2" }

fetch_or_create_record_example :
    (fetch_or_create_record hold_notes answer_nil answer_nil fetcher other_id (some alice)).0
    ≡ decided false other_id (some alice) (acl_of (answer_nil "note").access) (hold_notes other_id)
fetch_or_create_record_example =
    fetch_or_create_record_lem hold_notes answer_nil answer_nil fetcher other_id (some alice)
      fetcher-IsCoherent
