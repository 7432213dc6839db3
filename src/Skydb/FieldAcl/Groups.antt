-- ===== src/Skydb/FieldAcl/Groups.antt =====
-- `NewFieldACL` of pkg/server/skydb/access.go groups the sorted entries by their record types.
use skygear_server.Common.{
  String, ◌≡◌, List, [], ◌∷◌, ◌++◌, ◌==◌, eq_iff, if◌then◌else◌, select, arith, Bool-cases, inl,
  inr, ◌∙◌, ap, sym,
}
use skygear_server.Common.Dict
use skygear_server.Common.Dict.{Dict, lookup-insert}
use mathlib.Core.List.{append_assoc, append-nil}
use skygear_server.Skydb.FieldAcl.{FieldAclEntry, Sorter, entries_at, group, new_field_acl}

entries_at-insert :
    (t k : String) (list : List FieldAclEntry) (types : Dict (List FieldAclEntry))
    → entries_at t (Dict.insert k list types) ≡ (if k == t then list else entries_at t types)
entries_at-insert t k list types = ground (arith, lookup-insert k t list types)

append_to_group :
    (t : String) (types : Dict (List FieldAclEntry)) (e : FieldAclEntry) (rest : List FieldAclEntry)
    → (if e.record_type == t
          then entries_at e.record_type types ++ (e ∷ [])
          else entries_at t types)
        ++ rest
      ≡ entries_at t types ++ (if e.record_type == t then e ∷ rest else rest)
append_to_group t types e rest = elim (Bool-cases (e.record_type == t)) [
  | inl same ↦ rw same (
      ap (λ k. (entries_at k types ++ (e ∷ [])) ++ rest) ((eq_iff e.record_type t).0 same)
      ∙ append_assoc (entries_at t types) (e ∷ []) rest)
  | inr differ ↦ rw differ
]

entries_at-group :
    (t : String) (types : Dict (List FieldAclEntry)) (list : List FieldAclEntry)
    → entries_at t (group types list) ≡ entries_at t types ++ select (λ e. e.record_type == t) list
unfolding group
entries_at-group t types [] = sym (append-nil (entries_at t types))
entries_at-group t types (e ∷ list) =
    entries_at-group t
      (Dict.insert e.record_type (entries_at e.record_type types ++ (e ∷ [])) types) list
    ∙ ap (λ l. l ++ select (λ x. x.record_type == t) list)
        (entries_at-insert t e.record_type (entries_at e.record_type types ++ (e ∷ [])) types)
    ∙ append_to_group t types e (select (λ x. x.record_type == t) list)

-- The rules that are kept for a record type are the sorted entries of that type, in their order.
pub entries_at-new_field_acl :
    (s : Sorter) (list : List FieldAclEntry) (t : String)
    → entries_at t (new_field_acl s list).record_types
      ≡ select (λ e. e.record_type == t) (s.sort list)
unfolding new_field_acl Dict.lookup
entries_at-new_field_acl s list t = entries_at-group t [] (s.sort list)
