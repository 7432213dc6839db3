-- ===== src/Skydb/FieldAcl.antt =====
-- pkg/server/skydb/access.go, lines 137-334: access control of record fields. `sort.Sort` is a parameter:
-- it returns the entries of its list in an order in which no later entry is less than an earlier one,
-- and leaves open how it orders entries that are equal in that order.
pub mod Order
pub mod Groups
pub mod Iterate
pub mod Scan
pub mod Decide
pub mod Answered
use Prim.Native.Nat.{Ordering}
use Prim.Native.String.{compare}
use mathlib.Core.List.{Perm}
use skygear_server.Common.{
  ℕ, zero, suc, ◌+◌, String, ◌≡◌, Bool, true, false, not, ◌&&◌, ◌||◌, Option, none, some, List, [],
  ◌∷◌, ◌++◌, ◌==◌, if◌then◌else◌, length, All,
}
use skygear_server.Common.Dict
use skygear_server.Common.Dict.{Dict}
use skygear_server.Common.Order.{then_compare}
use skygear_server.Skydb.AuthInfo.{AuthInfo}
use skygear_server.Skydb.Record.{Record}
use skygear_server.Skydb.UserRole.{FieldUserRole, role_compare, match}

pub data FieldAccessMode : Type 0 where
  read write discover_or_compare compare_mode : FieldAccessMode

abbrev pub wildcard_record_type : String
wildcard_record_type = "*"

abbrev pub wildcard_record_field : String
wildcard_record_field = "*"

pub record FieldAclEntry : Type 0 where
  pub record_type : String
  pub record_field : String
  pub user_role : FieldUserRole
  pub writable : Bool
  pub readable : Bool
  pub comparable : Bool
  pub discoverable : Bool

-- The local function `compare` of `FieldACLEntry.Compare`.
unfoldable pub wildcard_compare : String → String → String → Ordering
wildcard_compare a b wildcard =
    if a == wildcard && not (b == wildcard)
    then Ordering.gt
    else if b == wildcard && not (a == wildcard)
    then Ordering.lt
    else compare a b

unfoldable pub entry_compare : FieldAclEntry → FieldAclEntry → Ordering
entry_compare entry other =
    then_compare (wildcard_compare entry.record_type other.record_type wildcard_record_type) (
      then_compare (wildcard_compare entry.record_field other.record_field wildcard_record_field)
        (role_compare entry.user_role other.user_role))

abbrev is_negative : Ordering → Bool
is_negative Ordering.lt = true
is_negative Ordering.eq = false
is_negative Ordering.gt = false

-- `FieldACLEntryList.Less`, of the entries at two places.
unfoldable pub less : FieldAclEntry → FieldAclEntry → Bool
less a b = is_negative (entry_compare a b)

abbrev pub IsSorted : List FieldAclEntry → Type 0
IsSorted [] = Unit
IsSorted (e ∷ list) = All (λ later. less later e ≡ false) list × IsSorted list

-- What is known of `sort.Sort`.
pub record Sorter : Type 0 where
  pub sort : List FieldAclEntry → List FieldAclEntry
  pub sort-perm : (list : List FieldAclEntry) → Perm (sort list) list
  pub sort-IsSorted : (list : List FieldAclEntry) → IsSorted (sort list)

-- The field `recordTypes` of the source's struct.
pub record FieldAcl : Type 0 where
  pub record_types : Dict (List FieldAclEntry)

-- `m[k]`, which is a nil list at a missing key.
abbrev pub entries_at : String → Dict (List FieldAclEntry) → List FieldAclEntry
entries_at t m = elim (Dict.lookup t m) [ none ↦ [] | some list ↦ list ]

-- The loop of `NewFieldACL`.
pub group : Dict (List FieldAclEntry) → List FieldAclEntry → Dict (List FieldAclEntry)
group types [] = types
group types (entry ∷ list) =
    group (Dict.insert entry.record_type (entries_at entry.record_type types ++ (entry ∷ [])) types)
      list

unfoldable pub new_field_acl : Sorter → List FieldAclEntry → FieldAcl
unfolding group
new_field_acl sorter list = record { record_types = group [] (sorter.sort list) }

-- The loop of `AllEntries`.
pub all_entries : Dict (List FieldAclEntry) → List FieldAclEntry
all_entries [] = []
all_entries ((t, list) ∷ types) = list ++ all_entries types

-- `FieldACLEntry.Accessible`
unfoldable pub entry_accessible : FieldAclEntry → FieldAccessMode → Bool
entry_accessible entry read = entry.readable
entry_accessible entry write = entry.writable
entry_accessible entry compare_mode = entry.comparable
entry_accessible entry discover_or_compare = entry.discoverable || entry.comparable

pub record FieldAclIterator : Type 0 where
  pub acl : FieldAcl
  pub record_type : String
  pub record_field : String
  pub next_record_types : List String
  pub next_entries : List FieldAclEntry
  pub eof : Bool

unfoldable pub new_field_acl_iterator : FieldAcl → String → String → FieldAclIterator
new_field_acl_iterator acl record_type record_field = record {
  acl = acl;
  record_type = record_type;
  record_field = record_field;
  next_record_types = record_type ∷ wildcard_record_type ∷ [];
  next_entries = [];
  eof = false;
}

-- The test that ends the loop of `Next`.
abbrev pub applies : String → String → FieldAclEntry → Bool
applies record_type record_field e =
    (e.record_type == wildcard_record_type || e.record_type == record_type)
    && (e.record_field == wildcard_record_field || e.record_field == record_field)

-- The two loops of `Next`, over the record types and the entries that are left.
pub next_loop :
    FieldAclIterator → List String → List FieldAclEntry → Option FieldAclEntry × FieldAclIterator
next_loop i [] [] = (none, record i { next_record_types = []; next_entries = []; eof = true })
next_loop i (t ∷ types) [] = next_loop i types (entries_at t i.acl.record_types)
next_loop i types (e ∷ list) =
    let rest = next_loop i types list in
    if applies i.record_type i.record_field e
    then (some e, record i { next_record_types = types; next_entries = list })
    else rest

unfoldable pub next : FieldAclIterator → Option FieldAclEntry × FieldAclIterator
unfolding next_loop
next i = if i.eof then (none, i) else next_loop i i.next_record_types i.next_entries

-- How `FieldACL.Accessible` ends; `out_of_fuel` is no outcome of the source.
pub data Outcome : Type 0 where
  answer : Bool → Outcome
  panicked out_of_fuel : Outcome

-- The loop of `FieldACL.Accessible`.
pub accessible_loop :
    ℕ → FieldAclIterator → FieldAccessMode → Option AuthInfo → Option Record → Outcome
accessible_loop zero iter mode auth_info rec = out_of_fuel
accessible_loop (suc fuel) iter mode auth_info rec =
    let (entry, iter') = next iter in
    elim entry [
      | none ↦ answer true
      | some e ↦ elim (match e.user_role auth_info rec) [
        | none ↦ panicked
        | some true ↦ answer (entry_accessible e mode)
        | some false ↦ accessible_loop fuel iter' mode auth_info rec
      ]
    ]

-- One more round than there are entries of the two record types.
unfoldable pub enough_fuel : FieldAcl → String → ℕ
enough_fuel acl record_type = suc (
    length (entries_at record_type acl.record_types)
    + length (entries_at wildcard_record_type acl.record_types))

unfoldable pub accessible :
    FieldAcl → String → String → FieldAccessMode → Option AuthInfo → Option Record → Outcome
unfolding accessible_loop enough_fuel new_field_acl_iterator
accessible acl record_type field mode auth_info rec =
    accessible_loop (enough_fuel acl record_type) (new_field_acl_iterator acl record_type field)
      mode auth_info rec
