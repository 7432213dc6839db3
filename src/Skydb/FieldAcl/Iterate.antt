-- ===== src/Skydb/FieldAcl/Iterate.antt =====
-- The iterator of pkg/server/skydb/access.go yields the rules that apply, and the loop of
-- `FieldACL.Accessible` over it is a search in a list.
use skygear_server.Common.{
  ℕ, zero, suc, ◌+◌, ◌<◌, ◌≤◌, String, ◌≡◌, refl, Bool, true, false, Option, none, some, List, [],
  ◌∷◌, ◌++◌, if◌then◌else◌, select, length, length-append, length-select-le, arith, ◌∙◌, ap,
}
use mathlib.Core.List.{append-nil}
use skygear_server.Common.Dict.{Dict}
use skygear_server.Skydb.AuthInfo.{AuthInfo}
use skygear_server.Skydb.Record.{Record}
use skygear_server.Skydb.UserRole.{match}
use skygear_server.Skydb.FieldAcl.{
  FieldAclEntry, FieldAcl, FieldAclIterator, FieldAccessMode, Outcome, answer, panicked, entries_at,
  applies, next_loop, next, new_field_acl_iterator, accessible_loop, accessible, entry_accessible,
  enough_fuel, wildcard_record_type,
}

-- All the entries of the record types that are left.
abbrev gather : Dict (List FieldAclEntry) → List String → List FieldAclEntry
gather m [] = []
gather m (t ∷ types) = entries_at t m ++ gather m types

-- What the iterator has still to yield.
abbrev remaining : FieldAclIterator → List FieldAclEntry
remaining i =
    select (applies i.record_type i.record_field)
      (i.next_entries ++ gather i.acl.record_types i.next_record_types)

abbrev yielded : Option FieldAclEntry × FieldAclIterator → List FieldAclEntry
yielded (none, i) = []
yielded (some e, i) = e ∷ remaining i

yielded-next_loop :
    (i : FieldAclIterator) (types : List String) (list : List FieldAclEntry)
    → yielded (next_loop i types list)
      ≡ select (applies i.record_type i.record_field) (list ++ gather i.acl.record_types types)
unfolding next_loop
yielded-next_loop i [] [] = refl
yielded-next_loop i (t ∷ types) [] = yielded-next_loop i types (entries_at t i.acl.record_types)
yielded-next_loop i types (e ∷ list) = ground (arith, yielded-next_loop i types list)

eof-next_loop :
    (i : FieldAclIterator) (types : List String) (list : List FieldAclEntry) (e : FieldAclEntry)
    → (next_loop i types list).0 ≡ some e
    → (next_loop i types list).1.eof ≡ i.eof
unfolding next_loop
eof-next_loop i [] [] e h = cc
eof-next_loop i (t ∷ types) [] e h = eof-next_loop i types (entries_at t i.acl.record_types) e h
eof-next_loop i types (f ∷ list) e h = ground (arith, eof-next_loop i types list e)

module _ (mode : FieldAccessMode) (auth_info : Option AuthInfo) (rec : Option Record) where
  -- The first rule whose role matches decides; with none, access is granted.
  unfoldable pub first_match : List FieldAclEntry → Outcome
  first_match [] = answer true
  first_match (e ∷ list) = elim (match e.user_role auth_info rec) [
    | none ↦ panicked
    | some true ↦ answer (entry_accessible e mode)
    | some false ↦ first_match list
  ]

  abbrev Ends : ℕ → FieldAclIterator → Type 0
  Ends fuel i = accessible_loop fuel i mode auth_info rec ≡ first_match (remaining i)

  after_next :
      (fuel : ℕ) (o : Option FieldAclEntry) (i : FieldAclIterator)
      → ((e : FieldAclEntry) → o ≡ some e → i.eof ≡ false)
      → length (yielded (o, i)) < suc fuel
      → (i.eof ≡ false → length (remaining i) < fuel → Ends fuel i)
      → elim o [
        | none ↦ answer true
        | some e ↦ elim (match e.user_role auth_info rec) [
          | none ↦ panicked
          | some true ↦ answer (entry_accessible e mode)
          | some false ↦ accessible_loop fuel i mode auth_info rec
        ]
      ]
        ≡ first_match (yielded (o, i))
  unfolding first_match
  after_next fuel none i h lt ih = refl
  after_next fuel (some e) i h lt ih =
      by_match (match e.user_role auth_info rec) (ih (h e refl) (omega arith))
    where
      by_match :
          (m : Option Bool)
          → Ends fuel i
          → elim m [
            | none ↦ panicked
            | some true ↦ answer (entry_accessible e mode)
            | some false ↦ accessible_loop fuel i mode auth_info rec
          ]
            ≡ elim m [
              | none ↦ panicked
              | some true ↦ answer (entry_accessible e mode)
              | some false ↦ first_match (remaining i)
            ]
      by_match none q = refl
      by_match (some true) q = refl
      by_match (some false) q = q

  yielded-next : (i : FieldAclIterator) → i.eof ≡ false → yielded (next i) ≡ remaining i
  unfolding next
  yielded-next i h =
      ap (λ b. yielded (if b then (none, i) else next_loop i i.next_record_types i.next_entries)) h
      ∙ yielded-next_loop i i.next_record_types i.next_entries

  eof-next :
      (i : FieldAclIterator)
      → i.eof ≡ false
      → (e : FieldAclEntry) → (next i).0 ≡ some e
      → (next i).1.eof ≡ false
  unfolding next
  eof-next i h e p = ground (arith, eof-next_loop i i.next_record_types i.next_entries e)

  accessible_loop_lem :
      (fuel : ℕ) (i : FieldAclIterator)
      → i.eof ≡ false
      → length (remaining i) < fuel
      → accessible_loop fuel i mode auth_info rec ≡ first_match (remaining i)
  unfolding accessible_loop first_match next
  accessible_loop_lem zero i h lt = elim lt [ ]
  accessible_loop_lem (suc fuel) i h lt =
      after_next fuel (next i).0 (next i).1 (eof-next i h) (rw (yielded-next i h) lt)
        (accessible_loop_lem fuel (next i).1)
      ∙ ap first_match (yielded-next i h)

  fits :
      (acl : FieldAcl) (record_type field : String)
      → length (remaining (new_field_acl_iterator acl record_type field))
        ≤ length (entries_at record_type acl.record_types)
          + length (entries_at wildcard_record_type acl.record_types)
  unfolding new_field_acl_iterator
  fits acl record_type field =
      let own = entries_at record_type acl.record_types in
      let wild = entries_at wildcard_record_type acl.record_types in
      omega (
        arith,
        length-select-le (applies record_type field) (own ++ (wild ++ [])),
        length-append own (wild ++ []),
        length-append wild [],
      )

  -- Whatever the entries are, the loop ends within its fuel, and answers by the first rule, among those
  -- of the record type and then those of the wildcard type, that applies and whose role matches.
  pub accessible-first_match :
      (acl : FieldAcl) (record_type field : String)
      → accessible acl record_type field mode auth_info rec
        ≡ first_match (
            select (applies record_type field) (
              entries_at record_type acl.record_types
              ++ entries_at wildcard_record_type acl.record_types))
  unfolding accessible new_field_acl_iterator
  accessible-first_match acl record_type field =
      accessible_loop_lem (enough_fuel acl record_type)
        (new_field_acl_iterator acl record_type field) refl
        (omega (arith, fits acl record_type field))
      ∙ ap
          (λ l.
            first_match
              (select (applies record_type field) (entries_at record_type acl.record_types ++ l)))
          (append-nil (entries_at wildcard_record_type acl.record_types))
