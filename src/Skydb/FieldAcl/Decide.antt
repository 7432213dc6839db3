-- ===== src/Skydb/FieldAcl/Decide.antt =====
-- Which rule decides a field access in pkg/server/skydb/access.go, said of the list that `NewFieldACL` is
-- given: the sorting, the grouping by record type and the iterator are gone.
use mathlib.Core.List.{append-nil, Mem}
use mathlib.Core.List.Perm
use mathlib.Core.Path.{ap₂}
use skygear_server.Common.{
  String, ◌≡◌, ◌⊎◌, inl, inr, Bool, true, false, ◌&&◌, Option, List, [], ◌++◌, ◌==◌, eq_iff, select,
  select-append, arith, ◌∙◌, ap, sym, Bool-cases,
}
use skygear_server.Skydb.AuthInfo.{AuthInfo}
use skygear_server.Skydb.Record.{Record}
use skygear_server.Skydb.FieldAcl.{
  entries_at, FieldAclEntry, FieldAccessMode, Outcome, answer, Sorter, applies, new_field_acl,
  accessible, less, wildcard_record_type,
}
use skygear_server.Skydb.FieldAcl.Groups.{entries_at-new_field_acl}
use skygear_server.Skydb.FieldAcl.Scan.{
  of_mem, select-select, wildcard-not-less, IsSelected, verdict, Chosen, Skipped, choose,
  first_match_nil,
}
use skygear_server.Skydb.FieldAcl.Iterate.{first_match, accessible-first_match}

module _ (mode : FieldAccessMode) (auth_info : Option AuthInfo) (rec : Option Record) where
  module _ (s : Sorter) (list : List FieldAclEntry) (record_type field : String) where
    abbrev pub outcome : Outcome
    outcome = accessible (new_field_acl s list) record_type field mode auth_info rec

    -- The tests by which a rule is kept for `t` and yielded by the iterator.
    abbrev kept : String → FieldAclEntry → Bool
    kept t e = e.record_type == t && applies record_type field e

    kept_lem :
        (t : String)
        → select (applies record_type field) (entries_at t (new_field_acl s list).record_types)
          ≡ select (kept t) (s.sort list)
    kept_lem t =
        ap (select (applies record_type field)) (entries_at-new_field_acl s list t)
        ∙ select-select (applies record_type field) (λ e. e.record_type == t) (s.sort list)

    outcome_lem :
        outcome
        ≡ first_match mode auth_info rec (
            select (kept record_type) (s.sort list)
            ++ (select (kept wildcard_record_type) (s.sort list) ++ []))
    outcome_lem =
        accessible-first_match mode auth_info rec (new_field_acl s list) record_type field
        ∙ ap (first_match mode auth_info rec) (
            select-append (applies record_type field)
              (entries_at record_type (new_field_acl s list).record_types)
              (entries_at wildcard_record_type (new_field_acl s list).record_types)
            ∙ ap₂ ◌++◌ (kept_lem record_type) (
                kept_lem wildcard_record_type
                ∙ sym (append-nil (select (kept wildcard_record_type) (s.sort list)))))

    to_sorted : (f : FieldAclEntry) → Mem f list → Mem f (s.sort list)
    to_sorted f m = (Perm.mem_iff (s.sort-perm list)).1 m

    of_sorted : {f : FieldAclEntry} → Mem f (s.sort list) → Mem f list
    of_sorted m = (Perm.mem_iff (s.sort-perm list)).0 m

    -- What the scans of the sorted list establish, of one rule at a time.
    Chosen-first :
        (t : String) (rest : List FieldAclEntry)
        (c : Chosen mode auth_info rec (kept t) (s.sort list) rest) (f : FieldAclEntry)
        → Mem f list
        → kept t f ≡ true
        → IsSelected mode auth_info rec f
        → less f c.rule ≡ false
    Chosen-first t rest c f m =
        of_mem (λ g. kept t g ≡ true → IsSelected mode auth_info rec g → less g c.rule ≡ false)
          (s.sort list) (λ g. hlevel) c.first f (to_sorted f m)

    Skipped-none :
        (t : String) (rest : List FieldAclEntry)
        → Skipped mode auth_info rec (kept t) (s.sort list) rest
        → (f : FieldAclEntry) → Mem f list
        → kept t f ≡ true
        → IsSelected mode auth_info rec f
        → ⊥
    Skipped-none t rest k f m =
        of_mem (λ g. kept t g ≡ true → IsSelected mode auth_info rec g → ⊥) (s.sort list)
          (λ g. hlevel) k.all f (to_sorted f m)

    kept-applies :
        (t : String) (e : FieldAclEntry) → kept t e ≡ true → applies record_type field e ≡ true
    kept-applies t e h = ground arith

    -- A rule that applies is of the record type or of the wildcard type.
    applies_cases :
        (f : FieldAclEntry)
        → applies record_type field f ≡ true
        → (kept record_type f ≡ true)
          ⊎ (((f.record_type == record_type) ≡ false) × (kept wildcard_record_type f ≡ true))
    applies_cases f h = elim (Bool-cases (f.record_type == record_type)) [
      | inl own ↦ inl (ground arith)
      | inr other ↦ inr (ground arith)
    ]

    own-before_wild :
        (e f : FieldAclEntry)
        → kept record_type e ≡ true
        → (f.record_type == record_type) ≡ false
        → kept wildcard_record_type f ≡ true
        → less f e ≡ false
    own-before_wild e f h k l = wildcard-not-less f e (ground arith) (
        ground (
          arith,
          eq_iff e.record_type record_type,
          eq_iff e.record_type wildcard_record_type,
          eq_iff f.record_type wildcard_record_type,
          eq_iff f.record_type record_type,
        ))

    -- No rule of the list that applies to the record type and the field is selected.
    abbrev pub NoneSelected : Type 0
    NoneSelected =
        (f : FieldAclEntry)
        → Mem f list
        → applies record_type field f ≡ true
        → IsSelected mode auth_info rec f
        → ⊥

    -- A rule of the list that applies, is selected, and has no other such rule before it in the order.
    pub record Decides (e : FieldAclEntry) : Type 0 where
      pub listed : Mem e list
      pub applies_to : applies record_type field e ≡ true
      pub selected : IsSelected mode auth_info rec e
      pub first :
          (f : FieldAclEntry)
          → Mem f list
          → applies record_type field f ≡ true
          → IsSelected mode auth_info rec f
          → less f e ≡ false

    abbrev wild : List FieldAclEntry
    wild = select (kept wildcard_record_type) (s.sort list) ++ []

    own-Decides :
        (c : Chosen mode auth_info rec (kept record_type) (s.sort list) wild) → Decides c.rule
    own-Decides c = record {
      listed = of_sorted c.listed;
      applies_to = kept-applies record_type c.rule c.passes;
      selected = c.selected;
      first = λ f m h sel. elim (applies_cases f h) [
        | inl own ↦ Chosen-first record_type wild c f m own sel
        | inr (other, is_wild) ↦ own-before_wild c.rule f c.passes other is_wild
      ];
    }

    wild-Decides :
        (c : Chosen mode auth_info rec (kept wildcard_record_type) (s.sort list) [])
        → Skipped mode auth_info rec (kept record_type) (s.sort list) wild
        → Decides c.rule
    wild-Decides c k = record {
      listed = of_sorted c.listed;
      applies_to = kept-applies wildcard_record_type c.rule c.passes;
      selected = c.selected;
      first = λ f m h sel. elim (applies_cases f h) [
        | inl own ↦ absurd (Skipped-none record_type wild k f m own sel)
        | inr (other, is_wild) ↦ Chosen-first wildcard_record_type [] c f m is_wild sel
      ];
    }

    none_selected :
        Skipped mode auth_info rec (kept record_type) (s.sort list) wild
        → Skipped mode auth_info rec (kept wildcard_record_type) (s.sort list) []
        → NoneSelected
    none_selected k l f m h sel = elim (applies_cases f h) [
      | inl own ↦ Skipped-none record_type wild k f m own sel
      | inr (other, is_wild) ↦ Skipped-none wildcard_record_type [] l f m is_wild sel
    ]

    by_scans :
        Chosen mode auth_info rec (kept record_type) (s.sort list) wild
          ⊎ Skipped mode auth_info rec (kept record_type) (s.sort list) wild
        → Chosen mode auth_info rec (kept wildcard_record_type) (s.sort list) []
          ⊎ Skipped mode auth_info rec (kept wildcard_record_type) (s.sort list) []
        → (NoneSelected × (outcome ≡ answer true))
          ⊎ ((e : FieldAclEntry) × Decides e × (outcome ≡ verdict mode auth_info rec e))
    by_scans (inl c) l = inr (c.rule, own-Decides c, outcome_lem ∙ c.decides)
    by_scans (inr k) (inl c) = inr (c.rule, wild-Decides c k, outcome_lem ∙ k.skips ∙ c.decides)
    by_scans (inr k) (inr l) =
        inl
          (none_selected k l, outcome_lem ∙ k.skips ∙ l.skips ∙ first_match_nil mode auth_info rec)

    -- A field access is decided by a rule of the list that applies to the record type and the field,
    -- whose role is not passed over, and before which no other such rule stands in the order of
    -- `Compare`; if there is none, access is granted.
    pub field_acl_decision :
        (NoneSelected × (outcome ≡ answer true))
        ⊎ ((e : FieldAclEntry) × Decides e × (outcome ≡ verdict mode auth_info rec e))
    field_acl_decision =
        by_scans
          (choose mode auth_info rec (kept record_type) (s.sort list) wild (s.sort-IsSorted list))
          (choose mode auth_info rec (kept wildcard_record_type) (s.sort list) []
            (s.sort-IsSorted list))
