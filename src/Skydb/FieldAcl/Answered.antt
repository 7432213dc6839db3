-- ===== src/Skydb/FieldAcl/Answered.antt =====
-- When the decision of pkg/server/skydb/access.go on a field is an answer: neither a panic nor a lack of
-- fuel.
use skygear_server.Common.{
  String, Bool, true, ◌≡◌, ◌≢◌, ◌⊎◌, inl, inr, refl, ◌∙◌, ◌||◌, Option, none, List, All, All-map,
  Option-cases,
}
use skygear_server.Skydb.AuthInfo.{AuthInfo}
use skygear_server.Skydb.Record.{Record}
use skygear_server.Skydb.UserRole.{dynamic_user_type, is_bare, is_detailed, match}
use skygear_server.Skydb.UserRole.Match.{match-ne-none}
use skygear_server.Skydb.FieldAcl.{FieldAclEntry, FieldAccessMode, answer, entry_accessible, Sorter}
use skygear_server.Skydb.FieldAcl.Scan.{of_mem, verdict}
use skygear_server.Skydb.FieldAcl.Decide.{outcome, field_acl_decision}

-- The type of the role is known, and the role names a field if it is dynamic.
abbrev pub IsMatchable : FieldAclEntry → Type 0
IsMatchable e =
    ((is_bare e.user_role.type || is_detailed e.user_role.type) ≡ true)
    × ((e.user_role.type ≢ dynamic_user_type) ⊎ (e.user_role.detail ≢ ""))

module _ (mode : FieldAccessMode) (auth_info : Option AuthInfo) (rec : Option Record) where
  verdict-answer :
      (e : FieldAclEntry)
      → match e.user_role auth_info rec ≢ none
      → (b : Bool) × (verdict mode auth_info rec e ≡ answer b)
  verdict-answer e h = elim (Option-cases (match e.user_role auth_info rec)) [
    | inl p ↦ absurd (h p)
    | inr (b, p) ↦ (entry_accessible e mode, rw (p, verdict) refl)
  ]

  pub outcome-answer :
      (s : Sorter) (list : List FieldAclEntry) (record_type field : String)
      → All IsMatchable list
      → (b : Bool) × (outcome mode auth_info rec s list record_type field ≡ answer b)
  outcome-answer s list record_type field h =
      elim (field_acl_decision mode auth_info rec s list record_type field) [
        | inl (k, e) ↦ (true, e)
        | inr (rule, d, e) ↦
            let total =
              All-map IsMatchable (λ f. match f.user_role auth_info rec ≢ none)
                (λ f k. match-ne-none f.user_role auth_info rec k.0 k.1) list h in
            let (b, v) = verdict-answer rule (
              of_mem (λ f. match f.user_role auth_info rec ≢ none) list (λ g. hlevel) total rule
                d.listed) in
            (b, e ∙ v)
      ]
