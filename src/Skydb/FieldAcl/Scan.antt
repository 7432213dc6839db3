-- ===== src/Skydb/FieldAcl/Scan.antt =====
-- A search for the first rule of pkg/server/skydb/access.go that is selected, in a sorted list of rules.
use mathlib.Core.List.{Mem, mem-cons, mem-cons_of_mem, mem-cons_self, not-mem-nil}
use mathlib.Core.Logic.Or
use skygear_server.Common.{
  ◌≡◌, ◌≢◌, ◌⊎◌, inl, inr, refl, Bool, true, false, ◌&&◌, Option, none, some, List, [], ◌∷◌, ◌++◌,
  ◌==◌, select, All, arith, ◌∙◌,
}
use skygear_server.Skydb.AuthInfo.{AuthInfo}
use skygear_server.Skydb.Record.{Record}
use skygear_server.Skydb.UserRole.{match}
use skygear_server.Skydb.FieldAcl.{
  FieldAclEntry, FieldAccessMode, Outcome, answer, panicked, IsSorted, entry_accessible, less,
  entry_compare, wildcard_compare, wildcard_record_type,
}
use skygear_server.Skydb.FieldAcl.Order.{less_strict_weak_order}
use skygear_server.Skydb.FieldAcl.Iterate.{first_match}

pub of_mem {ℓ κ} :
    {A : Type ℓ} (P : A → Type κ) (xs : List A)
    → ((a : A) → IsProp (P a))
    → All P xs
    → (a : A) → Mem a xs
    → P a
of_mem P [] prop h a m = absurd (not-mem-nil m)
of_mem P (x ∷ xs) prop h a m =
    Or.elim (prop a) (mem-cons.0 m) (λ e. rw e h.0) (of_mem P xs prop h.1 a)

pub select-select {ℓ} :
    {A : Type ℓ} (p q : A → Bool) (xs : List A)
    → select p (select q xs) ≡ select (λ a. q a && p a) xs
select-select p q [] = refl
select-select p q (x ∷ xs) = ground (arith, select-select p q xs)

less_irreflexive : (e : FieldAclEntry) → less e e ≡ false
less_irreflexive e = ground (arith, less_strict_weak_order e e e)

-- A rule of the wildcard type is never less than one of another type.
pub wildcard-not-less :
    (f e : FieldAclEntry)
    → (f.record_type == wildcard_record_type) ≡ true
    → (e.record_type == wildcard_record_type) ≡ false
    → less f e ≡ false
unfolding less entry_compare wildcard_compare
wildcard-not-less f e h k = ground arith

module _ (mode : FieldAccessMode) (auth_info : Option AuthInfo) (rec : Option Record) where
  -- The rule is not passed over: its role matches, or matching it panics.
  abbrev pub IsSelected : FieldAclEntry → Type 0
  IsSelected e = match e.user_role auth_info rec ≢ some false

  abbrev pub verdict : FieldAclEntry → Outcome
  verdict e = elim (match e.user_role auth_info rec) [
    | none ↦ panicked
    | some matches ↦ answer (entry_accessible e mode)
  ]

  pub record Chosen (q : FieldAclEntry → Bool) (list rest : List FieldAclEntry) : Type 0 where
    pub rule : FieldAclEntry
    pub listed : Mem rule list
    pub passes : q rule ≡ true
    pub selected : IsSelected rule
    pub first : All (λ f. q f ≡ true → IsSelected f → less f rule ≡ false) list
    pub decides : first_match mode auth_info rec (select q list ++ rest) ≡ verdict rule

  pub record Skipped (q : FieldAclEntry → Bool) (list rest : List FieldAclEntry) : Type 0 where
    pub all : All (λ f. q f ≡ true → IsSelected f → ⊥) list
    pub skips :
        first_match mode auth_info rec (select q list ++ rest) ≡ first_match mode auth_info rec rest

  first_match_skip :
      (x : FieldAclEntry) (list : List FieldAclEntry)
      → match x.user_role auth_info rec ≡ some false
      → first_match mode auth_info rec (x ∷ list) ≡ first_match mode auth_info rec list
  unfolding first_match
  first_match_skip x list h = rw (h, first_match)

  first_match_take :
      (x : FieldAclEntry) (list : List FieldAclEntry)
      → IsSelected x
      → first_match mode auth_info rec (x ∷ list) ≡ verdict x
  unfolding first_match
  first_match_take x list h = ground arith

  -- The rule `x` is not the one: it does not pass, or its role does not match.
  pass_over :
      (q : FieldAclEntry → Bool) (x : FieldAclEntry) (list rest : List FieldAclEntry)
      → (q x ≡ true → IsSelected x → ⊥)
      → first_match mode auth_info rec (select q (x ∷ list) ++ rest)
        ≡ first_match mode auth_info rec (select q list ++ rest)
      → Chosen q list rest ⊎ Skipped q list rest
      → Chosen q (x ∷ list) rest ⊎ Skipped q (x ∷ list) rest
  pass_over q x list rest out step (inl c) = inl (record {
    rule = c.rule;
    listed = mem-cons_of_mem x c.listed;
    passes = c.passes;
    selected = c.selected;
    first = (λ p sel. absurd (out p sel), c.first);
    decides = step ∙ c.decides;
  })
  pass_over q x list rest out step (inr k) =
      inr (record { all = (out, k.all); skips = step ∙ k.skips })

  later_not-less :
      (q : FieldAclEntry → Bool) (x : FieldAclEntry) (list : List FieldAclEntry)
      → All (λ later. less later x ≡ false) list
      → All (λ f. q f ≡ true → IsSelected f → less f x ≡ false) list
  later_not-less q x [] h = tt
  later_not-less q x (y ∷ list) h = (λ _ _. h.0, later_not-less q x list h.1)

  pub choose :
      (q : FieldAclEntry → Bool) (list rest : List FieldAclEntry)
      → IsSorted list
      → Chosen q list rest ⊎ Skipped q list rest
  choose q [] rest s = inr (record { all = tt; skips = refl })
  choose q (x ∷ list) rest s =
      by_test (q x) (match x.user_role auth_info rec) refl refl (choose q list rest s.1)
    where
      take : q x ≡ true → IsSelected x → Chosen q (x ∷ list) rest
      take passes selected = record {
        rule = x;
        listed = mem-cons_self;
        passes = passes;
        selected = selected;
        first = (λ _ _. less_irreflexive x, later_not-less q x list s.0);
        decides = rw passes (first_match_take x (select q list ++ rest) selected);
      }

      by_test :
          (b : Bool) (m : Option Bool)
          → q x ≡ b
          → match x.user_role auth_info rec ≡ m
          → Chosen q list rest ⊎ Skipped q list rest
          → Chosen q (x ∷ list) rest ⊎ Skipped q (x ∷ list) rest
      by_test false m e f ih = pass_over q x list rest (λ p. absurd (cc)) (rw e refl) ih
      by_test true (some false) e f ih =
          pass_over q x list rest (λ p sel. sel f)
            (rw e (first_match_skip x (select q list ++ rest) f)) ih
      by_test true (some true) e f ih = inl (take e (λ g. absurd (cc)))
      by_test true none e f ih = inl (take e (λ g. absurd (cc)))

  pub first_match_nil : first_match mode auth_info rec [] ≡ answer true
  unfolding first_match
  first_match_nil = refl
