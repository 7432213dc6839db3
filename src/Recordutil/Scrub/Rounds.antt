-- ===== src/Recordutil/Scrub/Rounds.antt =====
-- The rounds of the loop of `scrubRecordFieldsForWrite` of pkg/server/recordutil/recordutil.go.
use skygear_server.Common.{
  String, ◌≡◌, ◌⊎◌, inl, inr, refl, ap, ◌∙◌, Bool, true, false, not, ◌&&◌, none, some, List, [],
  ◌∷◌, ◌++◌, ◌==◌, eq_iff, if◌then◌else◌, arith, contains, select, Option-cases, Bool-cases,
}
use mathlib.Core.List.{append_assoc, append-nil}
use skygear_server.Common.Dict
use skygear_server.Common.Dict.{
  HasNodupKeys, lookup-delete, contains-keys_of_lookup, lookup_of_contains,
}
use skygear_server.Skydb.FieldAcl.{Outcome, answer, panicked, out_of_fuel}
use skygear_server.Skydb.Record
use skygear_server.Skydb.Record.{Record, entries}
use skygear_server.Skydb.Record.Keys.{contents-remove}
use skygear_server.Skydb.Record.Identity.{remove-contents}
use skygear_server.Recordutil.Scrub.{Scrubbed, scrub_write_loop}

-- The check answered that the field is not writable.
abbrev pub is_refused : Outcome → Bool
is_refused (answer b) = not b
is_refused panicked = false
is_refused out_of_fuel = false

abbrev pub IsDecided : Outcome → Type 0
IsDecided o = (b : Bool) × (o ≡ answer b)

Outcome-cases :
    (o : Outcome) → (o ≡ answer true) ⊎ ((o ≡ answer false) ⊎ ((o ≡ panicked) ⊎ (o ≡ out_of_fuel)))
Outcome-cases (answer true) = inl refl
Outcome-cases (answer false) = inr (inl refl)
Outcome-cases panicked = inr (inr (inl refl))
Outcome-cases out_of_fuel = inr (inr (inr refl))

module _ (check : String → Outcome) where
  -- The first round of a loop that returns.
  abbrev Round : Bool → String → List String → Record → List String → Scrubbed → Type 0
  Round atomic key keys rec denied s =
      ((check key ≡ answer true) × (scrub_write_loop check atomic keys rec denied ≡ some s))
      ⊎ (((check key ≡ answer false)
            × (atomic ≡ true)
            × (scrub_write_loop check atomic keys rec (denied ++ (key ∷ [])) ≡ some s))
          ⊎ ((check key ≡ answer false)
              × (atomic ≡ false)
              × ((rec' : Record) × (Record.remove key rec ≡ some rec')
                  × (scrub_write_loop check atomic keys rec' denied ≡ some s))))

  loop-Round :
      (atomic : Bool) (key : String) (keys : List String) (rec : Record) (denied : List String)
      (s : Scrubbed)
      → scrub_write_loop check atomic (key ∷ keys) rec denied ≡ some s
      → Round atomic key keys rec denied s
  unfolding scrub_write_loop
  loop-Round atomic key keys rec denied s h = elim (Outcome-cases (check key)) [
    | inl e ↦ inl (e, ground (arith))
    | inr (inl e) ↦ elim (Bool-cases atomic) [
      | inl a ↦ inr (inl (e, a, ground (arith)))
      | inr a ↦ elim (Option-cases (Record.remove key rec)) [
        | inl n ↦ absurd (ground arith)
        | inr (rec', n) ↦ inr (inr (e, a, (rec', n, ground (arith))))
      ]
    ]
    | inr (inr (inl e)) ↦ absurd (ground arith)
    | inr (inr (inr e)) ↦ absurd (ground arith)
  ]

  -- A loop that returns has had an answer for every key.
  pub loop-IsDecided :
      (atomic : Bool) (keys : List String) (rec : Record) (denied : List String) (s : Scrubbed)
      → scrub_write_loop check atomic keys rec denied ≡ some s
      → (k : String) → contains keys k ≡ true
      → IsDecided (check k)
  loop-IsDecided atomic [] rec denied s h k m = absurd (cc)
  loop-IsDecided atomic (key ∷ keys) rec denied s h k m = elim (Bool-cases (key == k)) [
    | inl e ↦ elim (loop-Round atomic key keys rec denied s h) [
      | inl (a, b) ↦ (true, ground (arith, eq_iff key k))
      | inr (inl (a, b, c)) ↦ (false, ground (arith, eq_iff key k))
      | inr (inr (a, b, c)) ↦ (false, ground (arith, eq_iff key k))
    ]
    | inr e ↦ elim (loop-Round atomic key keys rec denied s h) [
      | inl (a, b) ↦ loop-IsDecided atomic keys rec denied s b k (ground arith)
      | inr (inl (a, b, c)) ↦
          loop-IsDecided atomic keys rec (denied ++ (key ∷ [])) s c k (ground arith)
      | inr (inr (a, b, (rec', c, d))) ↦ loop-IsDecided atomic keys rec' denied s d k (ground arith)
    ]
  ]

  pub loop_atomic :
      (keys : List String) (rec : Record) (denied : List String) (s : Scrubbed)
      → scrub_write_loop check true keys rec denied ≡ some s
      → (s.outcome ≡ rec) × (s.denied ≡ denied ++ select (λ k. is_refused (check k)) keys)
  unfolding scrub_write_loop
  loop_atomic [] rec denied s h = ground (arith, append-nil denied)
  loop_atomic (key ∷ keys) rec denied s h = elim (loop-Round true key keys rec denied s h) [
    | inl (a, b) ↦ ground (arith, loop_atomic keys rec denied s b)
    | inr (inl (a, b, c)) ↦ ground (
      arith,
      loop_atomic keys rec (denied ++ (key ∷ [])) s c,
      append_assoc denied (key ∷ []) (select (λ k. is_refused (check k)) keys),
    )
    | inr (inr (a, b, c)) ↦ absurd (cc)
  ]

  pub loop_fields :
      (keys : List String) (rec : Record) (denied : List String) (s : Scrubbed)
      → scrub_write_loop check false keys rec denied ≡ some s
      → (s.denied ≡ denied)
        × ((k : String)
            → Dict.lookup k (entries s.outcome.contents) ≡ (
                if contains keys k && is_refused (check k)
                then none
                else Dict.lookup k (entries rec.contents)))
  unfolding scrub_write_loop
  loop_fields [] rec denied s h = (ground arith, λ k. ground arith)
  loop_fields (key ∷ keys) rec denied s h = elim (loop-Round false key keys rec denied s h) [
    | inl (a, b) ↦
        let ih = loop_fields keys rec denied s b in
        (ih.0, λ k. ground (arith, ih.1 k, eq_iff key k))
    | inr (inl (a, b, c)) ↦ absurd (cc)
    | inr (inr (a, b, (rec', c, d))) ↦
        let ih = loop_fields keys rec' denied s d in
        (ih.0, λ k. ground (arith, ih.1 k, eq_iff key k, contents-remove key k rec rec' c))
  ]

  -- The loop changes nothing but the fields of the record.
  pub loop-contents :
      (atomic : Bool) (keys : List String) (rec : Record) (denied : List String) (s : Scrubbed)
      → scrub_write_loop check atomic keys rec denied ≡ some s
      → s.outcome ≡ record rec { contents = s.outcome.contents }
  unfolding scrub_write_loop
  loop-contents atomic [] rec denied s h = ground arith
  loop-contents atomic (key ∷ keys) rec denied s h =
      elim (loop-Round atomic key keys rec denied s h) [
        | inl (e, rest) ↦ loop-contents atomic keys rec denied s rest
        | inr (inl (e, a, rest)) ↦ loop-contents atomic keys rec (denied ++ (key ∷ [])) s rest
        | inr (inr (e, a, (rec', removed, rest))) ↦
            loop-contents atomic keys rec' denied s rest
            ∙ ap (λ (r : Record). record r { contents = s.outcome.contents })
                (remove-contents key rec rec' removed)
      ]
