-- ===== src/Recordutil/Scrub/Written.antt =====
-- What is left of a record after `scrubRecordFieldsForWrite` of pkg/server/recordutil/recordutil.go.
use skygear_server.Common.{
  String, ◌≡◌, inl, inr, refl, sym, ap, ◌∙◌, Bool, true, false, ◌&&◌, Option, none, some, List, [],
  ◌∷◌, if◌then◌else◌, arith, contains, select, contains-select, Option-cases, Bool-cases,
}
use skygear_server.Common.Dict
use skygear_server.Common.Dict.{
  HasNodupKeys, lookup-delete, contains-keys_of_lookup, lookup_of_contains,
}
use skygear_server.Skydb.AuthInfo.{AuthInfo}
use skygear_server.Skydb.FieldAcl
use skygear_server.Skydb.FieldAcl.{FieldAcl, Outcome, answer, panicked, out_of_fuel, write}
use skygear_server.Skydb.Record.{Record, entries}
use skygear_server.Skydb.Value.{Value, Data}
use skygear_server.Skyerr.{Error}
use skygear_server.Recordutil.Delta.{
  derive_delta_record, derive_delta_record_lem, is_changed, difference,
}
use skygear_server.Recordutil.Scrub.{
  Scrubbed, scrub_write_loop, scrub_record_fields_for_write, zero_record, denied_error, with_error,
}
use skygear_server.Recordutil.Scrub.Rounds.{
  is_refused, IsDecided, loop-IsDecided, loop_atomic, loop_fields,
}

abbrev pub is_some : Option Value → Bool
is_some none = false
is_some (some v) = true

contains-keys : (k : String) (m : Data) → contains (Dict.keys m) k ≡ is_some (Dict.lookup k m)
contains-keys k m = elim (Option-cases (Dict.lookup k m)) [
  | inl e ↦ elim (Bool-cases (contains (Dict.keys m) k)) [
    | inl c ↦ let (v, f) = lookup_of_contains k m c in absurd (cc)
    | inr c ↦ rw e c
  ]
  | inr (v, e) ↦ rw e (contains-keys_of_lookup k m v e)
]

denied_error-eq-none : (l : List String) → denied_error l ≡ none → l ≡ []
denied_error-eq-none [] h = refl
denied_error-eq-none (x ∷ l) h = absurd (cc)

with_error-eq-some :
    (o : Option Scrubbed) (r' : Record) (e : Option Error)
    → with_error o ≡ some (r', e)
    → (s : Scrubbed) × (o ≡ some s) × (s.outcome ≡ r') × (denied_error s.denied ≡ e)
with_error-eq-some none r' e h = absurd (cc)
with_error-eq-some (some s) r' e h = (s, refl, cc, cc)

answer_of_decided : (o : Outcome) → IsDecided o → is_refused o ≡ false → o ≡ answer true
answer_of_decided o (true, e) h = e
answer_of_decided o (false, e) h = absurd (ground arith)

module _ (deep_equal : Value → Value → Bool) (auth_info : Option AuthInfo)
    (rec orig_record : Record) (acl : FieldAcl) where
  -- The value of a field that the record changes.
  abbrev pub change : String → Option Value
  change k =
      difference deep_equal (Dict.lookup k (entries rec.contents))
        (Dict.lookup k (entries orig_record.contents))

  abbrev pub write_check : String → Outcome
  write_check k = FieldAcl.accessible acl rec.id.type k write auth_info (some orig_record)

  abbrev pub changed_keys : List String
  changed_keys =
      Dict.keys
        (entries (derive_delta_record deep_equal zero_record (some orig_record) rec).contents)

  pub contains-changed_keys :
      (k : String)
      → HasNodupKeys (entries rec.contents)
      → contains changed_keys k ≡ is_some (change k)
  contains-changed_keys k h =
      contains-keys k _
      ∙ ap is_some (derive_delta_record_lem deep_equal zero_record orig_record rec k h).0

  change-eq-some :
      (k : String) (v : Value)
      → Dict.lookup k (entries rec.contents) ≡ some v
      → is_changed deep_equal v (Dict.lookup k (entries orig_record.contents)) ≡ true
      → is_some (change k) ≡ true
  change-eq-some k v h c = ground (arith, h, c)

  -- If the record has no field twice, and the function returns in the mode that is not atomic, then it
  -- returns no error, a field that the record changes and that the check refuses is removed, and every
  -- other field is as it was.
  pub written_fields :
      (r' : Record) (e : Option Error)
      → HasNodupKeys (entries rec.contents)
      → scrub_record_fields_for_write deep_equal auth_info rec orig_record acl false ≡ some (r', e)
      → (e ≡ none)
        × ((k : String)
            → Dict.lookup k (entries r'.contents) ≡ (
                if is_some (change k) && is_refused (write_check k)
                then none
                else Dict.lookup k (entries rec.contents)))
  unfolding scrub_record_fields_for_write
  written_fields r' e h run =
      let (s, found, out, err) = with_error-eq-some _ r' e run in
      let fields = loop_fields write_check changed_keys rec [] s found in
      (
        sym err ∙ ap denied_error fields.0,
        λ k.
            ap (λ (r : Record). Dict.lookup k (entries r.contents)) (sym out)
            ∙ fields.1 k
            ∙ ap
                (λ b.
                  if b && is_refused (write_check k)
                  then none
                  else Dict.lookup k (entries rec.contents))
                (contains-changed_keys k h),
      )

  not_refused :
      (k : String)
      → select (λ j. is_refused (write_check j)) changed_keys ≡ []
      → contains changed_keys k ≡ true
      → is_refused (write_check k) ≡ false
  not_refused k h m = ground (
    arith,
    ap (λ (l : List String). contains l k) h,
    contains-select (λ j. is_refused (write_check j)) changed_keys k,
  )

  written_if_returned :
      (atomic : Bool) (s : Scrubbed) (k : String) (v : Value)
      → contains changed_keys k ≡ true
      → scrub_write_loop write_check atomic changed_keys rec [] ≡ some s
      → s.denied ≡ []
      → Dict.lookup k (entries s.outcome.contents) ≡ some v
      → is_refused (write_check k) ≡ false
  written_if_returned true s k v m run empty found =
      not_refused k (sym (loop_atomic write_check changed_keys rec [] s run).1 ∙ empty) m
  written_if_returned false s k v m run empty found =
      ground (arith, (loop_fields write_check changed_keys rec [] s run).1 k)

  lookup_of_returned :
      (atomic : Bool) (s : Scrubbed) (k : String) (v : Value)
      → scrub_write_loop write_check atomic changed_keys rec [] ≡ some s
      → Dict.lookup k (entries s.outcome.contents) ≡ some v
      → Dict.lookup k (entries rec.contents) ≡ some v
  lookup_of_returned true s k v run found =
      ap (λ (r : Record). Dict.lookup k (entries r.contents))
        (sym (loop_atomic write_check changed_keys rec [] s run).0)
      ∙ found
  lookup_of_returned false s k v run found =
      ground (arith, (loop_fields write_check changed_keys rec [] s run).1 k)

  -- If the record has no field twice, and the function returns with no error, atomic or not, then
  -- every field of the outcome whose value is new or differs from the stored record's is one that the
  -- user may write.
  pub written_fields_allowed :
      (atomic : Bool) (r' : Record) (k : String) (v : Value)
      → HasNodupKeys (entries rec.contents)
      → scrub_record_fields_for_write deep_equal auth_info rec orig_record acl atomic
        ≡ some (r', none)
      → Dict.lookup k (entries r'.contents) ≡ some v
      → is_changed deep_equal v (Dict.lookup k (entries orig_record.contents)) ≡ true
      → write_check k ≡ answer true
  unfolding scrub_record_fields_for_write
  written_fields_allowed atomic r' k v h run found c =
      let (s, ran, out, err) = with_error-eq-some _ r' none run in
      let here : Dict.lookup k (entries s.outcome.contents) ≡ some v =
        ap (λ (r : Record). Dict.lookup k (entries r.contents)) out ∙ found in
      let m : contains changed_keys k ≡ true =
        contains-changed_keys k h
        ∙ change-eq-some k v (lookup_of_returned atomic s k v ran here) c in
      answer_of_decided (write_check k)
        (loop-IsDecided write_check atomic changed_keys rec [] s ran k m)
        (written_if_returned atomic s k v m ran (denied_error-eq-none s.denied err) here)
