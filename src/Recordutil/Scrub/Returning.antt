-- ===== src/Recordutil/Scrub/Returning.antt =====
-- When `scrubRecordFieldsForWrite` of pkg/server/recordutil/recordutil.go does not panic.
use skygear_server.Common.{
  String, ◌≡◌, refl, sym, ap, ◌∙◌, Bool, true, false, Option, none, some, List, [], ◌∷◌, ◌++◌,
  eq_iff, arith, contains, All,
}
use skygear_server.Common.Dict
use skygear_server.Common.Dict.{HasNodupKeys}
use skygear_server.Skydb.AuthInfo.{AuthInfo}
use skygear_server.Skydb.FieldAcl.{FieldAclEntry, Sorter, Outcome, write, new_field_acl}
use skygear_server.Skydb.FieldAcl.Answered.{IsMatchable, outcome-answer}
use skygear_server.Skydb.Record.{Record, entries, key_of, user_key}
use skygear_server.Skydb.Record.Keys.{remove-user_key}
use skygear_server.Skydb.Value.{Value}
use skygear_server.Skyerr.{Error}
use skygear_server.Recordutil.Delta.{difference}
use skygear_server.Recordutil.Scrub.{
  Scrubbed, scrub_write_loop, scrub_record_fields_for_write, denied_error, with_error,
}
use skygear_server.Recordutil.Scrub.Rounds.{IsDecided}
use skygear_server.Recordutil.Scrub.Written.{
  is_some, changed_keys, write_check, contains-changed_keys,
}

-- The check has an answer at the key, and the key is no reserved one.
abbrev pub IsHarmless : (String → Outcome) → String → Type 0
IsHarmless check k = IsDecided (check k) × (key_of k ≡ user_key k)

module _ (check : String → Outcome) where
  abbrev Returns : Bool → List String → Record → List String → Type 0
  Returns atomic keys rec denied =
      (s : Scrubbed) × (scrub_write_loop check atomic keys rec denied ≡ some s)

  Returns-cons :
      (atomic : Bool) (key : String) (keys : List String) (rec : Record) (denied : List String)
      → IsHarmless check key
      → ((r : Record) (d : List String) → Returns atomic keys r d)
      → Returns atomic (key ∷ keys) rec denied
  unfolding scrub_write_loop
  Returns-cons atomic key keys rec denied ((true, e), k) ih =
      ((ih rec denied).0, ground (arith, e, (ih rec denied).1))
  Returns-cons true key keys rec denied ((false, e), k) ih =
      ((ih rec (denied ++ (key ∷ []))).0, ground (arith, e, (ih rec (denied ++ (key ∷ []))).1))
  Returns-cons false key keys rec denied ((false, e), k) ih =
      let (rec', removed) = remove-user_key key rec k in
      ((ih rec' denied).0, ground (arith, e, removed, (ih rec' denied).1))

  loop-Returns :
      (atomic : Bool) (keys : List String) (rec : Record) (denied : List String)
      → ((k : String) → contains keys k ≡ true → IsHarmless check k)
      → Returns atomic keys rec denied
  unfolding scrub_write_loop
  loop-Returns atomic [] rec denied h = (record { outcome = rec; denied = denied }, refl)
  loop-Returns atomic (key ∷ keys) rec denied h =
      Returns-cons atomic key keys rec denied (h key (ground (arith, eq_iff key key)))
        (λ r d. loop-Returns atomic keys r d (λ k m. h k (ground arith)))

lookup_of_difference :
    (deep_equal : Value → Value → Bool) (o base : Option Value)
    → is_some (difference deep_equal o base) ≡ true
    → (v : Value) × (o ≡ some v)
lookup_of_difference deep_equal none base h = absurd (cc)
lookup_of_difference deep_equal (some v) base h = (v, refl)

with_error-some :
    (o : Option Scrubbed) (s : Scrubbed)
    → o ≡ some s
    → with_error o ≡ some (s.outcome, denied_error s.denied)
with_error-some o s e = ap with_error e

-- If the record has no field twice and none under a reserved name, and the field access control list is one
-- that `NewFieldACL` made of rules whose roles have a known type and name a field if they are dynamic,
-- then the function returns, atomic or not, for every user and stored record: it does not panic, and the
-- fuel of the check is enough.
pub scrub_record_fields_for_write_returns :
    (deep_equal : Value → Value → Bool) (auth_info : Option AuthInfo) (rec orig_record : Record)
    (s : Sorter) (rules : List FieldAclEntry) (atomic : Bool)
    → HasNodupKeys (entries rec.contents)
    → ((k : String) (v : Value)
        → Dict.lookup k (entries rec.contents) ≡ some v
        → key_of k ≡ user_key k)
    → All IsMatchable rules
    → (r' : Record) × (e : Option Error) × (scrub_record_fields_for_write deep_equal auth_info rec
          orig_record
          (new_field_acl s rules)
          atomic
        ≡ some (r', e))
unfolding scrub_record_fields_for_write
scrub_record_fields_for_write_returns deep_equal auth_info rec orig_record s rules atomic nodup h
      matchable =
    let acl = new_field_acl s rules in
    let check = write_check deep_equal auth_info rec orig_record acl in
    let (scrubbed, run) =
      loop-Returns check atomic (changed_keys deep_equal auth_info rec orig_record acl) rec []
        (λ k m.
          let (v, found) =
            lookup_of_difference deep_equal (Dict.lookup k (entries rec.contents))
              (Dict.lookup k (entries orig_record.contents))
              (sym (contains-changed_keys deep_equal auth_info rec orig_record acl k nodup) ∙ m) in
          (
            outcome-answer write auth_info (some orig_record) s rules rec.id.type k matchable,
            h k v found,
          )) in
    (scrubbed.outcome, denied_error scrubbed.denied, with_error-some _ scrubbed run)
