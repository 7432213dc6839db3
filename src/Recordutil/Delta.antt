-- ===== src/Recordutil/Delta.antt =====
-- pkg/server/recordutil/recordutil.go, lines 366-400: the difference of a record to the stored one. Go's
-- `reflect.DeepEqual` is a parameter.
use skygear_server.Common.{
  String, ◌≡◌, refl, ◌∙◌, Bool, true, not, Option, none, some, [], ◌∷◌, eq_iff, if◌then◌else◌,
  arith,
}
use skygear_server.Common.Dict
use skygear_server.Common.Dict.{Dict, HasNodupKeys, lookup-insert, lookup-none_iff}
use skygear_server.Skydb.Acl.{RecordAcl}
use skygear_server.Skydb.Value.{Value, Data}
use skygear_server.Skydb.Record.{Record, entries}

abbrev first_access : Option RecordAcl → Option RecordAcl → Option RecordAcl
first_access none base = base
first_access (some acl) base = some acl

module _ (deep_equal : Value → Value → Bool) where
  -- The value is new or differs from the one in the base.
  abbrev pub is_changed : Value → Option Value → Bool
  is_changed value none = true
  is_changed value (some base_value) = not (deep_equal value base_value)

  -- The loop over `delta.Data`.
  pub delta_loop : Data → Data → Data → Data
  delta_loop dst base [] = dst
  delta_loop dst base ((key, value) ∷ delta) =
      delta_loop
        (if is_changed value (Dict.lookup key base) then Dict.insert key value dst else dst) base
        delta

  -- The record that `dst` points to afterwards.
  unfoldable pub derive_delta_record : Record → Option Record → Record → Record
  unfolding delta_loop
  derive_delta_record dst none delta = delta
  derive_delta_record dst (some base) delta = record dst {
    id = delta.id;
    access = first_access delta.access base.access;
    owner_id = delta.owner_id;
    created_at = delta.created_at;
    creator_id = delta.creator_id;
    updated_at = delta.updated_at;
    updater_id = delta.updater_id;
    contents = some (delta_loop [] (entries base.contents) (entries delta.contents));
  }

  -- A field of the difference, by the field of the record and that of the base.
  abbrev pub difference : Option Value → Option Value → Option Value
  difference none base = none
  difference (some value) base = if is_changed value base then some value else none

  abbrev or_else : Option Value → Option Value → Option Value
  or_else none b = b
  or_else (some v) b = some v

  or_else-none : (o : Option Value) → or_else o none ≡ o
  or_else-none none = refl
  or_else-none (some v) = refl

  lookup-delta_loop :
      (k : String) (dst base delta : Data)
      → HasNodupKeys delta
      → Dict.lookup k (delta_loop dst base delta)
        ≡ or_else (difference (Dict.lookup k delta) (Dict.lookup k base)) (Dict.lookup k dst)
  unfolding delta_loop Dict.lookup
  lookup-delta_loop k dst base [] h = refl
  lookup-delta_loop k dst base ((j, v) ∷ delta) h = ground (
    arith,
    eq_iff j k,
    lookup-delta_loop k (if is_changed v (Dict.lookup j base) then Dict.insert j v dst else dst)
        base delta,
    lookup-insert j k v dst,
    lookup-none_iff k delta,
  )

  -- If the record has no field twice, a field stands in its difference to a base exactly if the record
  -- has it and the base lacks it or has another value there, and then with the record's value; the id
  -- is the record's, and the access control list is the record's, or the base's if the record has
  -- none.
  pub derive_delta_record_lem :
      (dst base delta : Record) (k : String)
      → HasNodupKeys (entries delta.contents)
      → (Dict.lookup k (entries (derive_delta_record dst (some base) delta).contents)
          ≡ difference
              (Dict.lookup k (entries delta.contents))
              (Dict.lookup k (entries base.contents)))
        × ((derive_delta_record dst (some base) delta).id ≡ delta.id)
        × ((derive_delta_record dst (some base) delta).access
            ≡ elim (delta.access) [ none ↦ base.access | some acl ↦ some acl ])
  unfolding derive_delta_record Dict.lookup
  derive_delta_record_lem dst base delta k h = (
    lookup-delta_loop k [] (entries base.contents) (entries delta.contents) h ∙ or_else-none _,
    refl,
    ground arith,
  )
