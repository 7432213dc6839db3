-- ===== src/Skydb/Record/Merge.antt =====
-- `Copy`, `Apply` and `MergedCopy` of pkg/server/skydb/record.go, field by field.
use skygear_server.Common.{String, ◌≡◌, refl, Option, none, some, [], arith, ap, ◌∙◌}
use skygear_server.Common.Dict
use skygear_server.Common.Dict.{HasNodupKeys, lookup-update_all}
use skygear_server.Skydb.Value.{Value, Data}
use skygear_server.Skydb.Record.{Record, entries, overlay, copy_map, copy_data, merged_copy}

lookup-nil : (k : String) → Dict.lookup {V = Value} k [] ≡ none
unfolding Dict.lookup
lookup-nil k = refl

-- The first value if there is one.
abbrev pub or_else : Option Value → Option Value → Option Value
or_else none b = b
or_else (some v) b = some v

lookup-overlay :
    (k : String) (dst src : Option Data)
    → HasNodupKeys (entries src)
    → Dict.lookup k (entries (overlay dst src))
      ≡ or_else (Dict.lookup k (entries src)) (Dict.lookup k (entries dst))
lookup-overlay k dst none h = ground (arith, lookup-nil k)
lookup-overlay k dst (some m) h = ground (arith, lookup-update_all k (entries dst) m)

lookup-copy_map :
    (k : String) (m : Option Data)
    → HasNodupKeys (entries m)
    → Dict.lookup k (entries (copy_map m)) ≡ Dict.lookup k (entries m)
unfolding copy_data
lookup-copy_map k none h = refl
lookup-copy_map k (some m) h = ground (arith, lookup-update_all k [] m, lookup-nil k)

-- Of two records with no field twice, the merged copy has the access control list of the merged
-- record; each field and each transient field is that of the merged record if it has one, and that of
-- the original otherwise; all else is the original's.
pub merged_copy_lem :
    (r merge : Record) (k : String)
    → HasNodupKeys (entries r.contents)
    → HasNodupKeys (entries r.transient)
    → HasNodupKeys (entries merge.contents)
    → HasNodupKeys (entries merge.transient)
    → (Dict.lookup k (entries (merged_copy r merge).contents)
        ≡ or_else (Dict.lookup k (entries merge.contents)) (Dict.lookup k (entries r.contents)))
      × (Dict.lookup k (entries (merged_copy r merge).transient)
          ≡ or_else (Dict.lookup k (entries merge.transient)) (Dict.lookup k (entries r.transient)))
      × ((merged_copy r merge).access ≡ merge.access)
      × ((merged_copy r merge).id ≡ r.id)
      × ((merged_copy r merge).owner_id ≡ r.owner_id)
      × ((merged_copy r merge).database_id ≡ r.database_id)
      × ((merged_copy r merge).created_at ≡ r.created_at)
      × ((merged_copy r merge).creator_id ≡ r.creator_id)
      × ((merged_copy r merge).updated_at ≡ r.updated_at)
      × ((merged_copy r merge).updater_id ≡ r.updater_id)
unfolding merged_copy
merged_copy_lem r merge k h1 h2 h3 h4 = (
  lookup-overlay k (copy_map r.contents) merge.contents h3
      ∙ ap (or_else (Dict.lookup k (entries merge.contents))) (lookup-copy_map k r.contents h1),
  lookup-overlay k (copy_map r.transient) merge.transient h4
      ∙ ap (or_else (Dict.lookup k (entries merge.transient))) (lookup-copy_map k r.transient h2),
  refl,
  refl,
  refl,
  refl,
  refl,
  refl,
  refl,
  refl,
)
