-- ===== src/Recordutil/Assets/Identity.antt =====
-- Replacing the assets of records, in pkg/server/recordutil/recordutil.go, does not change which
-- records they are.
use skygear_server.Common.{
  String, ◌≡◌, ◌∙◌, Option, none, some, List, [], ◌∷◌, arith, Option-cases, inl, inr,
}
use skygear_server.Common.Dict.{Dict}
use skygear_server.Skydb.Record
use skygear_server.Skydb.Record.{Record}
use skygear_server.Skydb.Record.Identity.{id-set}
use skygear_server.Skydb.Value.{RecordId, Asset, asset}
use skygear_server.Recordutil.Modify.{Database, Conn}
use skygear_server.Recordutil.Assets.{
  as_asset, known_asset, asset_columns, names_of_records, complete_columns, complete_records,
  by_name, completed_from, make_assets_complete,
}

abbrev pub ids : List Record → List RecordId
ids [] = []
ids (rec ∷ records) = rec.id ∷ ids records

-- Writing the known asset, if the column holds one.
abbrev replaced : Dict Asset → String → Record → Option Asset → Option Record
replaced m column rec none = some rec
replaced m column rec (some a) = Record.set column (asset (known_asset m a.name)) rec

replaced-id :
    (m : Dict Asset) (column : String) (rec : Record) (o : Option Asset) (changed : Record)
    → replaced m column rec o ≡ some changed
    → changed.id ≡ rec.id
replaced-id m column rec none changed e = ground (arith, e)
replaced-id m column rec (some a) changed e = id-set column (known_asset m a.name) rec changed e

complete_columns-id :
    (m : Dict Asset) (columns : List String) (rec out : Record)
    → complete_columns m columns rec ≡ some out
    → out.id ≡ rec.id
unfolding complete_columns
complete_columns-id m [] rec out e = ground (arith, e)
complete_columns-id m (column ∷ columns) rec out e = elim (Option-cases (Record.get column rec)) [
  | inl p ↦ absurd (ground (arith, e, p))
  | inr (value, p) ↦ elim (Option-cases (replaced m column rec (as_asset value))) [
    | inl q ↦ absurd (ground (arith, e, p, q))
    | inr (changed, q) ↦
        complete_columns-id m columns changed out (ground (arith, e, p, q))
        ∙ replaced-id m column rec (as_asset value) changed q
  ]
]

complete_records-ids :
    (m : Dict Asset) (columns : List String) (records out : List Record)
    → complete_records m columns records ≡ some out
    → ids out ≡ ids records
unfolding complete_records
complete_records-ids m columns [] out e = ground (arith, e)
complete_records-ids m columns (rec ∷ records) out e =
    elim (Option-cases (complete_columns m columns rec)) [
      | inl p ↦ absurd (ground (arith, e, p))
      | inr (first, p) ↦ elim (Option-cases (complete_records m columns records)) [
        | inl q ↦ absurd (ground (arith, e, p, q))
        | inr (rest, q) ↦ ground (
          arith,
          e,
          p,
          q,
          complete_columns-id m columns rec first p,
          complete_records-ids m columns records rest q,
        )
      ]
    ]

completed_from-ids :
    (columns : List String) (records : List Record) (assets : Option (List Asset))
    (out : List Record)
    → completed_from columns records assets ≡ some out
    → ids out ≡ ids records
unfolding completed_from
completed_from-ids columns records none out e = ground (arith, e)
completed_from-ids columns records (some assets) out e =
    complete_records-ids (by_name [] assets) columns records out e

pub make_assets_complete-ids :
    {W : Type 0} (db : Database W) (conn : Conn W) (w : W) (records out : List Record)
    → make_assets_complete db conn w records ≡ some out
    → ids out ≡ ids records
unfolding make_assets_complete
make_assets_complete-ids db conn w [] out e = ground (arith, e)
make_assets_complete-ids db conn w (rec ∷ records) out e =
    let columns = asset_columns (db.get_schema w rec.id.type) in
    elim (Option-cases (names_of_records columns (rec ∷ records))) [
      | inl p ↦ absurd (ground (arith, e, p))
      | inr (names, p) ↦
          ground
            (arith, e, p, completed_from-ids columns (rec ∷ records) (conn.get_assets w names) out)
    ]
