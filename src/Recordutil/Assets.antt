-- ===== src/Recordutil/Assets.antt =====
-- pkg/server/recordutil/recordutil.go, lines 650-711: replacing the assets in the records that were saved
-- by those that the connection knows. `none` is a panic, of `Record.Get` or `Record.Set`.
pub mod Identity
use skygear_server.Common.{
  String, Bool, true, false, Option, none, some, List, [], ◌∷◌, ◌++◌, nat_eq, if◌then◌else◌, ◌>>=◌,
}
use skygear_server.Common.Dict
use skygear_server.Common.Dict.{Dict}
use skygear_server.Skydb.Record
use skygear_server.Skydb.Record.{Record}
use skygear_server.Skydb.Schema.{RecordSchema, type_asset}
use skygear_server.Skydb.Value.{Value, Asset, asset}
use skygear_server.Recordutil.Modify.{Database, Conn}

-- The columns of the type `TypeAsset`.
abbrev pub asset_columns : RecordSchema → List String
asset_columns [] = []
asset_columns ((column, t) ∷ schema) =
    let rest = asset_columns schema in if nat_eq t.type type_asset then column ∷ rest else rest

-- `v.(*skydb.Asset)`
abbrev pub as_asset : Value → Option Asset
as_asset (asset a) = some a
as_asset _ = none

-- `append(assetNames, thisAsset.Name)`, if there is one.
abbrev name_of : Option Asset → List String
name_of none = []
name_of (some a) = a.name ∷ []

names_of_columns : Record → List String → Option (List String)
names_of_columns rec [] = some []
names_of_columns rec (column ∷ columns) = do
  value ← Record.get column rec
  rest ← names_of_columns rec columns
  some (name_of (as_asset value) ++ rest)

names_of_records : List String → List Record → Option (List String)
unfolding names_of_columns
names_of_records columns [] = some []
names_of_records columns (rec ∷ records) = do
  names ← names_of_columns rec columns
  rest ← names_of_records columns records
  some (names ++ rest)

-- `var asset skydb.Asset`, which a missing key of the map gives.
abbrev zero_asset : Asset
zero_asset = record { name = ""; content_type = ""; size = 0; public = false }

by_name : Dict Asset → List Asset → Dict Asset
by_name m [] = m
by_name m (a ∷ assets) = by_name (Dict.insert a.name a m) assets

abbrev known_asset : Dict Asset → String → Asset
known_asset m name = elim (Dict.lookup name m) [ none ↦ zero_asset | some a ↦ a ]

complete_columns : Dict Asset → List String → Record → Option Record
complete_columns m [] rec = some rec
complete_columns m (column ∷ columns) rec = do
  value ← Record.get column rec
  changed ← elim (as_asset value) [
    | none ↦ some rec
    | some a ↦ Record.set column (asset (known_asset m a.name)) rec
  ]
  complete_columns m columns changed

complete_records : Dict Asset → List String → List Record → Option (List Record)
unfolding complete_columns
complete_records m columns [] = some []
complete_records m columns (rec ∷ records) = do
  first ← complete_columns m columns rec
  rest ← complete_records m columns records
  some (first ∷ rest)

abbrev is_empty : List String → Bool
is_empty [] = true
is_empty (name ∷ names) = false

-- The records whose assets are not replaced, because `GetAssets` failed, are left as they are.
completed_from : List String → List Record → Option (List Asset) → Option (List Record)
unfolding complete_records by_name
completed_from columns records none = some records
completed_from columns records (some assets) = complete_records (by_name [] assets) columns records

module _ {W : Type 0} (db : Database W) (conn : Conn W) where
  -- The records after `makeAssetsCompleteAndInjectSigner`, of which the callers drop the error. The URL
  -- signers that it sets are no part of a record here.
  unfoldable pub make_assets_complete : W → List Record → Option (List Record)
  unfolding names_of_records completed_from
  make_assets_complete w [] = some []
  make_assets_complete w (rec ∷ records) =
      let columns = asset_columns (db.get_schema w rec.id.type) in
      do
        names ← names_of_records columns (rec ∷ records)
        if is_empty names
            then some (rec ∷ records)
            else completed_from columns (rec ∷ records) (conn.get_assets w names)
