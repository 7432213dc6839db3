-- ===== src/Skydb/Record/Identity.antt =====
-- Which writes to the fields of a record of pkg/server/skydb/record.go leave its identifier.
use skygear_server.Common.{String, ◌≡◌, some, arith}
use skygear_server.Skydb.Record.{Record, Key, no_key, key_of, set_at, set, remove}
use skygear_server.Skydb.Record.Keys.{remove_at-eq-some}
use skygear_server.Skydb.Value.{Asset, asset}

-- `Remove` changes nothing but the fields of the record.
pub remove-contents :
    (key : String) (r r' : Record)
    → remove key r ≡ some r'
    → r' ≡ record r { contents = r'.contents }
unfolding remove
remove-contents key r r' h =
    let (name, e, p) = remove_at-eq-some (key_of key) r h in ground (arith, p)

pub id-remove : (key : String) (r r' : Record) → remove key r ≡ some r' → r'.id ≡ r.id
unfolding remove
id-remove key r r' h = let (name, e, p) = remove_at-eq-some (key_of key) r h in ground (arith, p)

id-set_at : (k : Key) (a : Asset) (r r' : Record) → set_at k (asset a) r ≡ some r' → r'.id ≡ r.id
unfolding set_at
id-set_at no_key a r r' h = ground arith
id-set_at _ a r r' h = ground arith

-- An asset cannot be written to the fields that identify the record.
pub id-set :
    (key : String) (a : Asset) (r r' : Record) → set key (asset a) r ≡ some r' → r'.id ≡ r.id
unfolding set
id-set key a r r' h = id-set_at (key_of key) a r r' h
