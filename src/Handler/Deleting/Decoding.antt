-- ===== src/Handler/Deleting/Decoding.antt =====
-- The identifiers that the action `record:delete` of pkg/server/handler/record.go reads from a request.
use Prim.Native.Char.{Char}
use Prim.Native.String.{◌++◌}
use skygear_server.Common.{String, ◌≡◌, refl, ap, ◌∙◌, false, some, List, [], ◌∷◌, arith, All}
use skygear_server.Common.Text.{split2, has_code, split2-append, append_cons, append_nil}
use skygear_server.Skydb.Value.{RecordId}
use skygear_server.Recordutil.Fetch.{id_string}
use skygear_server.Handler.Deleting.{record_ids, validate_loop, validate}

-- The type of the record has no slash.
abbrev pub HasPlainType : RecordId → Type 0
HasPlainType id = has_code b'/' id.type ≡ false

abbrev slash : Char
slash = "/"

slash_append : (s : String) → ("/" ++ s) ≡ String.◌∷◌ slash s
slash_append s = append_cons slash String.[] s ∙ ap (String.◌∷◌ slash) (append_nil s)

split2-id_string :
    (id : RecordId) → HasPlainType id → split2 b'/' (id_string id) ≡ (id.type, some id.key)
split2-id_string id h = rw (slash_append id.key) (split2-append b'/' id.type slash id.key refl h)

abbrev pub strings : List RecordId → List String
strings [] = []
strings (id ∷ ids) = id_string id ∷ strings ids

validate_loop-strings :
    (ids : List RecordId) → All HasPlainType ids → validate_loop (strings ids) ≡ record_ids ids
unfolding validate_loop
validate_loop-strings [] h = refl
validate_loop-strings (id ∷ ids) h =
    ground (arith, split2-id_string id h.0, validate_loop-strings ids h.1)

-- The printed identifiers of a request, at least one, are read as these identifiers, also if a key has
-- slashes, if no type has one.
pub validate-strings :
    (id : RecordId) (ids : List RecordId)
    → All HasPlainType (id ∷ ids)
    → validate (strings (id ∷ ids)) ≡ record_ids (id ∷ ids)
unfolding validate
validate-strings id ids h = validate_loop-strings (id ∷ ids) h
