-- ===== src/Handler/Deleting.antt =====
-- pkg/server/handler/record.go, lines 683-703 and 748-813: the action `record:delete`. `none` is a panic.
pub mod Decoding
use Prim.Native.String.{◌++◌}
use skygear_server.Common.{
  ℕ, String, ◌≡◌, refl, Bool, true, false, Option, none, some, List, [], ◌∷◌, if◌then◌else◌, ◌>>=◌,
  arith, All, map,
}
use skygear_server.Common.Text.{split2, has_code, split2-append}
use skygear_server.Skydb.RecordMap as ById
use skygear_server.Skydb.Value.{RecordId}
use skygear_server.Skyerr.{Error, new_error, new_invalid_argument, not_supported}
use skygear_server.Recordutil.Delete.{record_delete_handler}
use skygear_server.Recordutil.Fetch.{id_string}
use skygear_server.Recordutil.Modify.{Database, Conn, ModifyRequest, Modified, ErrMap}
use skygear_server.Handler.Atomic.{atomic_modify_func}
use skygear_server.Handler.Saving.{Context}

-- What `Validate` leaves: the identifiers, or the error.
pub data Decoded : Type 0 where
  record_ids : List RecordId → Decoded
  rejected : Error → Decoded

-- `record: "_id" should be of format '{type}/{id}', got "…"`
abbrev format_error : String → Error
format_error raw_id =
    new_invalid_argument
      ("record: \"_id\" should be of format '{type}/{id}', got \"" ++ (raw_id ++ "\"")) ("ids" ∷ [])

-- The identifier in front of those of the rest.
abbrev decoded_first : String → String × Option String → Decoded → Decoded
decoded_first raw_id (type, none) rest = rejected (format_error raw_id)
decoded_first raw_id (type, some key) (record_ids ids) =
    record_ids (record { type = type; key = key } ∷ ids)
decoded_first raw_id (type, some key) (rejected e) = rejected e

-- The loop of `Validate`, which stops at the first text that has no slash.
validate_loop : List String → Decoded
validate_loop [] = record_ids []
validate_loop (raw_id ∷ raw_ids) =
    let rest = validate_loop raw_ids in decoded_first raw_id (split2 b'/' raw_id) rest

unfoldable pub validate : List String → Decoded
unfolding validate_loop
validate [] = rejected (new_invalid_argument "expected list of id" ("ids" ∷ []))
validate (raw_id ∷ raw_ids) = validate_loop (raw_id ∷ raw_ids)

pub data Reply : Type 0 where
  failed : String → Error → Reply
  deleted : RecordId → Reply

pub data Response : Type 0 where
  refusal : Error → Response
  results : List Reply → Response

-- The loop over `p.RecordIDs`.
unfoldable pub replies : ErrMap → List RecordId → List Reply
unfolding ById.lookup
replies errs [] = []
replies errs (id ∷ ids) =
    let rest = replies errs ids in
    elim (ById.lookup id errs) [
      | some e ↦ failed (id_string id) e ∷ rest
      | none ↦ deleted id ∷ rest
    ]

module _ {W : Type 0} (db : Database W) (conn : Conn W) (ctx : Context W) where
  abbrev pub modify_request : Bool → List RecordId → ModifyRequest W
  modify_request atomic ids = record {
    hook_registry = ctx.hook_registry;
    atomic = atomic;
    with_master_key = ctx.with_master_key;
    auth_info = ctx.auth_info;
    modify_at = 0;
    records_to_save = [];
    record_ids_to_delete = ids;
  }

  unfoldable pub delete_func : Bool → List RecordId → W → Option (Modified W)
  unfolding record_delete_handler atomic_modify_func
  delete_func atomic ids w =
      let remove = λ (w' : W) (errs : ErrMap).
        record_delete_handler db conn (modify_request atomic ids) w' errs in
      if atomic then atomic_modify_func ctx.transactional remove w [] else remove w []

  -- `Handle`, on the payload that was decoded.
  unfoldable pub handle : Bool → List RecordId → W → Option (W × Response)
  unfolding delete_func replies
  handle atomic ids w =
      if ctx.read_only
      then some
          (w, refusal (new_error not_supported "modifying the selected database is not supported"))
      else delete_func atomic ids w >>= λ m. elim (m.error) [
        | some e ↦ some (m.world, refusal e)
        | none ↦ some (m.world, results (replies m.err_map ids))
      ]
