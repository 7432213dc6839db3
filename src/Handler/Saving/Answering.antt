-- ===== src/Handler/Saving/Answering.antt =====
-- The action `record:save` of pkg/server/handler/record.go answers each item of the request.
use skygear_server.Common.{
  ◌≡◌, refl, subst, ap, ◌∙◌, Bool, true, false, none, some, List, [], ◌∷◌, ◌++◌, arith, Bool-cases,
  inl, inr, select,
}
use mathlib.Core.List.{append-nil}
use skygear_server.Skydb.Record.{Record}
use skygear_server.Skydb.Value.{Value}
use skygear_server.Recordutil.Modify.{Database, Conn, Modified}
use skygear_server.Recordutil.Modify.Distinct.{AreDistinct, has_no_error}
use skygear_server.Recordutil.Modify.Identity.{HooksKeepId}
use skygear_server.Recordutil.Assets.Identity.{ids}
use skygear_server.Recordutil.Save.Aligned.{record_save_handler-IsAligned}
use skygear_server.Recordutil.Save.Identity.{GetsById, SaveKeepsId}
use skygear_server.Handler.Atomic.Committed.{atomic_save-IsAligned}
use skygear_server.Handler.Results.{Item, deserialized, malformed, Reply, RecordResultFilter}
use skygear_server.Handler.Results.Answering.{
  item_ids, IsTotal, AreAnswers, make_results-AreAnswers,
}
use skygear_server.Handler.Saving.Items.{validate-items, AreReplies, AreReplies-of}
use skygear_server.Handler.Saving.{
  Init, initialized, invalid, RecordSavePayload, payload, validate_loop, validate, Context, results,
  modify_request, sent, save_func, saved_results,
}

-- The records of a payload are those of its items, in their order.
abbrev pub IsMatched : RecordSavePayload → Type 0
IsMatched p = ids p.records ≡ item_ids p.incoming_items

item_ids-append : (xs ys : List Item) → item_ids (xs ++ ys) ≡ item_ids xs ++ item_ids ys
item_ids-append [] ys = refl
item_ids-append (malformed e ∷ xs) ys = item_ids-append xs ys
item_ids-append (deserialized id ∷ xs) ys = ground (arith, item_ids-append xs ys)

ids-append : (xs ys : List Record) → ids (xs ++ ys) ≡ ids xs ++ ids ys
ids-append [] ys = refl
ids-append (x ∷ xs) ys = ground (arith, ids-append xs ys)

module _ {M : Type 0} (init_record : M → Init) where
  IsMatched-round :
      (m : M) (raw_maps : List M) (p : RecordSavePayload) (i : Init)
      → init_record m ≡ i
      → IsMatched p
      → ((q : RecordSavePayload) → IsMatched q → IsMatched (validate_loop init_record raw_maps q))
      → IsMatched (validate_loop init_record (m ∷ raw_maps) p)
  unfolding validate_loop
  IsMatched-round m raw_maps p (initialized rec) k h ih =
      let q : RecordSavePayload = record p {
        incoming_items = p.incoming_items ++ (deserialized rec.id ∷ []);
        records = p.records ++ (rec ∷ []);
      } in
      let same : validate_loop init_record raw_maps q ≡ validate_loop init_record (m ∷ raw_maps) p =
        ground (arith, k) in
      let added : IsMatched q = ground (
        arith,
        h,
        ids-append p.records (rec ∷ []),
        item_ids-append p.incoming_items (deserialized rec.id ∷ []),
      ) in
      subst IsMatched same (ih q added)
  IsMatched-round m raw_maps p (invalid e) k h ih =
      let q : RecordSavePayload = record p {
        incoming_items = p.incoming_items ++ (malformed e ∷ []);
        errs = p.errs ++ (e ∷ []);
        clean = false;
      } in
      let same : validate_loop init_record raw_maps q ≡ validate_loop init_record (m ∷ raw_maps) p =
        ground (arith, k) in
      let added : IsMatched q = ground (
        arith,
        h,
        item_ids-append p.incoming_items (malformed e ∷ []),
        append-nil (item_ids p.incoming_items),
      ) in
      subst IsMatched same (ih q added)

  validate_loop-IsMatched :
      (raw_maps : List M) (p : RecordSavePayload)
      → IsMatched p
      → IsMatched (validate_loop init_record raw_maps p)
  unfolding validate_loop
  validate_loop-IsMatched [] p h = h
  validate_loop-IsMatched (m ∷ raw_maps) p h =
      IsMatched-round m raw_maps p (init_record m) refl h
        (λ q k. validate_loop-IsMatched raw_maps q k)

  pub validate-IsMatched :
      (atomic : Bool) (raw_maps : List M) (p : RecordSavePayload)
      → validate init_record atomic raw_maps ≡ payload p
      → IsMatched p
  unfolding validate
  validate-IsMatched atomic [] p e = absurd (cc)
  validate-IsMatched atomic (m ∷ raw_maps) p e =
      let start : RecordSavePayload = record {
        atomic = atomic;
        incoming_items = [];
        records = [];
        errs = [];
        clean = true;
      } in
      let same : validate_loop init_record (m ∷ raw_maps) start ≡ p = ground (arith, e) in
      subst IsMatched same (validate_loop-IsMatched (m ∷ raw_maps) start refl)

module _ {W : Type 0} (db : Database W) (conn : Conn W) (deep_equal : Value → Value → Bool)
    (ctx : Context W) where
  save_func-aligned :
      (p : RecordSavePayload) (w : W) (m : Modified W)
      → ((v : W) → GetsById (db.get v))
      → SaveKeepsId db
      → HooksKeepId ctx.hook_registry
      → AreDistinct (ids p.records)
      → save_func db conn deep_equal ctx p w ≡ some m
      → m.error ≡ none
      → ids m.saved_records ≡ select (has_no_error m.err_map) (ids p.records)
  unfolding save_func
  save_func-aligned p w m by_id saves hooks distinct e ok = elim (Bool-cases p.atomic) [
    | inr a ↦
        record_save_handler-IsAligned db conn deep_equal (modify_request db conn deep_equal ctx p) w
          m (by_id w) saves hooks distinct (ground (arith, e, a)) ok
    | inl a ↦
        atomic_save-IsAligned db conn deep_equal (modify_request db conn deep_equal ctx p)
          ctx.transactional w m by_id saves hooks distinct (ground (arith, e, a)) ok
  ]

  -- If each record of the request has its own identifier, the database finds records under theirs,
  -- neither its `Save` nor the hooks change identifiers, the filter hands out every record, and the
  -- saving, atomic or not, did not panic and gave no error of the whole request, then making the answer
  -- does not panic either, and there is one reply for each element of the request, in the order of the
  -- request: the error of deserializing it, else the error of saving it, else the record with its
  -- identifier.
  pub saved_results-AreReplies :
      {M : Type 0} (init_record : M → Init) (atomic : Bool) (raw_maps : List M)
      (p : RecordSavePayload) (filter : RecordResultFilter) (updated : Bool) (w : W)
      (m : Modified W)
      → validate init_record atomic raw_maps ≡ payload p
      → AreDistinct (ids p.records)
      → ((v : W) → GetsById (db.get v))
      → SaveKeepsId db
      → HooksKeepId ctx.hook_registry
      → IsTotal filter
      → save_func db conn deep_equal ctx p w ≡ some m
      → m.error ≡ none
      → (w' : W) × (replies : List Reply) × (saved_results db conn deep_equal ctx p filter updated w
          ≡ some (w', results replies))
        × AreReplies init_record m.err_map raw_maps replies
  unfolding saved_results
  saved_results-AreReplies init_record atomic raw_maps p filter updated w m valid distinct by_id
        saves hooks total e ok =
      let matched = validate-IsMatched init_record atomic raw_maps p valid in
      let aligned : ids m.saved_records
          ≡ select (has_no_error m.err_map) (item_ids p.incoming_items) =
        save_func-aligned p w m by_id saves hooks distinct e ok
        ∙ ap (select (has_no_error m.err_map)) matched in
      let (replies, q, answers) =
        make_results-AreAnswers filter total m.err_map m.saved_records p.incoming_items aligned in
      (
        sent db conn deep_equal ctx updated m.world,
        replies,
        ground (arith, e, ok, q),
        AreReplies-of init_record m.err_map raw_maps replies (
            subst (λ x. AreAnswers m.err_map x replies)
              (validate-items init_record atomic raw_maps p valid) answers),
      )
