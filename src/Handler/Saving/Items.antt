-- ===== src/Handler/Saving/Items.antt =====
-- The items of a request of pkg/server/handler/record.go to save records, and the replies to them.
use skygear_server.Common.{◌≡◌, refl, sym, ap, ◌∙◌, Bool, true, false, List, [], ◌∷◌, ◌++◌, arith}
use mathlib.Core.List.{append-nil, append_assoc}
use skygear_server.Skydb.RecordMap as ById
use skygear_server.Recordutil.Modify.{ErrMap}
use skygear_server.Handler.Results.{Item, deserialized, malformed, Reply, failed}
use skygear_server.Handler.Results.Answering.{IsOutcome, IsAnswer, AreAnswers}
use skygear_server.Handler.Saving.{
  Init, initialized, invalid, RecordSavePayload, payload, validate_loop, validate,
}

-- The item for an element of the request.
abbrev item_of : Init → Item
item_of (initialized rec) = deserialized rec.id
item_of (invalid e) = malformed e

module _ {M : Type 0} (init_record : M → Init) where
  unfoldable pub items_of : List M → List Item
  items_of [] = []
  items_of (m ∷ raw_maps) = item_of (init_record m) ∷ items_of raw_maps

  validate_loop-round :
      (m : M) (raw_maps : List M) (p : RecordSavePayload) (i : Init)
      → init_record m ≡ i
      → ((q : RecordSavePayload)
          → (validate_loop init_record raw_maps q).incoming_items
            ≡ q.incoming_items ++ items_of raw_maps)
      → (validate_loop init_record (m ∷ raw_maps) p).incoming_items
        ≡ p.incoming_items ++ items_of (m ∷ raw_maps)
  unfolding validate_loop items_of
  validate_loop-round m raw_maps p (initialized rec) k ih = ground (
    arith,
    k,
    ih (record p {
      incoming_items = p.incoming_items ++ (deserialized rec.id ∷ []);
      records = p.records ++ (rec ∷ []);
    }),
    append_assoc p.incoming_items (deserialized rec.id ∷ []) (items_of raw_maps),
  )
  validate_loop-round m raw_maps p (invalid e) k ih = ground (
    arith,
    k,
    ih (record p {
      incoming_items = p.incoming_items ++ (malformed e ∷ []);
      errs = p.errs ++ (e ∷ []);
      clean = false;
    }),
    append_assoc p.incoming_items (malformed e ∷ []) (items_of raw_maps),
  )

  validate_loop-items :
      (raw_maps : List M) (p : RecordSavePayload)
      → (validate_loop init_record raw_maps p).incoming_items
        ≡ p.incoming_items ++ items_of raw_maps
  unfolding validate_loop items_of
  validate_loop-items [] p = sym (append-nil p.incoming_items)
  validate_loop-items (m ∷ raw_maps) p =
      validate_loop-round m raw_maps p (init_record m) refl (λ q. validate_loop-items raw_maps q)

  pub validate-items :
      (atomic : Bool) (raw_maps : List M) (p : RecordSavePayload)
      → validate init_record atomic raw_maps ≡ payload p
      → p.incoming_items ≡ items_of raw_maps
  unfolding validate
  validate-items atomic [] p e = absurd (cc)
  validate-items atomic (m ∷ raw_maps) p e =
      let start : RecordSavePayload = record {
        atomic = atomic;
        incoming_items = [];
        records = [];
        errs = [];
        clean = true;
      } in
      let same : validate_loop init_record (m ∷ raw_maps) start ≡ p = ground (arith, e) in
      ap (λ (q : RecordSavePayload). q.incoming_items) (sym same)
      ∙ validate_loop-items (m ∷ raw_maps) start

  -- The reply to an element of the request: the error of deserializing it, else the error of saving it,
  -- else the record with its identifier.
  abbrev pub IsReply : ErrMap → Init → Reply → Type 0
  IsReply errs (invalid e) reply = reply ≡ failed "" e
  IsReply errs (initialized rec) reply = IsOutcome rec.id (ById.lookup rec.id errs) reply

  -- One reply for each element, in the order of the request.
  abbrev pub AreReplies : ErrMap → List M → List Reply → Type 0
  AreReplies errs [] [] = Unit
  AreReplies errs (m ∷ raw_maps) (reply ∷ replies) =
      IsReply errs (init_record m) reply × AreReplies errs raw_maps replies
  AreReplies errs _ _ = ⊥

  IsReply-of :
      (errs : ErrMap) (i : Init) (reply : Reply)
      → IsAnswer errs (item_of i) reply
      → IsReply errs i reply
  IsReply-of errs (initialized rec) reply h = h
  IsReply-of errs (invalid e) reply h = h

  pub AreReplies-of :
      (errs : ErrMap) (raw_maps : List M) (replies : List Reply)
      → AreAnswers errs (items_of raw_maps) replies
      → AreReplies errs raw_maps replies
  unfolding items_of
  AreReplies-of errs [] [] h = tt
  AreReplies-of errs [] (reply ∷ replies) h = absurd h
  AreReplies-of errs (m ∷ raw_maps) [] h = absurd h
  AreReplies-of errs (m ∷ raw_maps) (reply ∷ replies) h =
      (IsReply-of errs (init_record m) reply h.0, AreReplies-of errs raw_maps replies h.1)
