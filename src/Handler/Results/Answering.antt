-- ===== src/Handler/Results/Answering.antt =====
-- The answers of pkg/server/handler/record.go to a request that saves records.
use skygear_server.Common.{
  ◌≡◌, refl, sym, subst, ◌∙◌, Option, none, some, List, [], ◌∷◌, arith, Option-cases, inl, inr,
  select,
}
use skygear_server.Skydb.Record
use skygear_server.Skydb.Record.{Record, user_keys}
use skygear_server.Skydb.RecordMap as ById
use skygear_server.Skydb.Value.{RecordId}
use skygear_server.Skyerr.{Error}
use skygear_server.Recordutil.Fetch.{id_string}
use skygear_server.Recordutil.Modify.{ErrMap}
use skygear_server.Recordutil.Modify.Distinct.{has_no_error}
use skygear_server.Recordutil.Scrub.Reading.{id-scrub_record_fields_for_read}
use skygear_server.Recordutil.Assets.Identity.{ids}
use skygear_server.Handler.Results.{
  Item, deserialized, malformed, Reply, failed, saved, RecordResultFilter, json_result,
  make_results,
}

id-json_result :
    (f : RecordResultFilter) (rec out : Record) → json_result f rec ≡ some out → out.id ≡ rec.id
unfolding json_result Record.copy
id-json_result f rec out e =
    ground (arith, e, id-scrub_record_fields_for_read f.auth_info (Record.copy rec) out f.field_acl)

-- The identifiers that could be read from the request.
abbrev pub item_ids : List Item → List RecordId
item_ids [] = []
item_ids (malformed e ∷ items) = item_ids items
item_ids (deserialized id ∷ items) = id ∷ item_ids items

-- What a record is answered with: its error, or the record.
abbrev pub IsOutcome : RecordId → Option Error → Reply → Type 0
IsOutcome id (some e) reply = reply ≡ failed (id_string id) e
IsOutcome id none reply = (rec : Record) × (reply ≡ saved rec) × (rec.id ≡ id)

abbrev pub IsAnswer : ErrMap → Item → Reply → Type 0
IsAnswer errs (malformed e) reply = reply ≡ failed "" e
IsAnswer errs (deserialized id) reply = IsOutcome id (ById.lookup id errs) reply

abbrev pub AreAnswers : ErrMap → List Item → List Reply → Type 0
AreAnswers errs [] [] = Unit
AreAnswers errs (item ∷ items) (reply ∷ replies) =
    IsAnswer errs item reply × AreAnswers errs items replies
AreAnswers errs _ _ = ⊥

-- The filter hands out every record.
abbrev pub IsTotal : RecordResultFilter → Type 0
IsTotal f = (rec : Record) → (out : Record) × (json_result f rec ≡ some out)

module _ (f : RecordResultFilter) (total : IsTotal f) (errs : ErrMap) where
  -- A head of the answers.
  make_results_saved :
      (id : RecordId) (rec : Record) (others : List Record) (items : List Item) (rest : List Reply)
      → ById.lookup id errs ≡ none
      → make_results f errs others items ≡ some rest
      → make_results f errs (rec ∷ others) (deserialized id ∷ items)
        ≡ some (saved (total rec).0 ∷ rest)
  unfolding make_results
  make_results_saved id rec others items rest p q = ground (arith, p, q, (total rec).1)

  abbrev pub Answered : List Record → List Item → Type 0
  Answered records items =
      (replies : List Reply) × (make_results f errs records items ≡ some replies)
      × AreAnswers errs items replies

  failed_answer :
      (records : List Record) (id : RecordId) (e : Error) (items : List Item)
      → ById.lookup id errs ≡ some e
      → Answered records items
      → Answered records (deserialized id ∷ items)
  unfolding make_results
  failed_answer records id e items k (rest, p, q) = (
    failed (id_string id) e ∷ rest,
    ground (arith, p, k),
    (subst (λ o. IsOutcome id o (failed (id_string id) e)) (sym k) refl, q),
  )

  -- If the records are those of the items that have no error in the map, in their order, and the
  -- filter hands out every record, then there is an answer for each item, in the order of the items:
  -- the item's own error, else the error that the map has for its record, else that record itself.
  pub make_results-AreAnswers :
      (records : List Record) (items : List Item)
      → ids records ≡ select (has_no_error errs) (item_ids items)
      → Answered records items
  unfolding make_results
  make_results-AreAnswers records [] h = ([], refl, tt)
  make_results-AreAnswers records (malformed e ∷ items) h =
      let (rest, p, q) = make_results-AreAnswers records items h in
      (failed "" e ∷ rest, ground (arith, p), (refl, q))
  make_results-AreAnswers [] (deserialized id ∷ items) h =
      elim (Option-cases (ById.lookup id errs)) [
        | inl k ↦ absurd (ground (arith, h, k))
        | inr (e, k) ↦
            failed_answer [] id e items k (make_results-AreAnswers [] items (ground (arith, h, k)))
      ]
  make_results-AreAnswers (rec ∷ others) (deserialized id ∷ items) h =
      elim (Option-cases (ById.lookup id errs)) [
        | inr (e, k) ↦
            failed_answer (rec ∷ others) id e items k
              (make_results-AreAnswers (rec ∷ others) items (ground (arith, h, k)))
        | inl k ↦
            let here : rec.id ≡ id = ground (arith, h, k) in
            let later : ids others ≡ select (has_no_error errs) (item_ids items) =
              ground (arith, h, k) in
            let (rest, p, q) = make_results-AreAnswers others items later in
            (
              saved (total rec).0 ∷ rest,
              make_results_saved id rec others items rest k p,
              (
                subst (λ o. IsOutcome id o (saved (total rec).0)) (sym k)
                    ((total rec).0, refl, id-json_result f rec (total rec).0 (total rec).1 ∙ here),
                q,
              ),
            )
      ]
