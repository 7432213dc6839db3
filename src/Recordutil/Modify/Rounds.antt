-- ===== src/Recordutil/Modify/Rounds.antt =====
-- The loop `executeRecordFunc` of pkg/server/recordutil/recordutil.go: what holds of the records it
-- keeps, and when it keeps them all.
use skygear_server.Common.{
  ◌≤◌, ◌<◌, ◌≡◌, sym, subst, ◌∙◌, Option, none, some, List, [], ◌∷◌, arith, length, All,
  Option-cases, inl, inr,
}
use skygear_server.Skydb.Record.{Record}
use skygear_server.Skydb.RecordMap as ById
use skygear_server.Skydb.RecordMap.{length-insert}
use skygear_server.Skyerr.{Error}
use skygear_server.Plugin.Hook.{Called}
use skygear_server.Recordutil.Modify.{ErrMap, Run, execute_record_func}

module _ {S : Type 0} (f : S → Record → Option (Called S)) where
  -- The loop on a first record that is kept, or on one that fails.
  pub execute-kept :
      (s : S) (rec : Record) (records : List Record) (errs : ErrMap) (called : Called S)
      (run : Run S)
      → f s rec ≡ some called
      → called.error ≡ none
      → execute_record_func f s (rec ∷ records) errs ≡ some run
      → (rest : Run S) × (execute_record_func f called.state records errs ≡ some rest)
        × (run ≡ record rest { kept = called.outcome ∷ rest.kept })
  unfolding execute_record_func
  execute-kept s rec records errs called run e k h =
      elim (Option-cases (execute_record_func f called.state records errs)) [
        | inl p ↦ absurd (ground (arith, e, k, p))
        | inr (rest, p) ↦ (rest, p, ground (arith, e, k, p))
      ]

  pub execute-failed :
      (s : S) (rec : Record) (records : List Record) (errs : ErrMap) (called : Called S) (e : Error)
      → f s rec ≡ some called
      → called.error ≡ some e
      → execute_record_func f s (rec ∷ records) errs
        ≡ execute_record_func f called.state records (ById.insert called.outcome.id e errs)
  unfolding execute_record_func
  execute-failed s rec records errs called e p k = ground (arith, p, k)

  pub execute-panicked :
      (s : S) (rec : Record) (records : List Record) (errs : ErrMap)
      → f s rec ≡ none
      → execute_record_func f s (rec ∷ records) errs ≡ none
  unfolding execute_record_func
  execute-panicked s rec records errs p = ground (arith, p)

  -- If a call on a record with `P` keeps `Inv` and leaves `Q` of each record that it does not fail on,
  -- then the loop keeps `Inv`, and each record that it keeps has `Q`.
  module _ (Inv : S → Type 0) (P Q : Record → Type 0)
      (step : (s : S) (rec : Record) (called : Called S)
        → Inv s
        → P rec
        → f s rec ≡ some called
        → Inv called.state × (called.error ≡ none → Q called.outcome)) where
    pub execute-All :
        (s : S) (records : List Record) (errs : ErrMap) (run : Run S)
        → Inv s
        → All P records
        → execute_record_func f s records errs ≡ some run
        → Inv run.state × All Q run.kept
    unfolding execute_record_func
    execute-All s [] errs run i h e =
        let same : record { state = s; kept = []; err_map = errs } ≡ run = ground (arith, e) in
        subst (λ (r : Run S). Inv r.state × All Q r.kept) same (i, tt)
    execute-All s (rec ∷ records) errs run i h e = elim (Option-cases (f s rec)) [
      | inl p ↦ absurd (ground (arith, execute-panicked s rec records errs p))
      | inr (called, p) ↦ elim (Option-cases called.error) [
        | inl k ↦
            let (rest, q, same) = execute-kept s rec records errs called run p k e in
            let (i', h') =
              execute-All called.state records errs rest (step s rec called i h.0 p).0 h.1 q in
            subst (λ (r : Run S). Inv r.state × All Q r.kept) (sym same)
              (i', ((step s rec called i h.0 p).1 k, h'))
        | inr (x, k) ↦
            execute-All called.state records (ById.insert called.outcome.id x errs) run
              (step s rec called i h.0 p).0 h.1
              (sym (execute-failed s rec records errs called x p k) ∙ e)
      ]
    ]

  -- The loop loses no error that was in the map; it keeps all records exactly if it adds none.
  abbrev pub Counted : List Record → ErrMap → Run S → Type 0
  Counted records errs run =
      (length run.kept ≤ length records)
      × (length errs ≤ length run.err_map)
      × (length run.kept < length records → 0 < length run.err_map)
      × (length run.kept ≡ length records → run.err_map ≡ errs)

  pub execute-Counted :
      (s : S) (records : List Record) (errs : ErrMap) (run : Run S)
      → execute_record_func f s records errs ≡ some run
      → Counted records errs run
  unfolding execute_record_func
  execute-Counted s [] errs run e = ground (arith, e)
  execute-Counted s (rec ∷ records) errs run e = elim (Option-cases (f s rec)) [
    | inl p ↦ absurd (ground (arith, execute-panicked s rec records errs p))
    | inr (called, p) ↦ elim (Option-cases called.error) [
      | inl k ↦
          let (rest, q, same) = execute-kept s rec records errs called run p k e in
          ground (arith, execute-Counted called.state records errs rest q, same)
      | inr (x, k) ↦
          let errs' = ById.insert called.outcome.id x errs in
          ground (
            arith,
            execute-Counted called.state records errs' run
                (sym (execute-failed s rec records errs called x p k) ∙ e),
            length-insert called.outcome.id x errs,
          )
    ]
  ]
