-- ===== src/Recordutil/Modify/Aligned.antt =====
-- The loop `executeRecordFunc` of pkg/server/recordutil/recordutil.go keeps, in the order of the request,
-- exactly the records that have no error in the map.
use skygear_server.Common.{
  ◌≡◌, sym, subst, ◌∙◌, Option, none, some, List, [], ◌∷◌, ◌++◌, arith, select, Option-cases, inl,
  inr,
}
use mathlib.Core.List.{append_assoc}
use skygear_server.Skydb.Record.{Record}
use skygear_server.Skydb.RecordMap as ById
use skygear_server.Skydb.Value.{RecordId}
use skygear_server.Plugin.Hook.{Kind, Called, Registry, execute_hooks}
use skygear_server.Recordutil.Modify.{ErrMap, Run, execute_record_func, trigger}
use skygear_server.Recordutil.Modify.Rounds.{execute-kept, execute-failed, execute-panicked}
use skygear_server.Recordutil.Modify.Identity.{KeepsId, HooksKeepId, hook_called-id}
use skygear_server.Recordutil.Modify.Distinct.{
  AreDistinct, without-middle, select-AreDistinct, has_no_error, select-insert,
}
use skygear_server.Recordutil.Assets.Identity.{ids}

-- The identifiers of the records are those of the request that have no error.
abbrev pub IsAligned : List RecordId → List Record → ErrMap → Type 0
IsAligned all records errs = ids records ≡ select (has_no_error errs) all

module _ (all : List RecordId) (distinct : AreDistinct all) where
  module _ {S : Type 0} (f : S → Record → Option (Called S)) (keeps : KeepsId f) where
    execute_after :
        (pre : List RecordId) (s : S) (records : List Record) (errs : ErrMap) (run : Run S)
        → pre ++ ids records ≡ select (has_no_error errs) all
        → execute_record_func f s records errs ≡ some run
        → pre ++ ids run.kept ≡ select (has_no_error run.err_map) all
    unfolding execute_record_func
    execute_after pre s [] errs run h e = ground (arith, h, e)
    execute_after pre s (rec ∷ records) errs run h e = elim (Option-cases (f s rec)) [
      | inl p ↦ absurd (ground (arith, execute-panicked f s rec records errs p))
      | inr (called, p) ↦ elim (Option-cases called.error) [
        | inl k ↦
            let (rest, q, same) = execute-kept f s rec records errs called run p k e in
            ground (
              arith,
              execute_after (pre ++ rec.id ∷ []) called.state records errs rest,
              append_assoc pre (rec.id ∷ []) (ids records),
              append_assoc pre (rec.id ∷ []) (ids rest.kept),
              keeps s rec called p,
              same,
              q,
            )
        | inr (x, k) ↦
            execute_after pre called.state records (ById.insert called.outcome.id x errs) run
              (sym (
                  without-middle rec.id pre (ids records) (
                    subst AreDistinct (sym h)
                      (select-AreDistinct (has_no_error errs) all distinct)))
                ∙ ground
                    (arith, h, keeps s rec called p, select-insert called.outcome.id x errs all))
              (sym (execute-failed f s rec records errs called x p k) ∙ e)
      ]
    ]

    pub execute-IsAligned :
        (s : S) (records : List Record) (errs : ErrMap) (run : Run S)
        → IsAligned all records errs
        → execute_record_func f s records errs ≡ some run
        → IsAligned all run.kept run.err_map
    execute-IsAligned s records errs run h e = execute_after [] s records errs run h e

  pub trigger-IsAligned :
      {W : Type 0} (registry : Option (Registry W)) (kind : Kind)
      (original : RecordId → Option Record) (w : W) (records : List Record) (errs : ErrMap)
      (run : Run W)
      → HooksKeepId registry
      → IsAligned all records errs
      → trigger registry kind original w records errs ≡ some run
      → IsAligned all run.kept run.err_map
  unfolding trigger
  trigger-IsAligned none kind original w records errs run keeps h e = ground (arith, h, e)
  trigger-IsAligned (some registry) kind original w records errs run keeps h e =
      execute-IsAligned (λ w' rec. some (execute_hooks registry kind w' rec (original rec.id)))
        (λ w' rec called p. hook_called-id registry kind w' rec (original rec.id) called keeps p) w
        records errs run h e
