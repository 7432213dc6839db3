-- ===== src/Recordutil/Modify/Identity.antt =====
-- The loop `executeRecordFunc` of pkg/server/recordutil/recordutil.go with functions that do not change
-- which record a record is.
use skygear_server.Common.{◌≡◌, sym, subst, Option, none, some, List, arith, All}
use skygear_server.Skydb.Record.{Record}
use skygear_server.Skydb.Value.{RecordId}
use skygear_server.Plugin.Hook.{Kind, Called, Registry, execute_hooks}
use skygear_server.Recordutil.Modify.{ErrMap, Run, execute_record_func, trigger}
use skygear_server.Recordutil.Modify.Rounds.{execute-All}

-- A function of `executeRecordFunc` that leaves the identifier of each record.
abbrev pub KeepsId : {S : Type 0} → (S → Record → Option (Called S)) → Type 0
KeepsId {S} f =
    (s : S) (rec : Record) (called : Called S) → f s rec ≡ some called → called.outcome.id ≡ rec.id

-- The hooks do not change the identifier of a record.
abbrev pub HooksKeepId : {W : Type 0} → Option (Registry W) → Type 0
HooksKeepId none = Unit
HooksKeepId {W} (some registry) =
    (kind : Kind) (w : W) (rec : Record) (old : Option Record)
    → (execute_hooks registry kind w rec old).outcome.id ≡ rec.id

pub hook_called-id :
    {W : Type 0} (registry : Registry W) (kind : Kind) (w : W) (rec : Record) (old : Option Record)
    (called : Called W)
    → HooksKeepId (some registry)
    → some (execute_hooks registry kind w rec old) ≡ some called
    → called.outcome.id ≡ rec.id
hook_called-id registry kind w rec old called keeps e = ground (arith, e, keeps kind w rec old)

-- What holds of the identifiers of all records holds of those that are kept.
module _ (R : RecordId → Type 0) where
  pub execute-All_ids :
      {S : Type 0} (f : S → Record → Option (Called S)) (s : S) (records : List Record)
      (errs : ErrMap) (run : Run S)
      → KeepsId f
      → All (λ r. R r.id) records
      → execute_record_func f s records errs ≡ some run
      → All (λ r. R r.id) run.kept
  execute-All_ids f s records errs run keeps h e =
      (execute-All f (λ x. Unit {0}) (λ r. R r.id) (λ r. R r.id)
        (λ x rec called i p q. (tt, λ ok. subst R (sym (keeps x rec called q)) p)) s records errs
        run tt h e).1

  pub trigger-All_ids :
      {W : Type 0} (registry : Option (Registry W)) (kind : Kind)
      (original : RecordId → Option Record) (w : W) (records : List Record) (errs : ErrMap)
      (run : Run W)
      → HooksKeepId registry
      → All (λ r. R r.id) records
      → trigger registry kind original w records errs ≡ some run
      → All (λ r. R r.id) run.kept
  unfolding trigger
  trigger-All_ids none kind original w records errs run keeps h e =
      let same : records ≡ run.kept = ground (arith, e) in subst (All (λ r. R r.id)) same h
  trigger-All_ids (some registry) kind original w records errs run keeps h e =
      execute-All_ids (λ w' rec. some (execute_hooks registry kind w' rec (original rec.id))) w
        records errs run
        (λ w' rec called p. hook_called-id registry kind w' rec (original rec.id) called keeps p) h
        e
