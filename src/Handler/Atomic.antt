-- ===== src/Handler/Atomic.antt =====
-- pkg/server/handler/record.go, lines 816-845, and pkg/server/skydb/database.go, lines 165-202: changing
-- records within a transaction. `none` is a panic. Of the errors' maps `info` nothing is kept.
pub mod Committed
use skygear_server.Common.{Bool, true, false, Option, none, some, [], ◌>>=◌, if◌then◌else◌, not}
use skygear_server.Skyerr.{Error, GoError, sky, new_error, not_supported, atomic_operation_failure}
use skygear_server.Recordutil.Modify.{Modified, ErrMap, is_empty}

-- `skydb.Transactional`, on a state `W` of the world; `none` is the nil error.
pub record Transactional (W : Type 0) : Type 0 where
  pub begin : W → W × Option GoError
  pub commit : W → W × Option GoError
  pub rollback : W → W × Option GoError

-- The error by the map of errors and by that of the transaction.
abbrev pub reported : ErrMap → Option GoError → Option Error
reported errs tx_err =
    if not (is_empty errs)
    then some (
        new_error atomic_operation_failure "Atomic Operation rolled back due to one or more errors")
    else elim tx_err [
      | none ↦ none
      | some e ↦
          some (new_error atomic_operation_failure "Atomic Operation rolled back due to an error")
    ]

module _ {W : Type 0} where
  -- The end of `WithTransaction`: the error of `do`, or that of `Commit`.
  ended : Transactional W → Modified W → W × Option GoError
  ended tx m = elim (m.error) [
    | some e ↦ ((tx.rollback m.world).0, some (sky e))
    | none ↦ tx.commit m.world
  ]

  -- What `WithTransaction` leaves: the response of the function that it ran, and the error.
  unfoldable pub with_transaction :
      Transactional W
      → (W → ErrMap → Option (Modified W))
      → W
      → ErrMap
      → Option (Modified W × Option GoError)
  unfolding ended
  with_transaction tx do_ w errs =
      let (begun, failed) = tx.begin w in
      elim failed [
        | some e ↦ some (
          record {
            world = begun;
            err_map = errs;
            saved_records = [];
            deleted_record_ids = [];
            error = none;
          },
          some e,
        )
        | none ↦
            do_ begun errs >>= λ m. let (w', e) = ended tx m in some (record m { world = w' }, e)
      ]

  -- `none` is a database that is not `Transactional`.
  unfoldable pub atomic_modify_func :
      Option (Transactional W)
      → (W → ErrMap → Option (Modified W))
      → W
      → ErrMap
      → Option (Modified W)
  unfolding with_transaction
  atomic_modify_func none m_func w errs = some (record {
    world = w;
    err_map = errs;
    saved_records = [];
    deleted_record_ids = [];
    error = some (new_error not_supported "database impl does not support transaction");
  })
  atomic_modify_func (some tx) m_func w errs = with_transaction tx m_func w errs >>= λ r.
      some (record r.0 { error = reported r.0.err_map r.1 })
