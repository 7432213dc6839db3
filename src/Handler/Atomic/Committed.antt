-- ===== src/Handler/Atomic/Committed.antt =====
-- When `atomicModifyFunc` of pkg/server/handler/record.go commits, and what it answers then.
use skygear_server.Common.{
  ◌≡◌, refl, sym, subst, ap, ◌∙◌, Bool, true, false, Option, none, some, [], ◌∷◌, inl, inr, arith,
  Option-cases, select,
}
use skygear_server.Skydb.Value.{Value}
use skygear_server.Skyerr.{Error, new_error, atomic_operation_failure}
use skygear_server.Recordutil.Modify.{Database, Conn, ModifyRequest, Modified, ErrMap, is_empty}
use skygear_server.Recordutil.Modify.Distinct.{AreDistinct, has_no_error, select-no_errors}
use skygear_server.Recordutil.Modify.Identity.{HooksKeepId}
use skygear_server.Recordutil.Assets.Identity.{ids}
use skygear_server.Recordutil.Save.{record_save_handler}
use skygear_server.Recordutil.Save.Aligned.{record_save_handler-IsAligned}
use skygear_server.Recordutil.Save.Identity.{GetsById, SaveKeepsId}
use skygear_server.Handler.Atomic.{
  Transactional, ended, with_transaction, reported, atomic_modify_func,
}

module _ {W : Type 0} (tx : Transactional W) (m_func : W → ErrMap → Option (Modified W)) where
  -- If the transaction begins and the function returns, then it is committed exactly if the function
  -- returns no error, and rolled back otherwise; the answer is without an error exactly if it was
  -- committed, `Commit` had no error, and no record has an error in the map; and a function that
  -- returns no error but leaves one in the map is committed and yet answered as rolled back.
  pub atomic_modify_func_lem :
      (w : W) (errs : ErrMap) (m0 : Modified W)
      → (tx.begin w).1 ≡ none
      → m_func (tx.begin w).0 errs ≡ some m0
      → (m : Modified W) × (atomic_modify_func (some tx) m_func w errs ≡ some m)
        × (m.err_map ≡ m0.err_map)
        × (m.saved_records ≡ m0.saved_records)
        × (m0.error ≡ none → m.world ≡ (tx.commit m0.world).0)
        × ((e : Error) → m0.error ≡ some e → m.world ≡ (tx.rollback m0.world).0)
        × (m.error ≡ none
            → (m0.error ≡ none) × ((tx.commit m0.world).1 ≡ none) × (is_empty m0.err_map ≡ true))
        × (m0.error ≡ none
            → (tx.commit m0.world).1 ≡ none
            → m.error ≡ elim (is_empty m0.err_map) [
              | true ↦ none
              | false ↦ some (
                  new_error atomic_operation_failure
                    "Atomic Operation rolled back due to one or more errors")
            ])
  unfolding atomic_modify_func with_transaction ended
  atomic_modify_func_lem w errs m0 began returned = (
    record m0 { world = (ended tx m0).0; error = reported m0.err_map (ended tx m0).1 },
    ground (arith, began, returned),
    refl,
    refl,
    λ ok. ground (arith, ok),
    λ e failed. ground (arith, failed),
    λ ok. ground (arith, ok),
    λ ok committed. ground (arith, ok, committed),
  )

eq-nil_of_is_empty : (errs : ErrMap) → is_empty errs ≡ true → errs ≡ []
eq-nil_of_is_empty [] h = refl
eq-nil_of_is_empty (e ∷ errs) h = absurd (cc)

module _ {W : Type 0} (db : Database W) (conn : Conn W) (deep_equal : Value → Value → Bool)
    (req : ModifyRequest W) (tx : Transactional W) where
  abbrev saving : W → ErrMap → Option (Modified W)
  saving w errs = record_save_handler db conn deep_equal req w errs

  saved_all :
      (w : W) (m0 m : Modified W)
      → m.err_map ≡ m0.err_map
      → m.saved_records ≡ m0.saved_records
      → m.world ≡ (tx.commit m0.world).0
      → ids m0.saved_records ≡ select (has_no_error m0.err_map) (ids req.records_to_save)
      → is_empty m0.err_map ≡ true
      → (m.world ≡ (tx.commit m0.world).0)
        × (m.err_map ≡ [])
        × (ids m.saved_records ≡ ids req.records_to_save)
  saved_all w m0 m errs saved world aligned clean = (
    world,
    errs ∙ eq-nil_of_is_empty m0.err_map clean,
    ap ids saved
        ∙ aligned
        ∙ ap (λ (x : ErrMap). select (has_no_error x) (ids req.records_to_save))
            (eq-nil_of_is_empty m0.err_map clean)
        ∙ select-no_errors (ids req.records_to_save),
  )

  -- If no record stands twice in the request, the transaction begins, the database finds records under
  -- their own identifiers, and neither its `Save` nor the hooks change identifiers, then a request that
  -- is saved within a transaction and answered without an error has been committed, after the handler
  -- returned without an error, the map of errors is empty, and the answer has every requested record, in
  -- the order of the request.
  pub atomic_save_all :
      (w : W) (m : Modified W)
      → (tx.begin w).1 ≡ none
      → GetsById (db.get (tx.begin w).0)
      → SaveKeepsId db
      → HooksKeepId req.hook_registry
      → AreDistinct (ids req.records_to_save)
      → atomic_modify_func (some tx) saving w [] ≡ some m
      → m.error ≡ none
      → (m0 : Modified W) × (record_save_handler db conn deep_equal req (tx.begin w).0 [] ≡ some m0)
        × (m0.error ≡ none)
        × (m.world ≡ (tx.commit m0.world).0)
        × (m.err_map ≡ [])
        × (ids m.saved_records ≡ ids req.records_to_save)
  atomic_save_all w m began by_id saves hooks distinct e ok =
      elim (Option-cases (saving (tx.begin w).0 [])) [
        | inl p ↦ absurd (unfold atomic_modify_func with_transaction in ground (arith, e, began, p))
        | inr (m0, p) ↦
            let (m', q, errs, saved, world, rolled_back, sound, answer) =
              atomic_modify_func_lem tx saving w [] m0 began p in
            let same : m' ≡ m = cc in
            let (ok0, committed, clean) =
              sound (subst (λ (x : Modified W). x.error ≡ none) (sym same) ok) in
            let aligned =
              record_save_handler-IsAligned db conn deep_equal req (tx.begin w).0 m0 by_id saves
                hooks distinct p ok0 in
            let done = saved_all w m0 m' errs saved (world ok0) aligned clean in
            subst
              (λ (x : Modified W).
                (m0 : Modified W) × (record_save_handler db conn deep_equal req (tx.begin w).0 []
                  ≡ some m0)
                × (m0.error ≡ none)
                × (x.world ≡ (tx.commit m0.world).0)
                × (x.err_map ≡ [])
                × (ids x.saved_records ≡ ids req.records_to_save))
              same (m0, p, ok0, done.0, done.1, done.2)
      ]

module _ {W : Type 0} (db : Database W) (conn : Conn W) (deep_equal : Value → Value → Bool)
    (req : ModifyRequest W) where
  -- A request that is saved within a transaction and answered without an error had a transaction.
  pub began_of_answer :
      (tx : Option (Transactional W)) (m_func : W → ErrMap → Option (Modified W)) (w : W)
      (m : Modified W)
      → atomic_modify_func tx m_func w [] ≡ some m
      → m.error ≡ none
      → (t : Transactional W) × (tx ≡ some t) × ((t.begin w).1 ≡ none)
  unfolding atomic_modify_func with_transaction
  began_of_answer none m_func w m e ok = absurd (ground (arith, e, ok))
  began_of_answer (some t) m_func w m e ok = elim (Option-cases (t.begin w).1) [
    | inl k ↦ (t, refl, k)
    | inr (x, k) ↦ absurd (ground (arith, e, ok, k))
  ]

  pub atomic_save-IsAligned :
      (tx : Option (Transactional W)) (w : W) (m : Modified W)
      → ((v : W) → GetsById (db.get v))
      → SaveKeepsId db
      → HooksKeepId req.hook_registry
      → AreDistinct (ids req.records_to_save)
      → atomic_modify_func tx (λ v errs. record_save_handler db conn deep_equal req v errs) w []
        ≡ some m
      → m.error ≡ none
      → ids m.saved_records ≡ select (has_no_error m.err_map) (ids req.records_to_save)
  atomic_save-IsAligned tx w m by_id saves hooks distinct e ok =
      let saving = λ (v : W) (errs : ErrMap). record_save_handler db conn deep_equal req v errs in
      let (t, given, began) = began_of_answer tx saving w m e ok in
      let e' : atomic_modify_func (some t) saving w [] ≡ some m =
        subst (λ o. atomic_modify_func o saving w [] ≡ some m) given e in
      let (m0, p, ok0, world, clean, all) =
        atomic_save_all db conn deep_equal req t w m began (by_id (t.begin w).0) saves hooks
          distinct e' ok in
      all
      ∙ sym (select-no_errors (ids req.records_to_save))
      ∙ ap (λ (x : ErrMap). select (has_no_error x) (ids req.records_to_save)) (sym clean)
