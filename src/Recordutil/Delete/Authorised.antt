-- ===== src/Recordutil/Delete/Authorised.antt =====
-- Which records `RecordDeleteHandler` of pkg/server/recordutil/recordutil.go deletes.
use skygear_server.Common.{
  ◌≡◌, sym, subst, true, false, ◌||◌, not, ◌&&◌, Option, none, some, List, [], ◌∷◌, ◌==◌, arith,
  All, Option-cases, Bool-cases, inl, inr,
}
use skygear_server.Skydb.Acl.{write_level}
use skygear_server.Skydb.Record
use skygear_server.Skydb.Record.{Record}
use skygear_server.Skydb.RecordMap as ById
use skygear_server.Skydb.Value.{RecordId}
use skygear_server.Skyerr.{new_error, permission_denied}
use skygear_server.Plugin.Hook.{Kind, Called, Registry, execute_hooks, before_delete, after_delete}
use skygear_server.Recordutil.Fetch.{found, new_record_fetcher}
use skygear_server.Recordutil.Fetch.Found.{granted_of_fetched}
use skygear_server.Recordutil.Modify.{
  Database, Conn, ModifyRequest, Modified, ErrMap, Run, execute_record_func, trigger, is_empty,
}
use skygear_server.Recordutil.Modify.Identity.{HooksKeepId, hook_called-id}
use skygear_server.Recordutil.Modify.Rounds.{execute-All}
use skygear_server.Recordutil.Save.Identity.{GetsById}
use skygear_server.Recordutil.Delete.{
  Chosen, choose, fetch_for_delete, choose_loop, delete_record, ids_of, finish_delete,
  record_delete_handler,
}

module _ {W : Type 0} (db : Database W) (conn : Conn W) (req : ModifyRequest W) where
  -- The record is not of the user type, the database holds it, and the request has the master key or
  -- its user may write to it.
  abbrev pub IsDeletable : W → RecordId → Type 0
  IsDeletable w id =
      ((id.type == db.user_record_type) ≡ false)
      × ((r : Record) × (db.get w id ≡ found r)
          × ((req.with_master_key || Record.accessible r req.auth_info write_level) ≡ true))

  fetch_for_delete-granted :
      (w : W) (id : RecordId) (rec : Record)
      → (fetch_for_delete db conn req w id).1 ≡ none
      → (fetch_for_delete db conn req w id).0 ≡ some rec
      → (db.get w id ≡ found rec)
        × ((req.with_master_key || Record.accessible rec req.auth_info write_level) ≡ true)
  unfolding fetch_for_delete new_record_fetcher
  fetch_for_delete-granted w id rec h k =
      granted_of_fetched (db.get w) (conn.get_record_access w) (conn.get_record_default_access w)
        (new_record_fetcher req.with_master_key) id req.auth_info rec h k

  choose_loop-IsDeletable :
      (w : W) (ids : List RecordId) (errs : ErrMap)
      → GetsById (db.get w)
      → All (λ r. IsDeletable w r.id) (choose_loop db conn req w ids errs).records
  unfolding choose_loop
  choose_loop-IsDeletable w [] errs by_id = tt
  choose_loop-IsDeletable w (id ∷ ids) errs by_id =
      let refusal = new_error permission_denied "cannot delete user record" in
      let P = λ (c : Chosen). All (λ r. IsDeletable w r.id) c.records in
      elim (Bool-cases (id.type == db.user_record_type)) [
        | inl p ↦
            let rest = choose_loop db conn req w ids (ById.insert id refusal errs) in
            let same : rest ≡ choose_loop db conn req w (id ∷ ids) errs = ground (arith, p) in
            subst P same (choose_loop-IsDeletable w ids (ById.insert id refusal errs) by_id)
        | inr p ↦ elim (Option-cases (fetch_for_delete db conn req w id).1) [
          | inr (e, q) ↦
              let rest = choose_loop db conn req w ids (ById.insert id e errs) in
              let same : rest ≡ choose_loop db conn req w (id ∷ ids) errs = ground (arith, p, q) in
              subst P same (choose_loop-IsDeletable w ids (ById.insert id e errs) by_id)
          | inl q ↦
              let rest = choose_loop db conn req w ids errs in
              elim (Option-cases (fetch_for_delete db conn req w id).0) [
                | inl t ↦
                    let same : rest ≡ choose_loop db conn req w (id ∷ ids) errs =
                      ground (arith, p, q, t) in
                    subst P same (choose_loop-IsDeletable w ids errs by_id)
                | inr (rec, t) ↦
                    let same : choose rec rest ≡ choose_loop db conn req w (id ∷ ids) errs =
                      ground (arith, p, q, t) in
                    let (stored, granted) = fetch_for_delete-granted w id rec q t in
                    subst P same (
                      subst (IsDeletable w) (sym (by_id id rec stored)) (p, (rec, stored, granted)),
                      choose_loop-IsDeletable w ids errs by_id,
                    )
              ]
        ]
      ]

  All-ids_of :
      (R : RecordId → Type 0) (records : List Record)
      → All (λ r. R r.id) records
      → All R (ids_of db conn req records)
  All-ids_of R [] h = tt
  All-ids_of R (rec ∷ records) h = (h.0, All-ids_of R records h.1)

  -- The condition on the world is kept by the hooks.
  abbrev pub HooksKeep : (W → Type 0) → Option (Registry W) → Type 0
  HooksKeep Inv none = Unit
  HooksKeep Inv (some registry) =
      (kind : Kind) (w : W) (rec : Record) (old : Option Record)
      → Inv w
      → Inv (execute_hooks registry kind w rec old).state

  -- The condition on the world is kept by `Delete` of each identifier that the request may delete in `w`.
  abbrev pub DeletionsKeep : (W → Type 0) → W → Type 0
  DeletionsKeep Inv w = (v : W) (id : RecordId) → IsDeletable w id → Inv v → Inv (db.remove v id).0

  module _ (Inv : W → Type 0) (w : W) where
    delete_record-keeps :
        (v : W) (rec : Record) (called : Called W)
        → HooksKeepId req.hook_registry
        → DeletionsKeep Inv w
        → Inv v
        → IsDeletable w rec.id
        → delete_record db conn req v rec ≡ some called
        → Inv called.state × (called.error ≡ none → IsDeletable w called.outcome.id)
    unfolding delete_record
    delete_record-keeps v rec called hooks dels i p e =
        let state : (db.remove v rec.id).0 ≡ called.state = ground (arith, e) in
        let id : rec.id ≡ called.outcome.id = ground (arith, e) in
        (subst Inv state (dels v rec.id p i), λ ok. subst (IsDeletable w) id p)

    trigger-keeps :
        (registry : Option (Registry W)) (kind : Kind) (v : W) (records : List Record)
        (errs : ErrMap) (run : Run W)
        → HooksKeepId registry
        → HooksKeep Inv registry
        → Inv v
        → All (λ r. IsDeletable w r.id) records
        → trigger registry kind (λ id. none) v records errs ≡ some run
        → Inv run.state × All (λ r. IsDeletable w r.id) run.kept
    unfolding trigger
    trigger-keeps none kind v records errs run ids keep i h e =
        let state : v ≡ run.state = ground (arith, e) in
        let kept : records ≡ run.kept = ground (arith, e) in
        (subst Inv state i, subst (All (λ r. IsDeletable w r.id)) kept h)
    trigger-keeps (some registry) kind v records errs run ids keep i h e =
        execute-All (λ w' rec. some (execute_hooks registry kind w' rec none)) Inv
          (λ r. IsDeletable w r.id) (λ r. IsDeletable w r.id)
          (λ u rec called j p q.
            let state : (execute_hooks registry kind u rec none).state ≡ called.state =
              ground (arith, q) in
            (
              subst Inv state (keep kind u rec none j),
              λ ok.
                  subst (IsDeletable w) (sym (hook_called-id registry kind u rec none called ids q))
                    p,
            ))
          v records errs run i h e

    finish_delete-keeps :
        (deleted : Run W) (m : Modified W)
        → HooksKeepId req.hook_registry
        → HooksKeep Inv req.hook_registry
        → Inv deleted.state
        → All (λ r. IsDeletable w r.id) deleted.kept
        → finish_delete db conn req deleted ≡ some m
        → Inv m.world × All (IsDeletable w) m.deleted_record_ids
    unfolding finish_delete
    finish_delete-keeps deleted m ids keep i h e =
        elim (Bool-cases (req.atomic && not (is_empty deleted.err_map))) [
          | inl a ↦
              let same : [] ≡ m.deleted_record_ids = ground (arith, e, a) in
              let world : deleted.state ≡ m.world = ground (arith, e, a) in
              (subst Inv world i, subst (All (IsDeletable w)) same tt)
          | inr a ↦
              elim (Option-cases (
                trigger req.hook_registry after_delete (λ id. none) deleted.state deleted.kept
                  deleted.err_map)) [
                    | inl b ↦ absurd (ground (arith, e, a, b))
                    | inr (hooked, b) ↦
                        let same : ids_of db conn req hooked.kept ≡ m.deleted_record_ids =
                          ground (arith, e, a, b) in
                        let world : hooked.state ≡ m.world = ground (arith, e, a, b) in
                        let (j, k) =
                          trigger-keeps req.hook_registry after_delete deleted.state deleted.kept
                            deleted.err_map hooked ids keep i h b in
                        (
                          subst Inv world j,
                          subst (All (IsDeletable w)) same
                              (All-ids_of (IsDeletable w) hooked.kept k),
                        )
                  ]
        ]

    -- Suppose that the database finds records under their own identifiers, and that the hooks do not
    -- change them. An identifier may be deleted if it is not of the user record type and names a record
    -- that the database held when the handler began and that the request's user may write to, or that
    -- any request may with the master key. Then each identifier that the handler answers with as deleted
    -- may be deleted; and a condition on the world that holds before, and that the hooks and deleting
    -- any identifier that may be deleted keep, holds afterwards, also if the handler fails.
    pub record_delete_handler-IsDeletable :
        (errs : ErrMap) (m : Modified W)
        → GetsById (db.get w)
        → HooksKeepId req.hook_registry
        → HooksKeep Inv req.hook_registry
        → DeletionsKeep Inv w
        → Inv w
        → record_delete_handler db conn req w errs ≡ some m
        → Inv m.world × All (IsDeletable w) m.deleted_record_ids
    unfolding record_delete_handler
    record_delete_handler-IsDeletable errs m by_id ids keep dels i e =
        let chosen = choose_loop db conn req w req.record_ids_to_delete errs in
        elim (Option-cases
          (trigger req.hook_registry before_delete (λ id. none) w chosen.records chosen.err_map)) [
            | inl a ↦ absurd (ground (arith, e, a))
            | inr (hooked, a) ↦
                elim (Option-cases (
                  execute_record_func (delete_record db conn req) hooked.state hooked.kept
                    hooked.err_map)) [
                      | inl b ↦ absurd (ground (arith, e, a, b))
                      | inr (deleted, b) ↦
                          let (j, h) =
                            trigger-keeps req.hook_registry before_delete w chosen.records
                              chosen.err_map hooked ids keep i
                              (choose_loop-IsDeletable w req.record_ids_to_delete errs by_id) a in
                          let (k, l) =
                            execute-All (delete_record db conn req) Inv (λ r. IsDeletable w r.id)
                              (λ r. IsDeletable w r.id)
                              (λ v rec called x y z.
                                delete_record-keeps v rec called ids dels x y z)
                              hooked.state hooked.kept hooked.err_map deleted j h b in
                          finish_delete-keeps deleted m ids keep k l (ground (arith, e, a, b))
                    ]
          ]
