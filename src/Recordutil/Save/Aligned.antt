-- ===== src/Recordutil/Save/Aligned.antt =====
-- With which records `RecordSaveHandler` of pkg/server/recordutil/recordutil.go answers.
use skygear_server.Common.{
  ◌≡◌, sym, subst, ◌∙◌, Bool, none, some, List, [], map, arith, select, >>=-eq-some,
}
use skygear_server.Skydb.FieldAcl.{FieldAcl}
use skygear_server.Skydb.RecordMap as ById
use skygear_server.Skydb.Value.{Value, RecordId}
use skygear_server.Plugin.Hook.{before_save, after_save}
use skygear_server.Recordutil.Fetch.{new_record_fetcher}
use skygear_server.Recordutil.Modify.{
  Database, Conn, ModifyRequest, Modified, FieldAccess, allowed, unavailable,
}
use skygear_server.Recordutil.Modify.Aligned.{IsAligned, execute-IsAligned, trigger-IsAligned}
use skygear_server.Recordutil.Modify.Distinct.{AreDistinct, has_no_error, select-no_errors}
use skygear_server.Recordutil.Modify.Identity.{HooksKeepId}
use skygear_server.Recordutil.Assets.Identity.{ids, make_assets_complete-ids}
use skygear_server.Recordutil.Save.{
  Phases, fetch_for_save, apply_default_access, save_record, save_phases, finish_save,
  with_field_access, record_save_handler, remove_record_field_type_hints,
}
use skygear_server.Recordutil.Save.Authorised.{ids-map_hints}
use skygear_server.Recordutil.Save.Loops.{save_phases-Loops, finish_save-Finished}
use skygear_server.Recordutil.Save.Identity.{
  GetsById, SaveKeepsId, fetch_for_save-id, apply_default_access-KeepsId, save_record-KeepsId,
}

module _ {W : Type 0} (db : Database W) (conn : Conn W) (deep_equal : Value → Value → Bool)
    (req : ModifyRequest W) where
  abbrev all : List RecordId
  all = ids req.records_to_save

  -- Before the handler looks at the map of errors, its loops have kept the records without an error.
  pub save_phases-IsAligned :
      (w : W) (acl : FieldAcl) (p : Phases db conn deep_equal req)
      → GetsById (db.get w)
      → SaveKeepsId db
      → HooksKeepId req.hook_registry
      → AreDistinct all
      → save_phases db conn deep_equal req acl w [] ≡ some p
      → IsAligned all p.saved.kept p.saved.err_map
  save_phases-IsAligned w acl p by_id saves hooks distinct e =
      let l = save_phases-Loops db conn deep_equal req acl w [] p e in
      let fetched : IsAligned all l.fetched.kept l.fetched.err_map =
        execute-IsAligned all distinct (fetch_for_save db conn deep_equal req w acl)
          (λ s rec c q. fetch_for_save-id db conn deep_equal req w acl s rec c by_id q)
          (record { fetcher = new_record_fetcher req.with_master_key; originals = [] })
          req.records_to_save [] l.fetched (sym (select-no_errors all)) l.fetching in
      let defaulted : IsAligned all l.defaulted.kept l.defaulted.err_map =
        execute-IsAligned all distinct (apply_default_access db conn deep_equal req w)
          (apply_default_access-KeepsId db conn deep_equal req w) l.fetched.state.fetcher
          l.fetched.kept l.fetched.err_map l.defaulted fetched l.defaulting in
      let hooked : IsAligned all l.hooked.kept l.hooked.err_map =
        trigger-IsAligned all distinct req.hook_registry before_save
          (λ id. ById.lookup id l.fetched.state.originals) w l.defaulted.kept l.defaulted.err_map
          l.hooked hooks defaulted l.hooking in
      execute-IsAligned all distinct (save_record db conn deep_equal req l.fetched.state.originals)
        (save_record-KeepsId db conn deep_equal req l.fetched.state.originals saves) l.hooked.state
        (map remove_record_field_type_hints l.hooked.kept) l.hooked.err_map p.saved
        (ids-map_hints l.hooked.kept ∙ hooked) l.saving

  finish_save-IsAligned :
      (p : Phases db conn deep_equal req) (m : Modified W)
      → HooksKeepId req.hook_registry
      → AreDistinct all
      → IsAligned all p.saved.kept p.saved.err_map
      → finish_save db conn deep_equal req p ≡ some m
      → m.error ≡ none
      → IsAligned all m.saved_records m.err_map
  finish_save-IsAligned p m hooks distinct h e ok =
      let f = finish_save-Finished db conn deep_equal req p m e ok in
      let completed : IsAligned all f.completed p.saved.err_map =
        make_assets_complete-ids db conn p.saved.state p.saved.kept f.completed f.completing ∙ h in
      subst (λ (x : Modified W). IsAligned all x.saved_records x.err_map) (sym f.answer)
        (trigger-IsAligned all distinct req.hook_registry after_save
          (λ id. ById.lookup id p.originals) p.saved.state f.completed p.saved.err_map f.hooked
          hooks completed f.hooking)

  with_field_access-IsAligned :
      (access : FieldAccess) (w : W) (m : Modified W)
      → GetsById (db.get w)
      → SaveKeepsId db
      → HooksKeepId req.hook_registry
      → AreDistinct all
      → with_field_access db conn deep_equal req w [] access ≡ some m
      → m.error ≡ none
      → IsAligned all m.saved_records m.err_map
  unfolding with_field_access
  with_field_access-IsAligned (unavailable x) w m by_id saves hooks distinct e ok =
      absurd (ground (arith, e, ok))
  with_field_access-IsAligned (allowed acl) w m by_id saves hooks distinct e ok =
      let (p, q, f) =
        >>=-eq-some (save_phases db conn deep_equal req acl w [])
          (finish_save db conn deep_equal req) e in
      finish_save-IsAligned p m hooks distinct
        (save_phases-IsAligned w acl p by_id saves hooks distinct q) f ok

  -- If no record stands twice in the request, the database finds records under their own identifiers,
  -- and neither its `Save` nor the hooks change identifiers, then a handler that began with an empty
  -- map of errors and returns no error answers with exactly the requested records that the map has no
  -- error for, in the order of the request.
  pub record_save_handler-IsAligned :
      (w : W) (m : Modified W)
      → GetsById (db.get w)
      → SaveKeepsId db
      → HooksKeepId req.hook_registry
      → AreDistinct (ids req.records_to_save)
      → record_save_handler db conn deep_equal req w [] ≡ some m
      → m.error ≡ none
      → ids m.saved_records ≡ select (has_no_error m.err_map) (ids req.records_to_save)
  unfolding record_save_handler
  record_save_handler-IsAligned w m by_id saves hooks distinct e ok =
      with_field_access-IsAligned (conn.get_record_field_access w) w m by_id saves hooks distinct e
        ok
