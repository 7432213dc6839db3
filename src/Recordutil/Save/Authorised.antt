-- ===== src/Recordutil/Save/Authorised.antt =====
-- Which records `RecordSaveHandler` of pkg/server/recordutil/recordutil.go saves.
use skygear_server.Common.{
  ◌≡◌, refl, sym, subst, ap, ◌∙◌, Bool, Option, none, some, List, [], ◌∷◌, map, arith, All,
  Option-cases, inl, inr, >>=-eq-some,
}
use skygear_server.Skydb.FieldAcl.{FieldAcl}
use skygear_server.Skydb.Record.{Record}
use skygear_server.Skydb.RecordMap as ById
use skygear_server.Skydb.Value.{Value, RecordId}
use skygear_server.Skyerr.{Error}
use skygear_server.Plugin.Hook.{Called, before_save, after_save}
use skygear_server.Recordutil.Fetch.{Fetched, new_record_fetcher, acl_of, fetch_or_create_record}
use skygear_server.Recordutil.Fetch.Caching.{new_record_fetcher-IsCoherent}
use skygear_server.Recordutil.Fetch.Creating.{decided, fetch_or_create_record_lem}
use skygear_server.Recordutil.Fetch.Found.{Remembers, fetch_or_create_record-Remembers}
use skygear_server.Recordutil.Modify.{
  Database, Conn, ModifyRequest, Modified, ErrMap, FieldAccess, allowed, unavailable,
}
use skygear_server.Recordutil.Modify.Identity.{HooksKeepId, execute-All_ids, trigger-All_ids}
use skygear_server.Recordutil.Modify.Rounds.{execute-All}
use skygear_server.Recordutil.Assets.Identity.{ids, make_assets_complete-ids}
use skygear_server.Recordutil.Save.{
  Fetching, Phases, initialized, scrubbed, merged, with_record, fetch_for_save,
  apply_default_access, save_record, save_phases, finish_save, with_field_access,
  record_save_handler, remove_record_field_type_hints,
}
use skygear_server.Recordutil.Save.Loops.{
  save_phases-Loops, finish_save-Finished, no_records_of_error,
}
use skygear_server.Recordutil.Save.Identity.{
  GetsById, SaveKeepsId, fetch_for_save-id, apply_default_access-KeepsId, save_record-KeepsId,
}

All_ids :
    (R : RecordId → Type 0) (rs rs' : List Record)
    → ids rs' ≡ ids rs
    → All (λ r. R r.id) rs
    → All (λ r. R r.id) rs'
All_ids R [] [] e h = tt
All_ids R [] (r ∷ rs') e h = absurd (cc)
All_ids R (r ∷ rs) [] e h = absurd (cc)
All_ids R (r ∷ rs) (r' ∷ rs') e h = (subst R (cc) h.0, All_ids R rs rs' (cc) h.1)

pub ids-map_hints : (rs : List Record) → ids (map remove_record_field_type_hints rs) ≡ ids rs
unfolding remove_record_field_type_hints
ids-map_hints [] = refl
ids-map_hints (r ∷ rs) = ground (arith, ids-map_hints rs)

All_true : (rs : List Record) → All (λ r. Unit {0}) rs
All_true [] = tt
All_true (r ∷ rs) = (tt, All_true rs)

module _ {W : Type 0} (db : Database W) (conn : Conn W) (deep_equal : Value → Value → Bool)
    (req : ModifyRequest W) where
  -- The request may have the record, by what the database and the connection held at the start: with
  -- the master key any, else a stored one that its user may write to, or a missing one if the list of
  -- creation access of its type is nil or empty.
  abbrev pub IsGranted : W → RecordId → Type 0
  IsGranted w id =
      (decided req.with_master_key id req.auth_info
        (acl_of (conn.get_record_access w id.type).access) (db.get w id)).error
      ≡ none

  merged-fetcher :
      (s : Fetching) (created : Bool) (r : Record) (result : Record × Option Error)
      (c : Called Fetching)
      → merged db conn deep_equal req s created r result ≡ some c
      → c.state.fetcher ≡ s.fetcher
  unfolding merged
  merged-fetcher s created r (rec, none) c e = ground (arith, e)
  merged-fetcher s created r (rec, some x) c e = ground (arith, e)

  -- A call that returns a record was not refused by the fetcher.
  with_record-granted :
      (acl : FieldAcl) (s : Fetching) (rec : Record) (f : Fetched) (c : Called Fetching)
      → with_record db conn deep_equal req acl s rec f ≡ some c
      → (c.state.fetcher ≡ s.fetcher) × (c.error ≡ none → f.error ≡ none)
  unfolding with_record
  with_record-granted acl s rec f c e = elim (Option-cases f.error) [
    | inr (x, p) ↦ (ground (arith, e, p), λ ok. absurd (ground (arith, e, p)))
    | inl p ↦ elim (Option-cases (initialized db conn deep_equal req rec.id f)) [
      | inl q ↦ absurd (ground (arith, e, p, q))
      | inr (r, q) ↦ elim (Option-cases (scrubbed db conn deep_equal req acl rec r)) [
        | inl t ↦ absurd (ground (arith, e, p, q, t))
        | inr (result, t) ↦
            (merged-fetcher s f.created r result c (ground (arith, e, p, q, t)), λ ok. p)
      ]
    ]
  ]

  fetch_step :
      (w : W) (acl : FieldAcl) (s : Fetching) (rec : Record) (c : Called Fetching)
      → GetsById (db.get w)
      → Remembers
          (db.get w)
          (conn.get_record_access w)
          (conn.get_record_default_access w)
          req.with_master_key
          s.fetcher
      → fetch_for_save db conn deep_equal req w acl s rec ≡ some c
      → Remembers
          (db.get w)
          (conn.get_record_access w)
          (conn.get_record_default_access w)
          req.with_master_key
          c.state.fetcher
        × (c.error ≡ none → IsGranted w c.outcome.id)
  unfolding fetch_for_save
  fetch_step w acl s rec c by_id h e =
      let get = db.get w in
      let access = conn.get_record_access w in
      let default = conn.get_record_default_access w in
      let (f, fetcher) = fetch_or_create_record get access default s.fetcher rec.id req.auth_info in
      let (same, granted) = with_record-granted acl (record s { fetcher = fetcher }) rec f c e in
      (
        subst (Remembers get access default req.with_master_key) (sym same) (
            fetch_or_create_record-Remembers get access default req.with_master_key s.fetcher rec.id
              req.auth_info h),
        λ ok.
            subst (IsGranted w)
              (sym (fetch_for_save-id db conn deep_equal req w acl s rec c by_id e))
              (subst
                (λ m.
                  (decided m rec.id req.auth_info (acl_of (access rec.id.type).access)
                    (get rec.id)).error
                  ≡ none)
                h.0
                (sym (
                    ap (λ (x : Fetched). x.error)
                      (fetch_or_create_record_lem get access default s.fetcher rec.id req.auth_info
                        h.1))
                  ∙ granted ok)),
      )

  save_phases-IsGranted :
      (w : W) (acl : FieldAcl) (errs : ErrMap) (p : Phases db conn deep_equal req)
      → GetsById (db.get w)
      → SaveKeepsId db
      → HooksKeepId req.hook_registry
      → save_phases db conn deep_equal req acl w errs ≡ some p
      → All (λ r. IsGranted w r.id) p.saved.kept
  save_phases-IsGranted w acl errs p by_id saves hooks e =
      let R = IsGranted w in
      let l = save_phases-Loops db conn deep_equal req acl w errs p e in
      let fetched : All (λ r. R r.id) l.fetched.kept =
        (execute-All (fetch_for_save db conn deep_equal req w acl)
          (λ s.
            Remembers (db.get w) (conn.get_record_access w) (conn.get_record_default_access w)
              req.with_master_key s.fetcher)
          (λ r. Unit {0}) (λ r. R r.id) (λ s rec c i q step. fetch_step w acl s rec c by_id i step)
          (record { fetcher = new_record_fetcher req.with_master_key; originals = [] })
          req.records_to_save errs l.fetched
          (
            unfold new_record_fetcher in refl,
            new_record_fetcher-IsCoherent (conn.get_record_access w)
                (conn.get_record_default_access w) req.with_master_key,
          )
          (All_true req.records_to_save) l.fetching).1 in
      let defaulted : All (λ r. R r.id) l.defaulted.kept =
        execute-All_ids R (apply_default_access db conn deep_equal req w) l.fetched.state.fetcher
          l.fetched.kept l.fetched.err_map l.defaulted
          (apply_default_access-KeepsId db conn deep_equal req w) fetched l.defaulting in
      let hooked : All (λ r. R r.id) l.hooked.kept =
        trigger-All_ids R req.hook_registry before_save
          (λ id. ById.lookup id l.fetched.state.originals) w l.defaulted.kept l.defaulted.err_map
          l.hooked hooks defaulted l.hooking in
      execute-All_ids R (save_record db conn deep_equal req l.fetched.state.originals)
        l.hooked.state (map remove_record_field_type_hints l.hooked.kept) l.hooked.err_map p.saved
        (save_record-KeepsId db conn deep_equal req l.fetched.state.originals saves)
        (All_ids R l.hooked.kept (map remove_record_field_type_hints l.hooked.kept)
          (ids-map_hints l.hooked.kept) hooked)
        l.saving

  finish_save-IsGranted :
      (w : W) (p : Phases db conn deep_equal req) (m : Modified W)
      → HooksKeepId req.hook_registry
      → All (λ r. IsGranted w r.id) p.saved.kept
      → finish_save db conn deep_equal req p ≡ some m
      → All (λ r. IsGranted w r.id) m.saved_records
  finish_save-IsGranted w p m hooks h e = elim (Option-cases m.error) [
    | inr (x, k) ↦
        subst (All (λ r. IsGranted w r.id))
          (sym (no_records_of_error db conn deep_equal req p m x e k)) tt
    | inl ok ↦
        let f = finish_save-Finished db conn deep_equal req p m e ok in
        let kept : All (λ r. IsGranted w r.id) f.hooked.kept =
          trigger-All_ids (IsGranted w) req.hook_registry after_save
            (λ id. ById.lookup id p.originals) p.saved.state f.completed p.saved.err_map f.hooked
            hooks
            (All_ids (IsGranted w) p.saved.kept f.completed
              (make_assets_complete-ids db conn p.saved.state p.saved.kept f.completed f.completing)
              h)
            f.hooking in
        subst (All (λ r. IsGranted w r.id))
          (sym (ap (λ (x : Modified W). x.saved_records) f.answer)) kept
  ]

  with_field_access-IsGranted :
      (access : FieldAccess) (w : W) (errs : ErrMap) (m : Modified W)
      → GetsById (db.get w)
      → SaveKeepsId db
      → HooksKeepId req.hook_registry
      → with_field_access db conn deep_equal req w errs access ≡ some m
      → All (λ r. IsGranted w r.id) m.saved_records
  unfolding with_field_access
  with_field_access-IsGranted (unavailable x) w errs m by_id saves hooks e =
      let none_saved : [] ≡ m.saved_records = ground (arith, e) in
      subst (All (λ r. IsGranted w r.id)) none_saved tt
  with_field_access-IsGranted (allowed acl) w errs m by_id saves hooks e =
      let (p, q, f) =
        >>=-eq-some (save_phases db conn deep_equal req acl w errs)
          (finish_save db conn deep_equal req) e in
      finish_save-IsGranted w p m hooks (save_phases-IsGranted w acl errs p by_id saves hooks q) f

  -- If the database finds records under their own identifiers, and neither its `Save` nor the hooks
  -- change the identifier of a record, then each record that the handler answers with is one that the
  -- request may have, judged by what the database and the connection held when it began.
  pub record_save_handler-IsGranted :
      (w : W) (errs : ErrMap) (m : Modified W)
      → GetsById (db.get w)
      → SaveKeepsId db
      → HooksKeepId req.hook_registry
      → record_save_handler db conn deep_equal req w errs ≡ some m
      → All (λ r. IsGranted w r.id) m.saved_records
  unfolding record_save_handler
  record_save_handler-IsGranted w errs m by_id saves hooks e =
      with_field_access-IsGranted (conn.get_record_field_access w) w errs m by_id saves hooks e
