-- ===== src/Recordutil/Save/Loops.antt =====
-- The loops that `RecordSaveHandler` of pkg/server/recordutil/recordutil.go has gone through when it
-- returns.
use skygear_server.Common.{
  ◌≡◌, Bool, false, not, ◌&&◌, none, some, List, [], map, arith, Option-cases, Bool-cases, inl, inr,
}
use skygear_server.Skydb.FieldAcl.{FieldAcl}
use skygear_server.Skydb.Record.{Record}
use skygear_server.Skydb.RecordMap as ById
use skygear_server.Skydb.Value.{Value}
use skygear_server.Skyerr.{Error}
use skygear_server.Plugin.Hook.{before_save, after_save}
use skygear_server.Recordutil.Fetch.{RecordFetcher, new_record_fetcher}
use skygear_server.Recordutil.Modify.{
  Database, Conn, ModifyRequest, Modified, ErrMap, Run, execute_record_func, trigger, is_empty,
}
use skygear_server.Recordutil.Assets.{make_assets_complete}
use skygear_server.Recordutil.Save.{
  Fetching, Phases, fetch_for_save, apply_default_access, save_record, save_phases, finish_save,
  remove_record_field_type_hints,
}

module _ {W : Type 0} (db : Database W) (conn : Conn W) (deep_equal : Value → Value → Bool)
    (req : ModifyRequest W) where
  -- The four loops before the handler looks at the map of errors.
  pub record Loops (acl : FieldAcl) (w : W) (errs : ErrMap) (p : Phases db conn deep_equal req)
      : Type 0 where
    pub fetched : Run Fetching
    pub defaulted : Run RecordFetcher
    pub hooked : Run W
    pub fetching :
        execute_record_func
          (fetch_for_save db conn deep_equal req w acl)
          (record { fetcher = new_record_fetcher req.with_master_key; originals = [] })
          req.records_to_save
          errs
        ≡ some fetched
    pub defaulting :
        execute_record_func
          (apply_default_access db conn deep_equal req w)
          fetched.state.fetcher
          fetched.kept
          fetched.err_map
        ≡ some defaulted
    pub hooking :
        trigger req.hook_registry before_save
          (λ id. ById.lookup id fetched.state.originals)
          w
          defaulted.kept
          defaulted.err_map
        ≡ some hooked
    pub saving :
        execute_record_func
          (save_record db conn deep_equal req fetched.state.originals)
          hooked.state
          (map remove_record_field_type_hints hooked.kept)
          hooked.err_map
        ≡ some p.saved

  pub save_phases-Loops :
      (acl : FieldAcl) (w : W) (errs : ErrMap) (p : Phases db conn deep_equal req)
      → save_phases db conn deep_equal req acl w errs ≡ some p
      → Loops acl w errs p
  unfolding save_phases
  save_phases-Loops acl w errs p e =
      let s0 : Fetching = record {
        fetcher = new_record_fetcher req.with_master_key;
        originals = [];
      } in
      elim (Option-cases (
        execute_record_func (fetch_for_save db conn deep_equal req w acl) s0 req.records_to_save
          errs)) [
            | inl a ↦ absurd (ground (arith, e, a))
            | inr (fetched, a) ↦
                let originals = fetched.state.originals in
                elim (Option-cases (
                  execute_record_func (apply_default_access db conn deep_equal req w)
                    fetched.state.fetcher fetched.kept fetched.err_map)) [
                      | inl b ↦ absurd (ground (arith, e, a, b))
                      | inr (defaulted, b) ↦
                          elim (Option-cases (
                            trigger req.hook_registry before_save (λ id. ById.lookup id originals) w
                              defaulted.kept defaulted.err_map)) [
                                | inl c ↦ absurd (ground (arith, e, a, b, c))
                                | inr (hooked, c) ↦
                                    elim (Option-cases (
                                      execute_record_func
                                        (save_record db conn deep_equal req originals) hooked.state
                                        (map remove_record_field_type_hints hooked.kept)
                                        hooked.err_map)) [
                                          | inl d ↦ absurd (ground (arith, e, a, b, c, d))
                                          | inr (saved, d) ↦ record {
                                            fetched = fetched;
                                            defaulted = defaulted;
                                            hooked = hooked;
                                            fetching = a;
                                            defaulting = b;
                                            hooking = c;
                                            saving = ground (arith, e, a, b, c, d);
                                          }
                                        ]
                              ]
                    ]
          ]

  -- The rest of a handler that returns without an error.
  pub record Finished (p : Phases db conn deep_equal req) (m : Modified W) : Type 0 where
    pub completed : List Record
    pub hooked : Run W
    pub clean : (req.atomic && not (is_empty p.saved.err_map)) ≡ false
    pub completing : make_assets_complete db conn p.saved.state p.saved.kept ≡ some completed
    pub hooking :
        trigger req.hook_registry after_save
          (λ id. ById.lookup id p.originals)
          p.saved.state
          completed
          p.saved.err_map
        ≡ some hooked
    pub answer : m ≡ record {
      world = hooked.state;
      err_map = hooked.err_map;
      saved_records = hooked.kept;
      deleted_record_ids = [];
      error = none;
    }

  pub finish_save-Finished :
      (p : Phases db conn deep_equal req) (m : Modified W)
      → finish_save db conn deep_equal req p ≡ some m
      → m.error ≡ none
      → Finished p m
  unfolding finish_save
  finish_save-Finished p m e ok = elim (Bool-cases (req.atomic && not (is_empty p.saved.err_map))) [
    | inl a ↦ absurd (ground (arith, e, a, ok))
    | inr a ↦ elim (Option-cases (make_assets_complete db conn p.saved.state p.saved.kept)) [
      | inl b ↦ absurd (ground (arith, e, a, b))
      | inr (completed, b) ↦
          elim (Option-cases (
            trigger req.hook_registry after_save (λ id. ById.lookup id p.originals) p.saved.state
              completed p.saved.err_map)) [
                | inl c ↦ absurd (ground (arith, e, a, b, c))
                | inr (hooked, c) ↦ record {
                  completed = completed;
                  hooked = hooked;
                  clean = a;
                  completing = b;
                  hooking = c;
                  answer = ground (arith, e, a, b, c);
                }
              ]
    ]
  ]

  -- A handler that returns an error hands out no record.
  pub no_records_of_error :
      (p : Phases db conn deep_equal req) (m : Modified W) (x : Error)
      → finish_save db conn deep_equal req p ≡ some m
      → m.error ≡ some x
      → m.saved_records ≡ []
  unfolding finish_save
  no_records_of_error p m x e k = elim (Bool-cases (req.atomic && not (is_empty p.saved.err_map))) [
    | inl a ↦ ground (arith, e, a)
    | inr a ↦ elim (Option-cases (make_assets_complete db conn p.saved.state p.saved.kept)) [
      | inl b ↦ absurd (ground (arith, e, a, b))
      | inr (completed, b) ↦
          elim (Option-cases (
            trigger req.hook_registry after_save (λ id. ById.lookup id p.originals) p.saved.state
              completed p.saved.err_map)) [
                | inl c ↦ absurd (ground (arith, e, a, b, c))
                | inr (hooked, c) ↦ absurd (ground (arith, e, a, b, c, k))
              ]
    ]
  ]
