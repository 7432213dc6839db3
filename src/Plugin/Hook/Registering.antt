-- ===== src/Plugin/Hook/Registering.antt =====
-- What registering a hook in pkg/server/plugin/hook/hook.go does to the execution of hooks.
use skygear_server.Common.{
  String, ◌≡◌, refl, ap, Bool, true, false, ◌&&◌, Option, none, some, List, [], ◌∷◌, ◌++◌, ◌==◌,
  eq_iff, arith, if◌then◌else◌, Option-cases, inl, inr,
}
use skygear_server.Common.Dict
use skygear_server.Common.Dict.{Dict, lookup-insert}
use skygear_server.Skydb.Record.{Record}
use skygear_server.Plugin.Hook.{
  Kind, Called, Func, before_save, after_save, before_delete, after_delete, RecordTypeHookMap,
  Registry, slice_of, append_hook, record_type_hook_map, register, hooks, run_hooks, execute_hooks,
}

module _ {W : Type 0} where
  -- Continue with another call, unless the first one failed.
  abbrev pub and_then : Called W → (W → Record → Called W) → Called W
  and_then called next = elim (called.error) [
    | none ↦ next called.state called.outcome
    | some e ↦ called
  ]

  run_hooks-append :
      (list : List (Func W)) (hook : Func W) (w : W) (rec : Record) (old : Option Record)
      → run_hooks (list ++ (hook ∷ [])) w rec old
        ≡ and_then (run_hooks list w rec old) (λ w' r. hook w' r old)
  unfolding run_hooks
  run_hooks-append [] hook w rec old = ground arith
  run_hooks-append (h ∷ list) hook w rec old =
      let called = h w rec old in
      ground (arith, run_hooks-append list hook called.state called.outcome old)

  hooks-append_hook :
      (t t' : String) (hook : Func W) (m : RecordTypeHookMap W)
      → slice_of (Dict.lookup t' (append_hook t hook m)) ≡ (
          if t == t'
          then slice_of (Dict.lookup t' m) ++ (hook ∷ [])
          else slice_of (Dict.lookup t' m))
  hooks-append_hook t t' hook m = ground (
    arith,
    eq_iff t t',
    lookup-insert t t' (slice_of (Dict.lookup t m) ++ (hook ∷ [])) m,
    λ (e : t ≡ t'). ap (λ x. slice_of (Dict.lookup x m)) e,
  )

  abbrev appended : Bool → Func W → Option (List (Func W)) → Option (List (Func W))
  appended true hook (some list) = some (list ++ (hook ∷ []))
  appended true hook none = none
  appended false hook o = o

  hooks-register :
      (kind kind' : Kind) (t t' : String) (hook : Func W) (r r' : Registry W)
      → register kind t hook r ≡ some r'
      → hooks kind' t' r' ≡ appended (kind == kind' && t == t') hook (hooks kind' t' r)
  unfolding register hooks record_type_hook_map
  hooks-register kind kind' t t' hook r r' h = ground (
    arith,
    eq_iff kind kind',
    eq_iff kind before_save,
    eq_iff kind after_save,
    eq_iff kind before_delete,
    eq_iff kind after_delete,
    eq_iff kind' before_save,
    eq_iff kind' after_save,
    eq_iff kind' before_delete,
    eq_iff kind' after_delete,
    hooks-append_hook t t' hook r.before_save_hooks,
    hooks-append_hook t t' hook r.after_save_hooks,
    hooks-append_hook t t' hook r.before_delete_hooks,
    hooks-append_hook t t' hook r.after_delete_hooks,
  )

  execute-appended :
      (registered : Bool) (kind : Kind) (hook : Func W) (r r' : Registry W) (w : W) (rec : Record)
      (old : Option Record)
      → hooks kind rec.id.type r' ≡ appended registered hook (hooks kind rec.id.type r)
      → (registered ≡ true → ¬ (hooks kind rec.id.type r ≡ none))
      → execute_hooks r' kind w rec old ≡ (
          if registered
          then and_then (execute_hooks r kind w rec old) (λ w' changed. hook w' changed old)
          else execute_hooks r kind w rec old)
  unfolding execute_hooks
  execute-appended false kind hook r r' w rec old h k = ground arith
  execute-appended true kind hook r r' w rec old h k =
      elim (Option-cases (hooks kind rec.id.type r)) [
        | inl e ↦ absurd (k refl e)
        | inr (list, e) ↦ ground (arith, run_hooks-append list hook w rec old)
      ]

  hooks-ne-none :
      (kind kind' : Kind) (t t' : String) (hook : Func W) (r r' : Registry W)
      → register kind t hook r ≡ some r'
      → (kind == kind') ≡ true
      → ¬ (hooks kind' t' r ≡ none)
  unfolding register hooks record_type_hook_map
  hooks-ne-none kind kind' t t' hook r r' h same missing = ground (arith, eq_iff kind kind')

  -- If a hook could be registered, then executing the hooks of any kind afterwards, on any record, is
  -- executing them as before, except at the kind and the record type it was registered for: there, if
  -- no earlier hook fails, the new one is called last, on the record and the world that the earlier
  -- ones left, and its error is returned; and if an earlier one fails, that one's error is returned and
  -- the new hook is not called.
  pub execute_hooks-register :
      (kind kind' : Kind) (t : String) (hook : Func W) (r r' : Registry W) (w : W) (rec : Record)
      (old : Option Record)
      → register kind t hook r ≡ some r'
      → execute_hooks r' kind' w rec old ≡ (
          if kind == kind' && t == rec.id.type
          then and_then (execute_hooks r kind' w rec old) (λ w' changed. hook w' changed old)
          else execute_hooks r kind' w rec old)
  execute_hooks-register kind kind' t hook r r' w rec old h =
      execute-appended (kind == kind' && t == rec.id.type) kind' hook r r' w rec old
        (hooks-register kind kind' t rec.id.type hook r r' h)
        (λ both. hooks-ne-none kind kind' t rec.id.type hook r r' h (ground arith))
