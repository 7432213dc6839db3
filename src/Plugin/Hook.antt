-- ===== src/Plugin/Hook.antt =====
-- pkg/server/plugin/hook/hook.go, and pkg/server/plugin/hook.go, lines 25-53: the registry of hooks, by
-- kind and record type. A hook may write to the record and, in the type `W`, to the world; it does not
-- write to the old record. The context and the lock of the registry are left out.
use skygear_server.Common.{
  String, Bool, true, false, not, ◌&&◌, Option, none, some, List, [], ◌∷◌, ◌++◌, ◌==◌,
  if◌then◌else◌,
}
use skygear_server.Common.Dict
use skygear_server.Common.Dict.{Dict}
use skygear_server.Skydb.Record.{Record}
use skygear_server.Skyerr.{Error, GoError, new_error, make_error, unexpected_error}
pub mod Registering

-- `type Kind string`
abbrev pub Kind : Type 0
Kind = String

abbrev pub before_save : Kind
before_save = "beforeSave"

abbrev pub after_save : Kind
after_save = "afterSave"

abbrev pub before_delete : Kind
before_delete = "beforeDelete"

abbrev pub after_delete : Kind
after_delete = "afterDelete"

-- The state and the record after a call that may write to both, and the error it returned.
pub record Called (S : Type 0) : Type 0 where
  pub state : S
  pub outcome : Record
  pub error : Option Error

abbrev pub Func : Type 0 → Type 0
Func W = W → Record → Option Record → Called W

abbrev pub RecordTypeHookMap : Type 0 → Type 0
RecordTypeHookMap W = Dict (List (Func W))

pub record Registry (W : Type 0) : Type 0 where
  pub before_save_hooks : RecordTypeHookMap W
  pub after_save_hooks : RecordTypeHookMap W
  pub before_delete_hooks : RecordTypeHookMap W
  pub after_delete_hooks : RecordTypeHookMap W

-- A key that is missing holds the nil slice.
abbrev pub slice_of {ℓ} : {A : Type ℓ} → Option (List A) → List A
slice_of none = []
slice_of (some hooks) = hooks

module _ {W : Type 0} where
  unfoldable pub new_registry : Registry W
  new_registry = record {
    before_save_hooks = [];
    after_save_hooks = [];
    before_delete_hooks = [];
    after_delete_hooks = [];
  }

  -- `none` is the error.
  unfoldable pub record_type_hook_map : Kind → Registry W → Option (RecordTypeHookMap W)
  record_type_hook_map kind r =
      if kind == before_save
      then some r.before_save_hooks
      else if kind == after_save
      then some r.after_save_hooks
      else if kind == before_delete
      then some r.before_delete_hooks
      else if kind == after_delete
      then some r.after_delete_hooks
      else none

  -- `m[recordType] = append(m[recordType], hook)`
  abbrev append_hook : String → Func W → RecordTypeHookMap W → RecordTypeHookMap W
  append_hook record_type hook m =
      Dict.insert record_type (slice_of (Dict.lookup record_type m) ++ (hook ∷ [])) m

  unfoldable pub register : Kind → String → Func W → Registry W → Option (Registry W)
  register kind record_type hook r =
      if kind == before_save
      then some (record r { before_save_hooks = append_hook record_type hook r.before_save_hooks })
      else if kind == after_save
      then some (record r { after_save_hooks = append_hook record_type hook r.after_save_hooks })
      else if kind == before_delete
      then some
          (record r { before_delete_hooks = append_hook record_type hook r.before_delete_hooks })
      else if kind == after_delete
      then some
          (record r { after_delete_hooks = append_hook record_type hook r.after_delete_hooks })
      else none

  unfoldable pub hooks : Kind → String → Registry W → Option (List (Func W))
  unfolding record_type_hook_map
  hooks kind record_type r = elim (record_type_hook_map kind r) [
    | none ↦ none
    | some m ↦ some (slice_of (Dict.lookup record_type m))
  ]

  -- The loop of `ExecuteHooks`.
  unfoldable pub run_hooks : List (Func W) → W → Record → Option Record → Called W
  run_hooks [] w rec old = record { state = w; outcome = rec; error = none }
  run_hooks (hook ∷ rest) w rec old =
      let called = hook w rec old in
      elim (called.error) [
        | none ↦ run_hooks rest called.state called.outcome old
        | some e ↦ called
      ]

  unfoldable pub execute_hooks : Registry W → Kind → W → Record → Option Record → Called W
  unfolding hooks run_hooks
  execute_hooks r kind w rec old = elim (hooks kind rec.id.type r) [
    | none ↦ record {
      state = w;
      outcome = rec;
      error = some (new_error unexpected_error "Error getting database hooks");
    }
    | some list ↦ run_hooks list w rec old
  ]

-- What the transport's `RunHook` did: it returned a record, or an error.
pub data Answer : Type 0 where
  replied : Record → Answer
  failed : GoError → Answer

pub record PluginHookInfo : Type 0 where
  pub name : String
  pub trigger : Kind
  pub type : String
  pub async : Bool

module _ {W : Type 0} (run_hook : W → String → Record → Option Record → Bool → W × Answer) where
  -- The function that `CreateHookFunc` waits for.
  answered : PluginHookInfo → Record → W × Answer → Called W
  answered info rec (w, replied out) = record {
    state = w;
    outcome = if info.trigger == before_save && not info.async then out else rec;
    error = none;
  }
  answered info rec (w, failed e) = record { state = w; outcome = rec; error = some (make_error e) }

  -- With `Async` the call is started in a goroutine, of which the caller sees nothing.
  unfoldable pub create_hook_func : PluginHookInfo → Func W
  unfolding answered
  create_hook_func info w rec old =
      if info.async
      then record { state = w; outcome = rec; error = none }
      else answered info rec (run_hook w info.name rec old info.async)
