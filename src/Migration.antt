-- ===== src/Migration.antt =====
-- pkg/server/skydb/pq/migration/migration.go, lines 33-112: which revisions lead from one version of the
-- database schema to another, and running them. What the SQL of a revision does to the state `T` of a
-- transaction is a parameter, and so are the list of revisions and the full migration. `none` is a panic.
pub mod Paths
pub mod Undoing
pub mod Latest
pub mod Members
use skygear_server.Common.{
  ℕ, zero, suc, ◌+◌, ◌-◌, String, Bool, true, false, ◌&&◌, Option, none, some, List, [], ◌∷◌, ltb,
  nat_eq, ◌==◌, if◌then◌else◌, ◌>>=◌,
}

-- `up` and `down` tell whether the error is not nil.
pub record Revision (T : Type 0) : Type 0 where
  pub version : String
  pub up : T → T × Bool
  pub down : T → T × Bool

module _ {T : Type 0} where
  -- `revisions[i]`
  abbrev pub get_elem? : List (Revision T) → ℕ → Option (Revision T)
  get_elem? [] i = none
  get_elem? (r ∷ rs) zero = some r
  get_elem? (r ∷ rs) (suc i) = get_elem? rs i

  -- `findRevisionIndex` plus one, so that 0 stands for -1.
  unfoldable pub find_revision_index : String → List (Revision T) → ℕ
  find_revision_index needle [] = 0
  find_revision_index needle (r ∷ rs) =
      let later = find_revision_index needle rs in
      if r.version == needle then 1 else if nat_eq later 0 then 0 else later + 1

  -- The index plus one of a version that is given, 0 for the empty one; an unknown version panics.
  unfoldable pub index_of : String → List (Revision T) → Option ℕ
  unfolding find_revision_index
  index_of version rs =
      if version == ""
      then some 0
      else if nat_eq (find_revision_index version rs) 0
      then none
      else some (find_revision_index version rs)

  -- `for i := currentIndex + 1; i <= targetIndex; i++`, with the rounds that are left.
  unfoldable pub upwards : List (Revision T) → ℕ → ℕ → Option (List (Revision T))
  upwards rs i zero = some []
  upwards rs i (suc n) = do r ← get_elem? rs i; rest ← upwards rs (i + 1) n; some (r ∷ rest)

  -- `for i := currentIndex; i >= targetIndex+1; i--`, with the rounds that are left; `i` is one more than
  -- the index.
  unfoldable pub downwards : List (Revision T) → ℕ → ℕ → Option (List (Revision T))
  downwards rs i zero = some []
  downwards rs i (suc n) = do
    r ← get_elem? rs (i - 1)
    rest ← downwards rs (i - 1) n
    some (r ∷ rest)

  path : List (Revision T) → ℕ → ℕ → Option (List (Revision T))
  unfolding upwards downwards
  path rs current target =
      if nat_eq current target
      then some []
      else if ltb current target
      then upwards rs current (target - current)
      else downwards rs current (current - target)

  unfoldable pub find_revisions :
      Revision T → List (Revision T) → String → String → Option (List (Revision T))
  unfolding index_of path
  find_revisions full rs current target =
      if current == "" && target == full.version
      then some (full ∷ [])
      else do i ← index_of current rs; j ← index_of target rs; path rs i j

  -- The loop of `executeSchemaMigrations`.
  unfoldable pub execute : Bool → List (Revision T) → T → T × Bool
  execute downgrade [] t = (t, false)
  execute downgrade (r ∷ rs) t =
      let (t', failed) = if downgrade then r.down t else r.up t in
      let rest = execute downgrade rs t' in if failed then (t', true) else rest
