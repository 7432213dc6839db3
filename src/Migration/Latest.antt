-- ===== src/Migration/Latest.antt =====
-- pkg/server/skydb/pq/migration/migration.go, lines 88-170 and 209-238: bringing a database to the latest
-- version. The statements of SQL are parameters; each tells whether its error is not nil. A transaction is
-- a copy of the state of the database, which replaces it when it is committed.
pub mod Versions
use skygear_server.Common.{
  String, Bool, true, false, ◌&&◌, Option, none, some, List, ◌==◌, if◌then◌else◌, ◌>>=◌,
}
use skygear_server.Migration.{Revision, find_revisions, execute}

-- What scanning one row answers: `sql.ErrNoRows` is an error of its own.
pub data Row : Type 0 where
  row : String → Row
  no_rows : Row
  row_error : Row

pub record Statements (T : Type 0) : Type 0 where
  pub begin_fails : T → Bool
  pub commit_fails : T → Bool
  pub ensure_schema : T → T × Bool
  pub ensure_version_table : T → T × Bool
  pub version_table_exists : T → Bool × Bool
  pub select_version_num : T → Row
  pub insert_version_num : String → T → T × Bool
  pub update_version_num : String → String → T → T × Bool

pub data EnsureError : Type 0 where
  begin_failed : EnsureError
  version_unknown : EnsureError
  migration_disabled : EnsureError
  init_failed : EnsureError
  commit_failed : EnsureError

scanned : Row → String × Bool
scanned (row version) = (version, false)
scanned no_rows = ("", false)
scanned row_error = ("", true)

module _ {T : Type 0} where
  unfoldable pub current_version_num : Statements T → T → String × Bool
  unfolding scanned
  current_version_num st t =
      let (exists, failed) = st.version_table_exists t in
      if exists
      then if failed then ("", true) else scanned (st.select_version_num t)
      else ("", false)

  unfoldable pub set_version_num : Statements T → String → String → T → T × Bool
  set_version_num st original target t =
      if original == ""
      then st.insert_version_num target t
      else st.update_version_num target original t

  -- `if err = ...; err != nil { return err }`
  abbrev pub and_then : T × Bool → (T → T × Bool) → T × Bool
  and_then (t, failed) next = if failed then (t, true) else next t

  unfoldable pub execute_schema_migrations :
      Statements T → Revision T → List (Revision T) → String → String → Bool → T → Option (T × Bool)
  unfolding set_version_num
  execute_schema_migrations st full rs original target downgrade t =
      let (t', failed) = st.ensure_schema t in
      if failed then some (t', true) else do
        revs ← find_revisions full rs original target
        some (
            and_then (execute downgrade revs t')
              (λ u. and_then (st.ensure_version_table u) (set_version_num st original target)))

  committed : Statements T → T → T × Bool → T × Option EnsureError
  committed st t (t', failed) =
      if failed
      then (t, some init_failed)
      else if st.commit_fails t'
      then (t, some commit_failed)
      else (t', none)

  unfoldable pub ensure_latest :
      Statements T → Revision T → List (Revision T) → Bool → T → Option (T × Option EnsureError)
  unfolding current_version_num execute_schema_migrations committed
  ensure_latest st full rs allow_migration t =
      let (version_num, unknown) = current_version_num st t in
      if st.begin_fails t
      then some (t, some begin_failed)
      else if unknown
      then some (t, some version_unknown)
      else if version_num == full.version
      then some (t, none)
      else if allow_migration
      then execute_schema_migrations st full rs version_num full.version false t
        >>= (λ done. some (committed st t done))
      else some (t, some migration_disabled)
