-- ===== src/Migration/Latest/Versions.antt =====
-- What EnsureLatest of pkg/server/skydb/pq/migration/migration.go leaves in the database.
use skygear_server.Common.{
  String, ◌≡◌, refl, ap, ◌∙◌, Bool, true, false, List, [], ◌∷◌, if◌then◌else◌, ◌==◌, All, arith,
  eq_iff, Option, some, none, ◌>>=◌,
}
use skygear_server.Migration.{Revision, execute, find_revisions}
use skygear_server.Migration.Members.{AreAll, find_revisions-AreAll}
use skygear_server.Migration.Latest.{
  Statements, current_version_num, set_version_num, execute_schema_migrations, ensure_latest,
  EnsureError, committed, begin_failed, version_unknown, migration_disabled, init_failed, and_then,
}

module _ {T : Type 0} (st : Statements T) where
  -- After the version was set from the one that is read, the new one is read.
  abbrev pub IsSetting : Type 0
  IsSetting =
      (original target : String) (t t' : T)
      → current_version_num st t ≡ (original, false)
      → set_version_num st original target t ≡ (t', false)
      → current_version_num st t' ≡ (target, false)

  -- A successful step leaves the version that is read.
  abbrev pub IsKeeping : (T → T × Bool) → Type 0
  IsKeeping f =
      (t t' : T) → f t ≡ (t', false) → current_version_num st t' ≡ current_version_num st t

  execute-IsKeeping :
      (rs : List (Revision T))
      → All (λ (r : Revision T). IsKeeping r.up) rs
      → IsKeeping (execute false rs)
  unfolding execute
  execute-IsKeeping [] ks t t' h = ap (current_version_num st) (ground (arith, h))
  execute-IsKeeping (r ∷ rs) (k, ks) t t' h =
      let first : (r.up t).1 ≡ false = ground (arith, h) in
      let later : execute false rs (r.up t).0 ≡ (t', false) = ground (arith, h, first) in
      execute-IsKeeping rs ks (r.up t).0 t' later ∙ k t (r.up t).0 (ap (λ b. ((r.up t).0, b)) first)

  -- `and_then` succeeds only if both steps do.
  and_then-eq-success :
      (p : T × Bool) (next : T → T × Bool) (t' : T)
      → and_then p next ≡ (t', false)
      → (p ≡ (p.0, false)) × (next p.0 ≡ (t', false))
  and_then-eq-success (t, true) next t' h = absurd (cc)
  and_then-eq-success (t, false) next t' h = (refl, h)

  -- What EnsureLatest promises of its outcome: without an error the latest version is read, and with one
  -- the database is as it was.
  abbrev pub IsKept : String → T → Option (T × Option EnsureError) → Type 0
  IsKept latest t x =
      (t' : T) (outcome : Option EnsureError)
      → x ≡ some (t', outcome)
      → (outcome ≡ none → current_version_num st t' ≡ (latest, false))
        × ((e : EnsureError) → outcome ≡ some e → t' ≡ t)

  error-IsKept : (latest : String) (t : T) (e : EnsureError) → IsKept latest t (some (t, some e))
  error-IsKept latest t e t' outcome h = (λ n. absurd (cc), λ e' n. cc)

  same-IsKept :
      (latest : String) (t : T)
      → current_version_num st t ≡ (latest, false)
      → IsKept latest t (some (t, none))
  same-IsKept latest t c t' outcome h =
      let e : t' ≡ t = cc in (λ n. ap (current_version_num st) e ∙ c, λ e' n. e)

  if-IsKept :
      (latest : String) (t : T) (b : Bool) (x y : Option (T × Option EnsureError))
      → (b ≡ true → IsKept latest t x)
      → (b ≡ false → IsKept latest t y)
      → IsKept latest t (if b then x else y)
  if-IsKept latest t true x y f g = f refl
  if-IsKept latest t false x y f g = g refl

  committed-IsKept :
      (latest : String) (t : T) (p : T × Bool)
      → (p.1 ≡ false → current_version_num st p.0 ≡ (latest, false))
      → IsKept latest t (some (committed st t p))
  unfolding committed
  committed-IsKept latest t (u, true) f t' outcome h =
      error-IsKept latest t init_failed t' outcome h
  committed-IsKept latest t (u, false) f t' outcome h = (
    λ n. let e : t' ≡ u = ground (arith, h, n) in ap (current_version_num st) e ∙ f refl,
    λ e n. ground (arith, h, n),
  )

  finished-current :
      (original target : String) (revs : List (Revision T)) (u t' : T)
      → IsSetting
      → IsKeeping st.ensure_version_table
      → All (λ (r : Revision T). IsKeeping r.up) revs
      → current_version_num st u ≡ (original, false)
      → and_then
          (execute false revs u)
          (λ v. and_then (st.ensure_version_table v) (set_version_num st original target))
        ≡ (t', false)
      → current_version_num st t' ≡ (target, false)
  finished-current original target revs u t' setting kt ks c h =
      let (ran, h') =
        and_then-eq-success (execute false revs u)
          (λ x. and_then (st.ensure_version_table x) (set_version_num st original target)) t' h in
      let v = (execute false revs u).0 in
      let (ensured, h'') =
        and_then-eq-success (st.ensure_version_table v) (set_version_num st original target) t'
          h' in
      let w = (st.ensure_version_table v).0 in
      setting original target w t' (kt v w ensured ∙ execute-IsKeeping revs ks u v ran ∙ c) h''

  schema-IsKept :
      (original target : String) (t : T) (p : T × Bool) (o : Option (List (Revision T)))
      → IsSetting
      → IsKeeping st.ensure_version_table
      → AreAll (λ (r : Revision T). IsKeeping r.up) o
      → (p.1 ≡ false → current_version_num st p.0 ≡ (original, false))
      → IsKept target t (
          (if p.1
            then some (p.0, true)
            else o >>= (λ revs. some (
                and_then (execute false revs p.0) (λ u.
                  and_then (st.ensure_version_table u) (set_version_num st original target)))))
          >>= (λ done. some (committed st t done)))
  unfolding committed
  schema-IsKept original target t (u, true) o setting kt ks c t' outcome h =
      error-IsKept target t init_failed t' outcome h
  schema-IsKept original target t (u, false) none setting kt ks c t' outcome h = absurd (cc)
  schema-IsKept original target t (u, false) (some revs) setting kt ks c t' outcome h =
      let p =
        and_then (execute false revs u)
          (λ v. and_then (st.ensure_version_table v) (set_version_num st original target)) in
      committed-IsKept target t p
        (λ ok.
          finished-current original target revs u p.0 setting kt ks (c refl)
            (ap (λ b. (p.0, b)) ok))
        t' outcome h

  -- Suppose that after the version was set, from the one that is read, the new one is read, and that no
  -- other successful step of a migration changes the version that is read. Then, unless EnsureLatest panics:
  -- if it returns no error, the version that is read afterwards is the latest; if it returns an error, the
  -- database is as it was.
  pub ensure_latest-IsKept :
      (full : Revision T) (rs : List (Revision T)) (allow_migration : Bool) (t : T)
      → IsSetting
      → IsKeeping st.ensure_schema
      → IsKeeping st.ensure_version_table
      → IsKeeping full.up
      → All (λ (r : Revision T). IsKeeping r.up) rs
      → (t' : T) (outcome : Option EnsureError)
      → ensure_latest st full rs allow_migration t ≡ some (t', outcome)
      → (outcome ≡ none → current_version_num st t' ≡ (full.version, false))
        × ((e : EnsureError) → outcome ≡ some e → t' ≡ t)
  unfolding ensure_latest execute_schema_migrations
  ensure_latest-IsKept full rs allow_migration t setting ke kt kf ks =
      let version_num = (current_version_num st t).0 in
      let read : (current_version_num st t).1 ≡ false
          → current_version_num st t ≡ (version_num, false) =
        λ known. ap (λ b. (version_num, b)) known in
      if-IsKept full.version t (st.begin_fails t) _ _
        (λ b. error-IsKept full.version t begin_failed)
        (λ b.
          if-IsKept full.version t (current_version_num st t).1 _ _
            (λ unknown. error-IsKept full.version t version_unknown)
            (λ known.
              if-IsKept full.version t (version_num == full.version) _ _
                (λ same. same-IsKept full.version t (
                  read known
                  ∙ ap (λ v. (v, false)) (ground (arith, same, eq_iff version_num full.version))))
                (λ other.
                  if-IsKept full.version t allow_migration _ _
                    (λ allowed.
                      schema-IsKept version_num full.version t (st.ensure_schema t)
                        (find_revisions full rs version_num full.version) setting kt
                        (find_revisions-AreAll (λ (r : Revision T). IsKeeping r.up) full rs
                          version_num full.version kf ks)
                        (λ ok.
                          ke t (st.ensure_schema t).0 (ap (λ b. ((st.ensure_schema t).0, b)) ok)
                          ∙ read known))
                    (λ disabled. error-IsKept full.version t migration_disabled))))
