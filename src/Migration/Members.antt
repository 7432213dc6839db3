-- ===== src/Migration/Members.antt =====
-- The revisions on a path of pkg/server/skydb/pq/migration/migration.go are revisions of the list.
use skygear_server.Common.{
  ℕ, zero, suc, ◌+◌, ◌-◌, String, ◌≡◌, refl, subst, Bool, true, false, List, [], ◌∷◌, if◌then◌else◌,
  ◌==◌, All, Option, some, none, ◌>>=◌, ◌&&◌, nat_eq, ltb,
}
use skygear_server.Migration.{
  Revision, get_elem?, upwards, downwards, path, index_of, find_revisions,
}

module _ {T : Type 0} (P : Revision T → Type 0) where
  -- Either nothing, or revisions that all have the property.
  abbrev pub AreAll : Option (List (Revision T)) → Type 0
  AreAll none = Unit
  AreAll (some rs) = All P rs

  AreAll-cons :
      (o : Option (Revision T)) (rest : Option (List (Revision T)))
      → ((r : Revision T) → o ≡ some r → P r)
      → AreAll rest
      → AreAll (o >>= (λ r. rest >>= (λ rs. some (r ∷ rs))))
  AreAll-cons none rest h k = tt
  AreAll-cons (some r) none h k = tt
  AreAll-cons (some r) (some rs) h k = (h r refl, k)

  get_elem?-All :
      (rs : List (Revision T)) (i : ℕ) (r : Revision T) → All P rs → get_elem? rs i ≡ some r → P r
  get_elem?-All [] i r ps h = absurd (cc)
  get_elem?-All (x ∷ rs) zero r (p, ps) h = let e : x ≡ r = cc in subst P e p
  get_elem?-All (x ∷ rs) (suc i) r (p, ps) h = get_elem?-All rs i r ps h

  upwards-AreAll : (rs : List (Revision T)) (i n : ℕ) → All P rs → AreAll (upwards rs i n)
  unfolding upwards
  upwards-AreAll rs i zero ps = tt
  upwards-AreAll rs i (suc n) ps =
      AreAll-cons (get_elem? rs i) (upwards rs (i + 1) n) (λ r. get_elem?-All rs i r ps)
        (upwards-AreAll rs (i + 1) n ps)

  downwards-AreAll : (rs : List (Revision T)) (i n : ℕ) → All P rs → AreAll (downwards rs i n)
  unfolding downwards
  downwards-AreAll rs i zero ps = tt
  downwards-AreAll rs i (suc n) ps =
      AreAll-cons (get_elem? rs (i - 1)) (downwards rs (i - 1) n)
        (λ r. get_elem?-All rs (i - 1) r ps) (downwards-AreAll rs (i - 1) n ps)

  if-AreAll :
      (b : Bool) (x y : Option (List (Revision T)))
      → AreAll x
      → AreAll y
      → AreAll (if b then x else y)
  if-AreAll true x y h k = h
  if-AreAll false x y h k = k

  path-AreAll : (rs : List (Revision T)) (i j : ℕ) → All P rs → AreAll (path rs i j)
  unfolding path
  path-AreAll rs i j ps =
      if-AreAll (nat_eq i j) _ _ tt (
        if-AreAll (ltb i j) _ _ (upwards-AreAll rs i (j - i) ps) (downwards-AreAll rs i (i - j) ps))

  paths-AreAll :
      (rs : List (Revision T)) (oi oj : Option ℕ)
      → All P rs
      → AreAll (oi >>= (λ i. oj >>= (λ j. path rs i j)))
  paths-AreAll rs none oj ps = tt
  paths-AreAll rs (some i) none ps = tt
  paths-AreAll rs (some i) (some j) ps = path-AreAll rs i j ps

  pub find_revisions-AreAll :
      (full : Revision T) (rs : List (Revision T)) (current target : String)
      → P full
      → All P rs
      → AreAll (find_revisions full rs current target)
  unfolding find_revisions
  find_revisions-AreAll full rs current target p ps =
      if-AreAll (current == "" && target == full.version) _ _ (p, tt)
        (paths-AreAll rs (index_of current rs) (index_of target rs) ps)
