-- ===== src/Migration/Paths.antt =====
-- The paths between versions of pkg/server/skydb/pq/migration/migration.go.
use skygear_server.Common.{
  suc, ◌+◌, ◌-◌, String, ◌≡◌, refl, sym, ap, subst, ◌∙◌, false, some, List, [], ◌∷◌, ◌++◌, ◌==◌,
  eq_iff, arith, length, All, length-append,
}
use mathlib.Core.List.{append_assoc, reverse, reverse-cons, reverse-reverse}
use skygear_server.Migration.{
  Revision, get_elem?, find_revision_index, index_of, upwards, downwards, path, find_revisions,
}

module _ {T : Type 0} where
  get_elem?-append :
      (pre : List (Revision T)) (r : Revision T) (post : List (Revision T))
      → get_elem? (pre ++ r ∷ post) (length pre) ≡ some r
  get_elem?-append [] r post = refl
  get_elem?-append (x ∷ pre) r post = get_elem?-append pre r post

  -- The version stands in none of the revisions.
  abbrev pub IsAbsent : String → List (Revision T) → Type 0
  IsAbsent version rs = All (λ (r : Revision T). (r.version == version) ≡ false) rs

  find_revision_index-append :
      (pre : List (Revision T)) (r : Revision T) (post : List (Revision T))
      → IsAbsent r.version pre
      → find_revision_index r.version (pre ++ r ∷ post) ≡ suc (length pre)
  unfolding find_revision_index
  find_revision_index-append [] r post h = ground (arith, eq_iff r.version r.version)
  find_revision_index-append (x ∷ pre) r post (h, k) =
      ground (arith, find_revision_index-append pre r post k)

  upwards-segment :
      (pre seg post : List (Revision T))
      → upwards (pre ++ (seg ++ post)) (length pre) (length seg) ≡ some seg
  unfolding upwards
  upwards-segment pre [] post = refl
  upwards-segment pre (r ∷ seg) post =
      let regroup : (pre ++ r ∷ []) ++ (seg ++ post) ≡ pre ++ (r ∷ (seg ++ post)) =
        append_assoc pre (r ∷ []) (seg ++ post) in
      let here = get_elem?-append pre r (seg ++ post) in
      let rest : upwards (pre ++ (r ∷ (seg ++ post))) (length pre + 1) (length seg) ≡ some seg =
        subst (λ n. upwards (pre ++ (r ∷ (seg ++ post))) n (length seg) ≡ some seg)
          (length-append pre (r ∷ []))
          (subst (λ x. upwards x (length (pre ++ r ∷ [])) (length seg) ≡ some seg) regroup
            (upwards-segment (pre ++ r ∷ []) seg post)) in
      ground (arith, here, rest)

  length-reverse : (rs : List (Revision T)) → length (reverse rs) ≡ length rs
  length-reverse [] = refl
  length-reverse (r ∷ rs) =
      ap length (reverse-cons r rs)
      ∙ omega (arith, length-append (reverse rs) (r ∷ []), length-reverse rs)

  downwards-reverse :
      (pre s post : List (Revision T))
      → downwards (pre ++ (reverse s ++ post)) (length pre + length s) (length s) ≡ some s
  unfolding downwards
  downwards-reverse pre [] post = refl
  downwards-reverse pre (r ∷ s) post =
      let regroup : pre ++ (reverse (r ∷ s) ++ post) ≡ pre ++ (reverse s ++ r ∷ post) =
        ap (λ x. pre ++ x)
          (ap (λ x. x ++ post) (reverse-cons r s) ∙ append_assoc (reverse s) (r ∷ []) post) in
      let at : length pre + length s ≡ length (pre ++ reverse s) =
        omega (arith, length-append pre (reverse s), length-reverse s) in
      let here : get_elem? (pre ++ (reverse s ++ r ∷ post)) (length pre + length s) ≡ some r =
        subst (λ n. get_elem? (pre ++ (reverse s ++ r ∷ post)) n ≡ some r) (sym at)
          (subst (λ x. get_elem? x (length (pre ++ reverse s)) ≡ some r)
            (append_assoc pre (reverse s) (r ∷ post))
            (get_elem?-append (pre ++ reverse s) r post)) in
      let rest = downwards-reverse pre s (r ∷ post) in
      let index : length pre + suc (length s) - 1 ≡ length pre + length s = omega arith in
      subst (λ x. downwards x (length pre + suc (length s)) (suc (length s)) ≡ some (r ∷ s))
        (sym regroup) (ground (arith, index, here, rest))

  -- No version stands twice.
  abbrev pub AreDistinct : List (Revision T) → Type 0
  AreDistinct [] = Unit
  AreDistinct (r ∷ rs) =
      All (λ (r' : Revision T). (r.version == r'.version) ≡ false) rs × AreDistinct rs

  All-middle :
      (P : Revision T → Type 0) (pre : List (Revision T)) (r : Revision T)
      (post : List (Revision T))
      → All P (pre ++ r ∷ post)
      → P r
  All-middle P [] r post (h, hs) = h
  All-middle P (x ∷ pre) r post (h, hs) = All-middle P pre r post hs

  AreDistinct-IsAbsent :
      (pre : List (Revision T)) (r : Revision T) (post : List (Revision T))
      → AreDistinct (pre ++ r ∷ post)
      → IsAbsent r.version pre
  AreDistinct-IsAbsent [] r post h = tt
  AreDistinct-IsAbsent (x ∷ pre) r post (h, hs) =
      (All-middle _ pre r post h, AreDistinct-IsAbsent pre r post hs)

  index_of-append :
      (pre : List (Revision T)) (r : Revision T) (post : List (Revision T))
      → AreDistinct (pre ++ r ∷ post)
      → (r.version == "") ≡ false
      → index_of r.version (pre ++ r ∷ post) ≡ some (suc (length pre))
  unfolding index_of
  index_of-append pre r post h k =
      ground (arith, k, find_revision_index-append pre r post (AreDistinct-IsAbsent pre r post h))

  path-upwards :
      (pre seg post : List (Revision T))
      → path (pre ++ (seg ++ post)) (length pre) (length pre + length seg) ≡ some seg
  unfolding path
  path-upwards pre [] post = ground arith
  path-upwards pre (r ∷ seg) post =
      let rounds : length pre + length (r ∷ seg) - length pre ≡ length (r ∷ seg) = omega arith in
      ground (arith, rounds, upwards-segment pre (r ∷ seg) post)

  path-downwards :
      (pre seg post : List (Revision T))
      → path (pre ++ (reverse seg ++ post)) (length pre + length seg) (length pre) ≡ some seg
  unfolding path
  path-downwards pre [] post = ground arith
  path-downwards pre (r ∷ seg) post =
      let rounds : length pre + length (r ∷ seg) - length pre ≡ length (r ∷ seg) = omega arith in
      ground (arith, rounds, downwards-reverse pre (r ∷ seg) post)

  path-back :
      (pre seg post : List (Revision T))
      → path (pre ++ (seg ++ post)) (length pre + length seg) (length pre) ≡ some (reverse seg)
  path-back pre seg post =
      subst (λ n. path (pre ++ (seg ++ post)) (length pre + n) (length pre) ≡ some (reverse seg))
        (length-reverse seg)
        (subst
          (λ x.
            path (pre ++ (x ++ post)) (length pre + length (reverse seg)) (length pre)
            ≡ some (reverse seg))
          (reverse-reverse seg) (path-downwards pre (reverse seg) post))

  -- If no version stands twice among the revisions and the versions of `c` and of the later `t` are not
  -- empty, findRevisions from `c` to `t` gives the revisions after `c` up to `t`, in their order; from `t`
  -- to `c` it gives the same revisions in the opposite order. `c` and `t` are not the same revision here,
  -- and neither way panics.
  pub find_revisions-there_and_back :
      (full : Revision T) (pre : List (Revision T)) (c : Revision T) (seg : List (Revision T))
      (t : Revision T) (post : List (Revision T))
      → AreDistinct (pre ++ c ∷ (seg ++ t ∷ post))
      → (c.version == "") ≡ false
      → (t.version == "") ≡ false
      → (find_revisions full (pre ++ c ∷ (seg ++ t ∷ post)) c.version t.version
          ≡ some (seg ++ t ∷ []))
        × (find_revisions full (pre ++ c ∷ (seg ++ t ∷ post)) t.version c.version
            ≡ some (reverse (seg ++ t ∷ [])))
  unfolding find_revisions
  find_revisions-there_and_back full pre c seg t post h kc kt =
      let rs = pre ++ c ∷ (seg ++ t ∷ post) in
      let lo = pre ++ c ∷ [] in
      let hi = seg ++ t ∷ [] in
      let low : length lo ≡ suc (length pre) = omega (arith, length-append pre (c ∷ [])) in
      let high : suc (length (pre ++ c ∷ seg)) ≡ length lo + length hi =
        omega (arith, low, length-append pre (c ∷ seg), length-append seg (t ∷ [])) in
      let at_t : (pre ++ c ∷ seg) ++ t ∷ post ≡ rs = append_assoc pre (c ∷ seg) (t ∷ post) in
      let split : lo ++ (hi ++ post) ≡ rs =
        append_assoc pre (c ∷ []) (hi ++ post)
        ∙ ap (λ x. pre ++ c ∷ x) (append_assoc seg (t ∷ []) post) in
      let ic : index_of c.version rs ≡ some (length lo) =
        index_of-append pre c (seg ++ t ∷ post) h kc ∙ ap some (sym low) in
      let it : index_of t.version rs ≡ some (length lo + length hi) =
        subst (λ x. index_of t.version x ≡ some (length lo + length hi)) at_t
          (index_of-append (pre ++ c ∷ seg) t post (subst AreDistinct (sym at_t) h) kt
            ∙ ap some high) in
      let up : path rs (length lo) (length lo + length hi) ≡ some hi =
        subst (λ x. path x (length lo) (length lo + length hi) ≡ some hi) split
          (path-upwards lo hi post) in
      let down : path rs (length lo + length hi) (length lo) ≡ some (reverse hi) =
        subst (λ x. path x (length lo + length hi) (length lo) ≡ some (reverse hi)) split
          (path-back lo hi post) in
      (ground (arith, kc, ic, it, up), ground (arith, kt, ic, it, down))
