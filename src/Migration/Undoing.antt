-- ===== src/Migration/Undoing.antt =====
-- Running the revisions of pkg/server/skydb/pq/migration/migration.go in one direction and then in the other.
use skygear_server.Common.{
  ◌≡◌, sym, ap, subst, ◌∙◌, Bool, true, false, List, [], ◌∷◌, ◌++◌, ◌==◌, All, arith, some,
}
use mathlib.Core.List.{reverse, reverse-cons}
use skygear_server.Migration.{Revision, execute, find_revisions}
use skygear_server.Migration.Paths.{AreDistinct, find_revisions-there_and_back}

module _ {T : Type 0} where
  -- Where going up succeeds, going down after it succeeds and restores the state.
  abbrev pub IsUndone : Revision T → Type 0
  IsUndone r = (t t' : T) → r.up t ≡ (t', false) → r.down t' ≡ (t, false)

  execute-append :
      (downgrade : Bool) (rs : List (Revision T)) (r : Revision T) (t t' : T)
      → execute downgrade rs t ≡ (t', false)
      → execute downgrade (rs ++ r ∷ []) t ≡ execute downgrade (r ∷ []) t'
  unfolding execute
  execute-append downgrade [] r t t' h = ap (λ p. execute downgrade (r ∷ []) p.0) h
  execute-append true (x ∷ rs) r t t' h =
      ground (arith, h, execute-append true rs r (x.down t).0 t')
  execute-append false (x ∷ rs) r t t' h =
      ground (arith, h, execute-append false rs r (x.up t).0 t')

  execute-reverse :
      (rs : List (Revision T)) (t t' : T)
      → All IsUndone rs
      → execute false rs t ≡ (t', false)
      → execute true (reverse rs) t' ≡ (t, false)
  unfolding execute
  execute-reverse [] t t' us h = ground (arith, h)
  execute-reverse (r ∷ rs) t t' (u, us) h =
      let first : (r.up t).1 ≡ false = ground (arith, h) in
      let later : execute false rs (r.up t).0 ≡ (t', false) = ground (arith, h, first) in
      let back : execute true (r ∷ []) (r.up t).0 ≡ (t, false) =
        ground (arith, u t (r.up t).0 (ap (λ b. ((r.up t).0, b)) first)) in
      ap (λ x. execute true x t') (reverse-cons r rs)
      ∙ execute-append true (reverse rs) r t' (r.up t).0 (execute-reverse rs (r.up t).0 t' us later)
      ∙ back

  -- If no version stands twice among the revisions, the versions of `c` and of the later `t` are not
  -- empty, and each revision after `c` up to `t` is one whose Down after a successful Up succeeds and
  -- restores the state, then a migration from `c` to `t` that succeeds is undone by the migration from `t`
  -- to `c`: this one runs without an error, and the state after it is the state before both.
  pub execute-there_and_back :
      (full : Revision T) (pre : List (Revision T)) (c : Revision T) (seg : List (Revision T))
      (t : Revision T) (post : List (Revision T))
      → AreDistinct (pre ++ c ∷ (seg ++ t ∷ post))
      → (c.version == "") ≡ false
      → (t.version == "") ≡ false
      → All IsUndone (seg ++ t ∷ [])
      → (ups downs : List (Revision T)) (s s' : T)
      → find_revisions full (pre ++ c ∷ (seg ++ t ∷ post)) c.version t.version ≡ some ups
      → find_revisions full (pre ++ c ∷ (seg ++ t ∷ post)) t.version c.version ≡ some downs
      → execute false ups s ≡ (s', false)
      → execute true downs s' ≡ (s, false)
  execute-there_and_back full pre c seg t post h kc kt us ups downs s s' hu hd run =
      let (up, down) = find_revisions-there_and_back full pre c seg t post h kc kt in
      let eu : ups ≡ seg ++ t ∷ [] = cc in
      let ed : downs ≡ reverse (seg ++ t ∷ []) = cc in
      subst (λ x. execute true x s' ≡ (s, false)) (sym ed)
        (execute-reverse (seg ++ t ∷ []) s s' us
          (subst (λ x. execute false x s ≡ (s', false)) eu run))
