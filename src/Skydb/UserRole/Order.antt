-- ===== src/Skydb/UserRole/Order.antt =====
-- The order of evaluation of user roles: `Compare` of pkg/server/skydb/access.go.
use Prim.Native.Nat.{compare as compare_ℕ}
use skygear_server.Common.{
  ℕ, suc, ◌≡◌, refl, false, List, [], ◌∷◌, ◌==◌, eq_iff, if◌then◌else◌, arith, Bool-cases, inl, inr,
  ap,
}
use skygear_server.Common.Order.{
  Coherent, then_compare-Coherent, compare-Coherent, string_compare-Coherent, flip, compare-flip,
}
use skygear_server.Skydb.UserRole.{
  FieldUserRoleType, FieldUserRole, first_of_two, evaluation_order, type_compare, role_compare,
}

-- The place of a type in the order of evaluation; a type that is not listed comes last.
abbrev pub position : List FieldUserRoleType → FieldUserRoleType → ℕ
position [] a = 0
position (t ∷ types) a = if a == t then 0 else suc (position types a)

pub rank : FieldUserRoleType → ℕ
rank a = position evaluation_order a

first_of_two_lem :
    (a b : FieldUserRoleType) (types : List FieldUserRoleType)
    → (a == b) ≡ false
    → first_of_two a b types ≡ compare_ℕ (position types a) (position types b)
unfolding first_of_two
first_of_two_lem a b [] h = refl
first_of_two_lem a b (t ∷ types) h =
    ground (arith, eq_iff a b, eq_iff a t, eq_iff b t, first_of_two_lem a b types)

-- Two types of user role are compared by their places in the order of evaluation.
pub type_compare-eq-compare-rank :
    (a b : FieldUserRoleType) → type_compare a b ≡ compare_ℕ (rank a) (rank b)
unfolding type_compare
type_compare-eq-compare-rank a b = elim (Bool-cases (a == b)) [
  | inl same ↦ rw same (ground (arith, ap rank ((eq_iff a b).0 same)))
  | inr differ ↦ rw differ (unfold rank in first_of_two_lem a b evaluation_order differ)
]

-- Exchanging two roles flips the sign of their comparison.
pub role_compare-flip : (r s : FieldUserRole) → role_compare s r ≡ flip (role_compare r s)
unfolding role_compare
role_compare-flip r s =
    rw (type_compare-eq-compare-rank s.type r.type, type_compare-eq-compare-rank r.type s.type)
      (ground (arith, compare-flip r.detail s.detail))

-- Roles are totally preordered by `Compare`.
pub role_compare-Coherent :
    (r s t : FieldUserRole) → Coherent (role_compare r s) (role_compare s t) (role_compare r t)
unfolding role_compare
role_compare-Coherent r s t =
    rw
      (
        type_compare-eq-compare-rank r.type s.type,
        type_compare-eq-compare-rank s.type t.type,
        type_compare-eq-compare-rank r.type t.type,
      )
      (then_compare-Coherent _ _ _ _ _ _
        (compare-Coherent (rank r.type) (rank s.type) (rank t.type))
        (string_compare-Coherent r.detail s.detail t.detail))
