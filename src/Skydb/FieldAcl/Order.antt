-- ===== src/Skydb/FieldAcl/Order.antt =====
-- `Compare` and `Less` of the field entries in pkg/server/skydb/access.go order them as `sort.Sort`
-- requires.
use Prim.Native.Nat.{compare as compare_ℕ}
use Prim.Native.String.{compare}
use skygear_server.Common.{ℕ, String, ◌≡◌, Bool, true, false, ◌==◌, arith}
use skygear_server.Common.Order.{
  flip, Coherent, then_compare, then_compare-Coherent, compare-Coherent, string_compare-Coherent,
  compare-flip,
}
use skygear_server.Skydb.UserRole.Order.{role_compare-flip, role_compare-Coherent}
use skygear_server.Skydb.FieldAcl.{
  FieldAclEntry, wildcard_record_type, wildcard_record_field, wildcard_compare, entry_compare, less,
}

-- 1 at the wildcard, 0 elsewhere.
abbrev bit : Bool → ℕ
bit true = 1
bit false = 0

wildcard_compare_lem :
    (a b w : String)
    → wildcard_compare a b w ≡ then_compare (compare_ℕ (bit (a == w)) (bit (b == w))) (compare a b)
unfolding wildcard_compare
wildcard_compare_lem a b w = ground arith

wildcard_compare-flip : (a b w : String) → wildcard_compare b a w ≡ flip (wildcard_compare a b w)
unfolding wildcard_compare
wildcard_compare-flip a b w = ground (arith, compare-flip a b)

wildcard_compare-Coherent :
    (a b c w : String)
    → Coherent (wildcard_compare a b w) (wildcard_compare b c w) (wildcard_compare a c w)
wildcard_compare-Coherent a b c w =
    rw (wildcard_compare_lem a b w, wildcard_compare_lem b c w, wildcard_compare_lem a c w)
      (then_compare-Coherent _ _ _ _ _ _
        (compare-Coherent (bit (a == w)) (bit (b == w)) (bit (c == w)))
        (string_compare-Coherent a b c))

-- Exchanging two entries flips the sign of their comparison.
pub entry_compare-flip : (e f : FieldAclEntry) → entry_compare f e ≡ flip (entry_compare e f)
unfolding entry_compare
entry_compare-flip e f = ground (
  arith,
  wildcard_compare-flip e.record_type f.record_type wildcard_record_type,
  wildcard_compare-flip e.record_field f.record_field wildcard_record_field,
  role_compare-flip e.user_role f.user_role,
)

pub entry_compare-Coherent :
    (e f g : FieldAclEntry) → Coherent (entry_compare e f) (entry_compare f g) (entry_compare e g)
unfolding entry_compare
entry_compare-Coherent e f g =
    then_compare-Coherent _ _ _ _ _ _
      (wildcard_compare-Coherent e.record_type f.record_type g.record_type wildcard_record_type)
      (then_compare-Coherent _ _ _ _ _ _
        (wildcard_compare-Coherent e.record_field f.record_field g.record_field
          wildcard_record_field)
        (role_compare-Coherent e.user_role f.user_role g.user_role))

-- `Less` is a strict weak order: no two entries are less than one another, it is transitive, and so is
-- its absence.
pub less_strict_weak_order :
    (e f g : FieldAclEntry)
    → (less e f ≡ true → less f e ≡ false)
      × (less e f ≡ true → less f g ≡ true → less e g ≡ true)
      × (less e f ≡ false → less f g ≡ false → less e g ≡ false)
unfolding less
less_strict_weak_order e f g = ground (
  arith,
  entry_compare-flip e f,
  entry_compare-flip f g,
  entry_compare-flip e g,
  entry_compare-Coherent e f g,
  entry_compare-Coherent g f e,
)
