-- ===== src/Common/Order.antt =====
-- `strings.Compare`: the order of texts by code points, which is the order of their UTF-8 bytes.
use Prim.Native.Nat.{ℕ, compare as compare_ℕ, Ordering}
use Prim.Native.Char.{Char, code}
use Prim.Native.String.{String, compare, then}
use Prim.Native.String.compare
use mathlib.Core.Path.{◌≡◌}
use text.Mathlib.TextEquality.{path_by_compare}
use text.Mathlib.TextPositions.{compare_refl}
use native.Mathlib.Omega.{arith}

abbrev pub flip : Ordering → Ordering
flip Ordering.lt = Ordering.gt
flip Ordering.eq = Ordering.eq
flip Ordering.gt = Ordering.lt

nil_nil : compare String.[] String.[] ≡ Ordering.eq
nil_nil = λ i. compare.nil-nil i

nil_cons : (d : Char) (t : String) → compare String.[] (String.◌∷◌ d t) ≡ Ordering.lt
nil_cons d t = λ i. compare.nil-cons d t i

cons_nil : (c : Char) (s : String) → compare (String.◌∷◌ c s) String.[] ≡ Ordering.gt
cons_nil c s = λ i. compare.cons-nil c s i

cons_cons :
    (c d : Char) (s t : String)
    → compare (String.◌∷◌ c s) (String.◌∷◌ d t) ≡ then (compare_ℕ (code c) (code d)) (compare s t)
cons_cons c d s t = λ i. compare.cons-cons c d s t i

pub compare-flip : (s t : String) → compare t s ≡ flip (compare s t)
compare-flip String.[] String.[] = cc nil_nil
compare-flip String.[] (String.◌∷◌ d t) = cc (nil_cons d t, cons_nil d t)
compare-flip (String.◌∷◌ c s) String.[] = cc (nil_cons c s, cons_nil c s)
compare-flip (String.◌∷◌ c s) (String.◌∷◌ d t) =
    rw (cons_cons c d s t, cons_cons d c t s) (ground (arith, compare-flip s t))

pub compare-lt_trans :
    (s t u : String)
    → compare s t ≡ Ordering.lt
    → compare t u ≡ Ordering.lt
    → compare s u ≡ Ordering.lt
compare-lt_trans String.[] String.[] u h k = cc
compare-lt_trans String.[] (String.◌∷◌ d t) String.[] h k = cc (cons_nil d t)
compare-lt_trans String.[] (String.◌∷◌ d t) (String.◌∷◌ e u) h k = nil_cons e u
compare-lt_trans (String.◌∷◌ c s) String.[] u h k = cc (cons_nil c s)
compare-lt_trans (String.◌∷◌ c s) (String.◌∷◌ d t) String.[] h k = cc (cons_nil d t)
compare-lt_trans (String.◌∷◌ c s) (String.◌∷◌ d t) (String.◌∷◌ e u) h k =
    ground (arith, cons_cons c d s t, cons_cons d e t u, cons_cons c e s u, compare-lt_trans s t u)

-- The signs of `x` against `y`, `y` against `z` and `x` against `z` in a total preorder.
pub record Coherent (xy yz xz : Ordering) : Type 0 where
  pub lt_lt : xy ≡ Ordering.lt → yz ≡ Ordering.lt → xz ≡ Ordering.lt
  pub lt_eq : xy ≡ Ordering.lt → yz ≡ Ordering.eq → xz ≡ Ordering.lt
  pub eq_lt : xy ≡ Ordering.eq → yz ≡ Ordering.lt → xz ≡ Ordering.lt
  pub eq_eq : xy ≡ Ordering.eq → yz ≡ Ordering.eq → xz ≡ Ordering.eq

-- `if result != 0 { return result }` and then another comparison.
abbrev pub then_compare : Ordering → Ordering → Ordering
then_compare Ordering.eq o = o
then_compare Ordering.lt o = Ordering.lt
then_compare Ordering.gt o = Ordering.gt

pub then_compare-Coherent :
    (a b c d e f : Ordering)
    → Coherent a b c
    → Coherent d e f
    → Coherent (then_compare a d) (then_compare b e) (then_compare c f)
then_compare-Coherent Ordering.lt Ordering.lt c d e f h k = record {
  lt_lt = λ _ _. ground (arith, h.lt_lt);
  lt_eq = λ p q. cc;
  eq_lt = λ p q. cc;
  eq_eq = λ p q. cc;
}
then_compare-Coherent Ordering.lt Ordering.eq c d e f h k = ground (arith, h.lt_eq)
then_compare-Coherent Ordering.eq Ordering.lt c d e f h k = ground (arith, h.eq_lt)
then_compare-Coherent Ordering.eq Ordering.eq c d e f h k = ground (arith, h.eq_eq)
then_compare-Coherent _ _ c d e f h k = ground arith

pub compare-Coherent : (a b c : ℕ) → Coherent (compare_ℕ a b) (compare_ℕ b c) (compare_ℕ a c)
compare-Coherent a b c = ground arith

pub string_compare-Coherent : (s t u : String) → Coherent (compare s t) (compare t u) (compare s u)
string_compare-Coherent s t u =
    ground (arith, compare-lt_trans s t u, path_by_compare s t, path_by_compare t u, compare_refl s)
