-- ===== src/Common/Text.antt =====
-- Operations of Go's `strings` package on native texts.
use Prim.Native.Nat.{ℕ}
use Prim.Native.Char.{Char, code}
use Prim.Native.String.{String, ◌++◌}
use Prim.Native.String.append
use mathlib.Core.Path.{◌≡◌, refl, ap, ◌∙◌}
use mathlib.Core.Logic.{inl, inr}
use text.Mathlib.TextEquality.{Char-path}
use mathlib.Core.Bool.{Bool, false, ◌||◌}
use mathlib.Core.Option.{Option, none, some}
use native.Mathlib.Omega.{arith}
use skygear_server.Common.Tests.{if◌then◌else◌, nat_eq, Bool-cases}

-- `strings.SplitN(s, sep, 2)` at a one-character separator: the text before the first separator, and
-- the text behind it if there is one.
unfoldable pub split2 : ℕ → String → String × Option String
split2 sep String.[] = (String.[], none)
split2 sep (String.◌∷◌ c s) =
    let (head, rest) = split2 sep s in
    if nat_eq (code c) sep then (String.[], some s) else (String.◌∷◌ c head, rest)

-- Whether the character with code `sep` stands in the text.
unfoldable pub has_code : ℕ → String → Bool
has_code sep String.[] = false
has_code sep (String.◌∷◌ c s) = nat_eq (code c) sep || has_code sep s

pub append_nil : (t : String) → (String.[] ++ t) ≡ t
append_nil t = λ i. append.nil t i

pub append_cons : (c : Char) (s t : String) → (String.◌∷◌ c s ++ t) ≡ String.◌∷◌ c (s ++ t)
append_cons c s t = λ i. append.cons c s t i

pub split2-append :
    (sep : ℕ) (a : String) (c : Char) (b : String)
    → code c ≡ sep
    → has_code sep a ≡ false
    → split2 sep (a ++ String.◌∷◌ c b) ≡ (a, some b)
unfolding split2 has_code
split2-append sep String.[] c b e h = rw append_nil (ground arith)
split2-append sep (String.◌∷◌ d a) c b e h =
    rw append_cons (ground (arith, split2-append sep a c b e))

pub split2_absent : (sep : ℕ) (a : String) → has_code sep a ≡ false → split2 sep a ≡ (a, none)
unfolding split2 has_code
split2_absent sep String.[] h = refl
split2_absent sep (String.◌∷◌ d a) h = ground (arith, split2_absent sep a)

-- The parts with the separator between them again.
abbrev pub rejoin : Char → String × Option String → String
rejoin c (a, none) = a
rejoin c (a, some b) = a ++ String.◌∷◌ c b

rejoin-cons :
    (c d : Char) (a : String) (rest : Option String)
    → rejoin c (String.◌∷◌ d a, rest) ≡ String.◌∷◌ d (rejoin c (a, rest))
rejoin-cons c d a none = refl
rejoin-cons c d a (some b) = append_cons d a (String.◌∷◌ c b)

pub rejoin-split2 : (c : Char) (s : String) → rejoin c (split2 (code c) s) ≡ s
unfolding split2
rejoin-split2 c String.[] = refl
rejoin-split2 c (String.◌∷◌ d s) = elim (Bool-cases (nat_eq (code d) (code c))) [
  | inl e ↦ rw e (
      append_nil (String.◌∷◌ c s)
      ∙ ap (λ (x : Char). String.◌∷◌ x s) (Char-path c d (ground arith)))
  | inr e ↦ rw e (
      rejoin-cons c d (split2 (code c) s).0 (split2 (code c) s).1
      ∙ ap (String.◌∷◌ d) (rejoin-split2 c s))
]

-- `strings.HasPrefix` and `strings.TrimPrefix` in one: what follows the prefix, if the text has it.
unfoldable pub strip_prefix : String → String → Option String
strip_prefix String.[] s = some s
strip_prefix (String.◌∷◌ c p) String.[] = none
strip_prefix (String.◌∷◌ c p) (String.◌∷◌ d s) =
    let rest = strip_prefix p s in if nat_eq (code c) (code d) then rest else none
