-- ===== src/Utils/Slices.antt =====
-- The loops of pkg/server/utils/utils.go against membership in a slice.
use skygear_server.Common.{
  ℕ, suc, String, ◌≡◌, refl, not, ◌&&◌, List, [], ◌∷◌, length, leb, all, any, contains, select,
  arith,
}
use skygear_server.Utils.{
  str_at_from, str_at, is_found, string_slice_except, contain_any_loop, string_slice_contain_any,
  contain_all_loop, string_slice_contain_all,
}

is_found-str_at_from :
    (pos : ℕ) (slice : List String) (s : String)
    → is_found (str_at_from pos slice s) ≡ contains slice s
unfolding str_at_from
is_found-str_at_from pos [] s = refl
is_found-str_at_from pos (x ∷ slice) s = ground (arith, is_found-str_at_from (suc pos) slice s)

pub is_found-str_at :
    (slice : List String) (s : String) → is_found (str_at slice s) ≡ contains slice s
unfolding str_at
is_found-str_at slice s = is_found-str_at_from 0 slice s

-- `StringSliceExcept` keeps exactly the elements that are not excepted, in their order.
pub string_slice_except-eq-select :
    (slice except : List String)
    → string_slice_except slice except ≡ select (λ c. not (contains except c)) slice
unfolding string_slice_except
string_slice_except-eq-select [] except = refl
string_slice_except-eq-select (c ∷ slice) except =
    ground (arith, is_found-str_at except c, string_slice_except-eq-select slice except)

contain_any_loop_lem :
    (container slice : List String)
    → contain_any_loop container slice ≡ any (contains container) slice
unfolding contain_any_loop
contain_any_loop_lem container [] = refl
contain_any_loop_lem container (s ∷ slice) =
    ground (arith, is_found-str_at container s, contain_any_loop_lem container slice)

-- `StringSliceContainAny` holds exactly if some element of the slice is in the container.
pub string_slice_contain_any_lem :
    (container slice : List String)
    → string_slice_contain_any container slice ≡ any (contains container) slice
unfolding string_slice_contain_any
string_slice_contain_any_lem container [] = refl
string_slice_contain_any_lem container (s ∷ slice) = contain_any_loop_lem container (s ∷ slice)

contain_all_loop_lem :
    (container slice : List String)
    → contain_all_loop container slice ≡ all (contains container) slice
unfolding contain_all_loop
contain_all_loop_lem container [] = refl
contain_all_loop_lem container (s ∷ slice) =
    ground (arith, is_found-str_at container s, contain_all_loop_lem container slice)

-- `StringSliceContainAll` holds exactly if the slice is no longer than the container and each of its
-- elements is in the container.
pub string_slice_contain_all_lem :
    (container slice : List String)
    → string_slice_contain_all container slice
      ≡ (leb (length slice) (length container) && all (contains container) slice)
unfolding string_slice_contain_all
string_slice_contain_all_lem container slice = ground (arith, contain_all_loop_lem container slice)
