-- ===== src/Utils.antt =====
-- pkg/server/utils/utils.go: tests on slices of strings. A position that the source returns as an
-- `int`, with -1 for a missing element, is an `Option ℕ`.
pub mod Slices
use skygear_server.Common.{
  ℕ, suc, String, Bool, true, false, Option, none, some, List, [], ◌∷◌, length, ltb, ◌==◌,
  if◌then◌else◌,
}

str_at_from : ℕ → List String → String → Option ℕ
str_at_from pos [] str = none
str_at_from pos (s ∷ slice) str =
    let rest = str_at_from (suc pos) slice str in if s == str then some pos else rest

unfoldable pub str_at : List String → String → Option ℕ
unfolding str_at_from
str_at slice str = str_at_from 0 slice str

-- `pos != -1`
abbrev is_found : Option ℕ → Bool
is_found none = false
is_found (some pos) = true

pub string_slice_except : List String → List String → List String
string_slice_except [] except = []
string_slice_except (c ∷ slice) except =
    let rest = string_slice_except slice except in
    if is_found (str_at except c) then rest else c ∷ rest

contain_any_loop : List String → List String → Bool
contain_any_loop container [] = false
contain_any_loop container (s ∷ slice) =
    let rest = contain_any_loop container slice in
    if is_found (str_at container s) then true else rest

unfoldable pub string_slice_contain_any : List String → List String → Bool
unfolding contain_any_loop
string_slice_contain_any container [] = false
string_slice_contain_any container slice = contain_any_loop container slice

contain_all_loop : List String → List String → Bool
contain_all_loop container [] = true
contain_all_loop container (s ∷ slice) =
    let rest = contain_all_loop container slice in
    if is_found (str_at container s) then rest else false

pub string_slice_contain_all : List String → List String → Bool
unfolding contain_all_loop
string_slice_contain_all container slice =
    if ltb (length container) (length slice) then false else contain_all_loop container slice
