-- ===== src/Skydb/AuthData.antt =====
-- pkg/server/skydb/authinfo.go, lines 53-180: the data by which a user is found, and whether it is valid.
-- The predicate that `MakeEqualPredicate` builds for the store is left out.
pub mod Using
use skygear_server.Common.{
  ℕ, suc, ◌+◌, String, Bool, true, false, not, ◌&&◌, ◌||◌, Option, none, some, List, [], ◌∷◌, ◌==◌,
  nat_eq, ltb, length, contains, if◌then◌else◌,
}
use skygear_server.Common.Dict
use skygear_server.Skydb.Value.{Value, Data, null}

pub record AuthData : Type 0 where
  pub contents : Data
  pub keys : List (List String)

unfoldable pub new_auth_data : Data → List (List String) → AuthData
new_auth_data contents keys = record { contents = contents; keys = keys }

abbrev pub is_nil : Option Value → Bool
is_nil none = true
is_nil (some null) = true
is_nil (some _) = false

-- `a.data[key] == nil`
abbrev pub is_field_empty : Data → String → Bool
is_field_empty contents key = is_nil (Dict.lookup key contents)

-- The two inner loops of `usingKeys`: over the keys of the data, and over the keys of a group.
pub count_key : Data → String → List String → ℕ
count_key contents k [] = 0
count_key contents k (dk ∷ dks) =
    let rest = count_key contents k dks in
    if k == dk && not (is_field_empty contents dk) then suc rest else rest

pub count_keys : Data → List String → ℕ
unfolding count_key
count_keys contents [] = 0
count_keys contents (k ∷ ks) = count_key contents k (Dict.keys contents) + count_keys contents ks

pub using_loop : Data → List (List String) → List String
unfolding count_keys
using_loop contents [] = []
using_loop contents (ks ∷ groups) =
    let rest = using_loop contents groups in
    if nat_eq (length ks) (count_keys contents ks) then ks else rest

unfoldable pub using_keys : AuthData → List String
unfolding using_loop
using_keys a = using_loop a.contents a.keys

-- Whether a key is one of `allKeys`.
pub is_listed : String → List (List String) → Bool
is_listed k [] = false
is_listed k (ks ∷ groups) = contains ks k || is_listed k groups

-- The loop of `IsValid` over the keys of the data.
pub all_listed : List (List String) → List String → Bool
unfolding is_listed
all_listed groups [] = true
all_listed groups (dk ∷ dks) =
    let rest = all_listed groups dks in if is_listed dk groups then rest else false

unfoldable pub is_valid : AuthData → Bool
unfolding all_listed using_keys
is_valid a = all_listed a.keys (Dict.keys a.contents) && ltb 0 (length (using_keys a))

pub all_empty : Data → List String → Bool
all_empty contents [] = true
all_empty contents (k ∷ ks) =
    let rest = all_empty contents ks in if is_field_empty contents k then rest else false

unfoldable pub is_empty : AuthData → Bool
unfolding all_empty
is_empty a = all_empty a.contents (Dict.keys a.contents)
