-- ===== src/Tests/Migrations.antt =====
-- Schema migrations, at three revisions that count the steps.
use skygear_server.Common.{
  ℕ, ◌+◌, ◌-◌, String, ◌≡◌, refl, ap, sym, ◌∙◌, false, true, Option, some, none, [], ◌∷◌, ◌==◌,
  eq_iff, arith, if◌then◌else◌,
}
use skygear_server.Migration.{Revision, find_revisions, execute}
use skygear_server.Migration.Paths.{find_revisions-there_and_back}
use skygear_server.Migration.Latest.{
  Statements, row, EnsureError, current_version_num, set_version_num, ensure_latest,
}
use skygear_server.Migration.Latest.Versions.{IsSetting, IsKeeping, ensure_latest-IsKept}
use skygear_server.Migration.Undoing.{IsUndone, execute-there_and_back}

abbrev counting : String → Revision ℕ
counting name = record { version = name; up = λ n. (n + 1, false); down = λ n. (n - 1, false) }

abbrev first : Revision ℕ
first = counting "a1"

abbrev second : Revision ℕ
second = counting "b2"

abbrev third : Revision ℕ
third = counting "c3"

counting-IsUndone : (name : String) → IsUndone (counting name)
counting-IsUndone name t t' h =
    let e : t + 1 ≡ t' = ap (λ p. p.0) h in ap (λ n. (n, false)) (omega (arith, e))

find_revisions-there_and_back_example :
    (find_revisions third (first ∷ second ∷ third ∷ []) "a1" "c3" ≡ some (second ∷ third ∷ []))
    × (find_revisions third (first ∷ second ∷ third ∷ []) "c3" "a1" ≡ some (third ∷ second ∷ []))
find_revisions-there_and_back_example =
    find_revisions-there_and_back third [] first (second ∷ []) third []
      ((refl, (refl, tt)), ((refl, tt), (tt, tt))) refl refl

to_empty : find_revisions third (first ∷ second ∷ []) "b2" "" ≡ some (second ∷ first ∷ [])
unfolding find_revisions
to_empty = refl

execute-there_and_back_example : execute true (third ∷ second ∷ []) 7 ≡ (5, false)
unfolding execute
execute-there_and_back_example =
    execute-there_and_back third [] first (second ∷ []) third []
      ((refl, (refl, tt)), ((refl, tt), (tt, tt))) refl refl
      (counting-IsUndone "b2", (counting-IsUndone "c3", tt)) (second ∷ third ∷ [])
      (third ∷ second ∷ []) 5 7 find_revisions-there_and_back_example.0
      find_revisions-there_and_back_example.1 refl

-- A database that is a version and the number of revisions that ran.
abbrev Counted : Type 0
Counted = String × ℕ

abbrev statements : Statements Counted
statements = record {
  begin_fails = λ t. false;
  commit_fails = λ t. false;
  ensure_schema = λ t. (t, false);
  ensure_version_table = λ t. (t, false);
  version_table_exists = λ t. (if t.0 == "" then false else true, false);
  select_version_num = λ t. row t.0;
  insert_version_num = λ target t. ((target, t.1), false);
  update_version_num = λ target original t. ((if t.0 == original then target else t.0, t.1), false);
}

abbrev stepping : String → Revision Counted
stepping name = record {
  version = name;
  up = λ t. ((t.0, t.1 + 1), false);
  down = λ t. ((t.0, t.1 - 1), false);
}

read_version : (t : Counted) → current_version_num statements t ≡ (t.0, false)
unfolding current_version_num
read_version t = ground (arith, eq_iff t.0 "")

statements-IsSetting : IsSetting statements
unfolding set_version_num
statements-IsSetting original target t t' c h =
    let same : t.0 ≡ original = ap (λ p. p.0) (sym (read_version t) ∙ c) in
    let e : t'.0 ≡ target = ground (arith, ap (λ p. p.0.0) h, same, eq_iff t.0 original) in
    read_version t' ∙ ap (λ v. (v, false)) e

nothing-IsKeeping : IsKeeping statements (λ t. (t, false))
nothing-IsKeeping t t' h = ap (λ p. current_version_num statements p.0) (sym h)

stepping-IsKeeping : (name : String) → IsKeeping statements (stepping name).up
stepping-IsKeeping name t t' h =
    read_version t' ∙ ap (λ p. (p.0.0, false)) (sym h) ∙ sym (read_version t)

abbrev no_error : Option EnsureError
no_error = none

abbrev start : Counted
start = ("a1", 1)

abbrev migrated : Counted
migrated = ("c3", 3)

ensure_latest-IsKept_example :
    (no_error ≡ none → current_version_num statements migrated ≡ ("c3", false))
    × ((e : EnsureError) → no_error ≡ some e → migrated ≡ start)
unfolding ensure_latest find_revisions execute
ensure_latest-IsKept_example =
    ensure_latest-IsKept statements (stepping "c3")
      (stepping "a1" ∷ stepping "b2" ∷ stepping "c3" ∷ []) true start statements-IsSetting
      nothing-IsKeeping nothing-IsKeeping (stepping-IsKeeping "c3")
      (stepping-IsKeeping "a1", (stepping-IsKeeping "b2", (stepping-IsKeeping "c3", tt))) migrated
      no_error refl
