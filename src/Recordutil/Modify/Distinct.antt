-- ===== src/Recordutil/Modify/Distinct.antt =====
-- Lists of identifiers in which none stands twice.
use skygear_server.Common.{
  ◌≡◌, refl, Bool, true, false, not, ◌||◌, none, some, List, [], ◌∷◌, ◌++◌, arith, select, eq_iff,
  if_elim,
}
use skygear_server.Skydb.RecordMap as ById
use skygear_server.Skydb.RecordMap.{id_eq, id_eq_self, eq_of_id_eq, lookup-insert_cases}
use skygear_server.Skydb.Value.{RecordId}
use skygear_server.Skyerr.{Error}
use skygear_server.Recordutil.Modify.{ErrMap}

abbrev pub has : List RecordId → RecordId → Bool
has [] id = false
has (x ∷ xs) id = id_eq id x || has xs id

abbrev pub AreDistinct : List RecordId → Type 0
AreDistinct [] = Unit
AreDistinct (id ∷ ids) = (has ids id ≡ false) × AreDistinct ids

abbrev pub without : RecordId → List RecordId → List RecordId
without id ids = select (λ j. not (id_eq id j)) ids

id_eq-sym : (a b : RecordId) → id_eq a b ≡ id_eq b a
id_eq-sym a b =
    ground
      (arith, eq_iff a.type b.type, eq_iff b.type a.type, eq_iff a.key b.key, eq_iff b.key a.key)

without-absent : (id : RecordId) (ids : List RecordId) → has ids id ≡ false → without id ids ≡ ids
without-absent id [] h = refl
without-absent id (j ∷ ids) h = ground (arith, without-absent id ids)

ne_of_has :
    (j id : RecordId) (pre post : List RecordId)
    → has (pre ++ id ∷ post) j ≡ false
    → id_eq j id ≡ false
ne_of_has j id [] post h = ground arith
ne_of_has j id (x ∷ pre) post h = ground (arith, ne_of_has j id pre post)

pub without-middle :
    (id : RecordId) (pre post : List RecordId)
    → AreDistinct (pre ++ id ∷ post)
    → without id (pre ++ id ∷ post) ≡ pre ++ post
without-middle id [] post h = ground (arith, id_eq_self id, without-absent id post)
without-middle id (j ∷ pre) post (h, k) =
    ground (arith, id_eq-sym id j, ne_of_has j id pre post, without-middle id pre post k)

has-select :
    (p : RecordId → Bool) (j : RecordId) (ids : List RecordId)
    → has ids j ≡ false
    → has (select p ids) j ≡ false
has-select p j [] h = refl
has-select p j (x ∷ ids) h = ground (arith, has-select p j ids)

pub select-AreDistinct :
    (p : RecordId → Bool) (ids : List RecordId) → AreDistinct ids → AreDistinct (select p ids)
select-AreDistinct p [] h = tt
select-AreDistinct p (x ∷ ids) (h, k) =
    if_elim AreDistinct (p x) (has-select p x ids h, select-AreDistinct p ids k)
      (select-AreDistinct p ids k)

-- The map of errors has nothing for the record.
abbrev pub has_no_error : ErrMap → RecordId → Bool
has_no_error errs id = elim (ById.lookup id errs) [ none ↦ true | some e ↦ false ]

pub select-insert :
    (id : RecordId) (e : Error) (errs : ErrMap) (ids : List RecordId)
    → select (has_no_error (ById.insert id e errs)) ids
      ≡ without id (select (has_no_error errs) ids)
select-insert id e errs [] = refl
select-insert id e errs (j ∷ ids) =
    ground (arith, lookup-insert_cases id j e errs, select-insert id e errs ids)

pub select-no_errors : (ids : List RecordId) → select (has_no_error []) ids ≡ ids
unfolding ById.lookup
select-no_errors [] = refl
select-no_errors (j ∷ ids) = ground (arith, select-no_errors ids)
