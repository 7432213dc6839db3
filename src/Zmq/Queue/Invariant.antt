-- ===== src/Zmq/Queue/Invariant.antt =====
-- What holds of a worker queue between operations: no worker stands in it twice, each is registered, and
-- they stand in the order of their expiry.
use skygear_server.Common.{
  ℕ, ◌≤◌, String, ◌≡◌, true, false, List, [], ◌∷◌, ◌++◌, ◌==◌, eq_iff, if◌then◌else◌, arith,
  Bool-cases, inl, inr, subst, All, All-append,
}
use skygear_server.Zmq.Queue.{
  Pworker, WorkerQueue, pop_last, take_out, or_same, is_registered, others,
}

abbrev pub Absent : String → List Pworker → Type 0
Absent address workers = All (λ w. (w.address == address) ≡ false) workers

abbrev pub IsDistinct : List Pworker → Type 0
IsDistinct [] = Unit
IsDistinct (w ∷ workers) = Absent w.address workers × IsDistinct workers

abbrev pub IsOrdered : List Pworker → Type 0
IsOrdered [] = Unit
IsOrdered (w ∷ workers) = All (λ v. w.expiry ≤ v.expiry) workers × IsOrdered workers

-- `bound` is the latest expiry so far.
pub record IsValid (bound : ℕ) (q : WorkerQueue) : Type 0 where
  pub distinct : IsDistinct q.pworkers
  pub registered : All (λ w. is_registered w.address q ≡ true) q.pworkers
  pub ordered : IsOrdered q.pworkers
  pub bounded : All (λ w. w.expiry ≤ bound) q.pworkers

-- The first list is the second with some workers left out.
pub data Part : List Pworker → List Pworker → Type 0 where
  done : Part [] []
  skip : {xs ys : List Pworker} (w : Pworker) → Part xs ys → Part xs (w ∷ ys)
  keep : {xs ys : List Pworker} (w : Pworker) → Part xs ys → Part (w ∷ xs) (w ∷ ys)

pub Part-refl : (xs : List Pworker) → Part xs xs
Part-refl [] = done
Part-refl (x ∷ xs) = keep x (Part-refl xs)

pub Part-All : (P : Pworker → Type 0) {xs ys : List Pworker} → Part xs ys → All P ys → All P xs
Part-All P done h = h
Part-All P (skip w p) h = Part-All P p h.1
Part-All P (keep w p) h = (h.0, Part-All P p h.1)

pub Part-IsDistinct : {xs ys : List Pworker} → Part xs ys → IsDistinct ys → IsDistinct xs
Part-IsDistinct done h = h
Part-IsDistinct (skip w p) h = Part-IsDistinct p h.1
Part-IsDistinct (keep w p) h =
    (Part-All (λ v. (v.address == w.address) ≡ false) p h.0, Part-IsDistinct p h.1)

pub Part-IsOrdered : {xs ys : List Pworker} → Part xs ys → IsOrdered ys → IsOrdered xs
Part-IsOrdered done h = h
Part-IsOrdered (skip w p) h = Part-IsOrdered p h.1
Part-IsOrdered (keep w p) h = (Part-All (λ v. w.expiry ≤ v.expiry) p h.0, Part-IsOrdered p h.1)

-- What `take_out` leaves, clause by clause.
abbrev pub without : String → List Pworker → List Pworker
without address workers = or_same workers (take_out address workers)

without-cons :
    (address : String) (w : Pworker) (workers : List Pworker)
    → without address (w ∷ workers)
      ≡ (if w.address == address then workers else w ∷ without address workers)
unfolding take_out
without-cons address w workers = ground arith

pub without-Part :
    (address : String) (workers : List Pworker) → Part (without address workers) workers
unfolding take_out
without-Part address [] = done
without-Part address (w ∷ workers) = elim (Bool-cases (w.address == address)) [
  | inl e ↦ rw (without-cons address w workers, e) (skip w (Part-refl workers))
  | inr e ↦ rw (without-cons address w workers, e) (keep w (without-Part address workers))
]

Absent-congr : (a b : String) (workers : List Pworker) → a ≡ b → Absent a workers → Absent b workers
Absent-congr a b workers e h = subst (λ x. Absent x workers) e h

-- Of distinct workers none has the address that was taken out.
pub without-Absent :
    (address : String) (workers : List Pworker)
    → IsDistinct workers
    → Absent address (without address workers)
unfolding take_out
without-Absent address [] d = tt
without-Absent address (w ∷ workers) d = elim (Bool-cases (w.address == address)) [
  | inl e ↦
      rw (without-cons address w workers, e)
        (Absent-congr w.address address workers ((eq_iff w.address address).0 e) d.0)
  | inr e ↦ rw (without-cons address w workers, e) (e, without-Absent address workers d.1)
]

pub others-Part :
    (address : String) (workers : List Pworker) → Part (others address workers) workers
unfolding others
others-Part address [] = done
others-Part address (w ∷ workers) = elim (Bool-cases (w.address == address)) [
  | inl e ↦ rw e (skip w (others-Part address workers))
  | inr e ↦ rw e (keep w (others-Part address workers))
]

pub pop_last-Part :
    (w : Pworker) (workers : List Pworker) → Part (pop_last w workers).1 (w ∷ workers)
unfolding pop_last
pop_last-Part w [] = skip w done
pop_last-Part w (v ∷ workers) = keep w (pop_last-Part v workers)

pub IsDistinct-concat :
    (workers : List Pworker) (w : Pworker)
    → IsDistinct workers
    → Absent w.address workers
    → IsDistinct (workers ++ w ∷ [])
IsDistinct-concat [] w d a = (tt, tt)
IsDistinct-concat (v ∷ workers) w d a = (
  All-append (λ u. (u.address == v.address) ≡ false) workers (w ∷ []) d.0
      (ground (arith, eq_iff v.address w.address, eq_iff w.address v.address), tt),
  IsDistinct-concat workers w d.1 a.1,
)

pub IsOrdered-concat :
    (workers : List Pworker) (w : Pworker)
    → IsOrdered workers
    → All (λ v. v.expiry ≤ w.expiry) workers
    → IsOrdered (workers ++ w ∷ [])
IsOrdered-concat [] w o a = (tt, tt)
IsOrdered-concat (v ∷ workers) w o a = (
  All-append (λ u. v.expiry ≤ u.expiry) workers (w ∷ []) o.0 (a.0, tt),
  IsOrdered-concat workers w o.1 a.1,
)
