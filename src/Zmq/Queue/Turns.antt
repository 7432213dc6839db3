-- ===== src/Zmq/Queue/Turns.antt =====
-- Which worker of pkg/server/plugin/zmq/broker.go gets the next job.
use skygear_server.Common.{
  ◌≤◌, String, ◌≡◌, refl, true, false, List, [], ◌∷◌, ◌++◌, ◌==◌, arith, Bool-cases, inl, inr,
  nat_eq, length,
}
use skygear_server.Zmq.Queue.{
  Pworker, WorkerQueue, pop_last, next_of, next, is_registered, tick, others, borrow,
}
use skygear_server.Zmq.Queue.Invariant.{Absent, without}

pop_last-concat :
    (v : Pworker) (workers : List Pworker) (w : Pworker)
    → pop_last v (workers ++ w ∷ []) ≡ (w.address, v ∷ workers)
unfolding pop_last
pop_last-concat v [] w = refl
pop_last-concat v (u ∷ workers) w = rw (pop_last-concat u workers w)

next_of-concat :
    (workers : List Pworker) (w : Pworker) → next_of (workers ++ w ∷ []) ≡ (w.address, workers)
unfolding next_of pop_last
next_of-concat [] w = refl
next_of-concat (v ∷ workers) w = pop_last-concat v workers w

-- After a registered worker has ticked, the next job is its own, and taking the job leaves the queue
-- without that worker and otherwise as it was.
pub next-tick :
    (worker : Pworker) (q : WorkerQueue)
    → is_registered worker.address q ≡ true
    → next (tick worker q).1
      ≡ (worker.address, record q { pworkers = without worker.address q.pworkers })
unfolding next tick
next-tick worker q h = rw (h, next_of-concat (without worker.address q.pworkers) worker)

others-Absent :
    (address : String) (workers : List Pworker) → Absent address (others address workers)
unfolding others
others-Absent address [] = tt
others-Absent address (w ∷ workers) = elim (Bool-cases (w.address == address)) [
  | inl e ↦ rw e (others-Absent address workers)
  | inr e ↦ rw e (e, others-Absent address workers)
]

length-others-le :
    (address : String) (workers : List Pworker) → length (others address workers) ≤ length workers
unfolding others
length-others-le address [] = omega arith
length-others-le address (w ∷ workers) = ground (arith, length-others-le address workers)

Absent-of_length :
    (address : String) (workers : List Pworker)
    → length (others address workers) ≡ length workers
    → Absent address workers
unfolding others
Absent-of_length address [] h = tt
Absent-of_length address (w ∷ workers) h = elim (Bool-cases (w.address == address)) [
  | inl e ↦ absurd (ground (arith, length-others-le address workers))
  | inr e ↦ (e, Absent-of_length address workers (ground arith))
]

-- A worker that has been borrowed stands in the queue no more; if borrowing fails, it changes nothing,
-- and the worker did not stand in the queue.
pub borrow-Absent :
    (address : String) (q : WorkerQueue)
    → Absent address (borrow address q).1.pworkers
      × ((borrow address q).0 ≡ false → ((borrow address q).1 ≡ q) × Absent address q.pworkers)
unfolding borrow
borrow-Absent address q =
    elim (Bool-cases (nat_eq (length (others address q.pworkers)) (length q.pworkers))) [
      | inl e ↦
          let absent : Absent address q.pworkers =
            Absent-of_length address q.pworkers (ground arith) in
          rw e (absent, λ _. (refl, absent))
      | inr e ↦ rw e (others-Absent address q.pworkers, λ h. absurd (cc))
    ]

-- From an empty queue comes no worker.
pub next-nil : (q : WorkerQueue) → q.pworkers ≡ [] → next q ≡ ("", q)
unfolding next next_of
next-nil q h = ground (arith, h)
