-- ===== src/Zmq/Queue/Keeps.antt =====
-- Every operation of the worker queue keeps it valid.
use skygear_server.Common.{
  ℕ, ◌≤◌, String, ◌≡◌, Bool, true, List, [], ◌∷◌, ◌++◌, eq_iff, arith, All, All-append, All-map,
  Bool-cases, inl, inr, length, nat_eq, ltb,
}
use skygear_server.Common.Dict
use skygear_server.Common.Dict.{Dict, lookup-insert, lookup-delete}
use skygear_server.Zmq.Queue.{
  Pworker, WorkerQueue, next_of, next, has, is_registered, tick, add, others, borrow, purge_loop,
  purge, remove, new_worker_queue,
}
use skygear_server.Zmq.Queue.Invariant.{
  Absent, IsDistinct, IsValid, Part, done, skip, Part-refl, Part-All, Part-IsDistinct,
  Part-IsOrdered, without, without-Part, without-Absent, others-Part, pop_last-Part,
  IsDistinct-concat, IsOrdered-concat,
}

pub new_worker_queue-IsValid : (bound : ℕ) → IsValid bound new_worker_queue
unfolding new_worker_queue
new_worker_queue-IsValid bound = record {
  distinct = tt;
  registered = tt;
  ordered = tt;
  bounded = tt;
}

-- Dropping workers and keeping the addresses.
Part-IsValid :
    (bound : ℕ) (q : WorkerQueue) {workers : List Pworker}
    → Part workers q.pworkers
    → IsValid bound q
    → IsValid bound (record q { pworkers = workers })
Part-IsValid bound q p h = record {
  distinct = Part-IsDistinct p h.distinct;
  registered = Part-All (λ w. is_registered w.address q ≡ true) p h.registered;
  ordered = Part-IsOrdered p h.ordered;
  bounded = Part-All (λ w. w.expiry ≤ bound) p h.bounded;
}

next_of-Part : (workers : List Pworker) → Part (next_of workers).1 workers
unfolding next_of
next_of-Part [] = done
next_of-Part (w ∷ workers) = pop_last-Part w workers

pub next-IsValid : (bound : ℕ) (q : WorkerQueue) → IsValid bound q → IsValid bound (next q).1
unfolding next
next-IsValid bound q h = Part-IsValid bound q (next_of-Part q.pworkers) h

pub borrow-IsValid :
    (bound : ℕ) (address : String) (q : WorkerQueue)
    → IsValid bound q
    → IsValid bound (borrow address q).1
unfolding borrow
borrow-IsValid bound address q h =
    elim (Bool-cases (nat_eq (length (others address q.pworkers)) (length q.pworkers))) [
      | inl e ↦ rw e h
      | inr e ↦ rw e (Part-IsValid bound q (others-Part address q.pworkers) h)
    ]

-- The bound may grow.
pub IsValid-mono : (a b : ℕ) (q : WorkerQueue) → a ≤ b → IsValid a q → IsValid b q
IsValid-mono a b q le h = record {
  distinct = h.distinct;
  registered = h.registered;
  ordered = h.ordered;
  bounded =
      All-map (λ w. w.expiry ≤ a) (λ w. w.expiry ≤ b) (λ w k. omega arith) q.pworkers h.bounded;
}

-- A tick whose expiry is the latest so far keeps the queue valid.
pub tick-IsValid :
    (bound : ℕ) (worker : Pworker) (q : WorkerQueue)
    → bound ≤ worker.expiry
    → IsValid bound q
    → IsValid worker.expiry (tick worker q).1
unfolding tick
tick-IsValid bound worker q le h = elim (Bool-cases (is_registered worker.address q)) [
  | inr e ↦ rw e (IsValid-mono bound worker.expiry q le h)
  | inl e ↦ rw e (ticked e)
]
  where
    rest : List Pworker
    rest = without worker.address q.pworkers

    part : Part rest q.pworkers
    part = without-Part worker.address q.pworkers

    late : All (λ v. v.expiry ≤ worker.expiry) rest
    late =
        Part-All (λ v. v.expiry ≤ worker.expiry) part
          ((IsValid-mono bound worker.expiry q le h).bounded)

    ticked :
        is_registered worker.address q ≡ true
        → IsValid worker.expiry (record q { pworkers = rest ++ worker ∷ [] })
    ticked e = record {
      distinct =
          IsDistinct-concat rest worker (Part-IsDistinct part h.distinct)
            (without-Absent worker.address q.pworkers h.distinct);
      registered =
          All-append (λ w. is_registered w.address q ≡ true) rest (worker ∷ [])
            (Part-All (λ w. is_registered w.address q ≡ true) part h.registered) (e, tt);
      ordered = IsOrdered-concat rest worker (Part-IsOrdered part h.ordered) late;
      bounded =
          All-append (λ v. v.expiry ≤ worker.expiry) rest (worker ∷ []) late (omega arith, tt);
    }

registered_insert :
    (a b : String) (q : WorkerQueue)
    → is_registered a q ≡ true
    → is_registered a (record q { addresses = Dict.insert b true q.addresses }) ≡ true
registered_insert a b q h = ground (arith, lookup-insert b a true q.addresses)

pub add-IsValid :
    (bound : ℕ) (worker : Pworker) (q : WorkerQueue)
    → bound ≤ worker.expiry
    → IsValid bound q
    → IsValid worker.expiry (add worker q)
unfolding add
add-IsValid bound worker q le h =
    tick-IsValid bound worker (record q { addresses = Dict.insert worker.address true q.addresses })
      le
      (record {
        distinct = h.distinct;
        registered =
            All-map (λ w. is_registered w.address q ≡ true) _
              (λ w. registered_insert w.address worker.address q) q.pworkers h.registered;
        ordered = h.ordered;
        bounded = h.bounded;
      })

-- Deleting an address keeps the workers of other addresses registered.
has-delete :
    (address : String) (workers : List Pworker) (m : Dict Bool)
    → Absent address workers
    → All (λ w. has w.address m ≡ true) workers
    → All (λ w. has w.address (Dict.delete address m) ≡ true) workers
has-delete address [] m a h = tt
has-delete address (w ∷ workers) m a h = (
  ground (
    arith,
    lookup-delete address w.address m,
    eq_iff address w.address,
    eq_iff w.address address,
  ),
  has-delete address workers m a.1 h.1,
)

pub remove-IsValid :
    (bound : ℕ) (address : String) (q : WorkerQueue)
    → IsValid bound q
    → IsValid bound (remove address q)
unfolding remove
remove-IsValid bound address q h =
    let rest = without address q.pworkers in
    let part : Part rest q.pworkers = without-Part address q.pworkers in
    record {
      distinct = Part-IsDistinct part h.distinct;
      registered =
          has-delete address rest q.addresses (without-Absent address q.pworkers h.distinct)
            (Part-All (λ w. has w.address q.addresses ≡ true) part h.registered);
      ordered = Part-IsOrdered part h.ordered;
      bounded = Part-All (λ w. w.expiry ≤ bound) part h.bounded;
    }

purge_loop-Part :
    (now : ℕ) (workers : List Pworker) (m : Dict Bool) → Part (purge_loop now workers m).0 workers
unfolding purge_loop
purge_loop-Part now [] m = done
purge_loop-Part now (w ∷ workers) m = elim (Bool-cases (ltb now w.expiry)) [
  | inl e ↦ rw e (Part-refl (w ∷ workers))
  | inr e ↦ rw e (skip w (purge_loop-Part now workers (Dict.delete w.address m)))
]

purge_loop_registered :
    (now : ℕ) (workers : List Pworker) (m : Dict Bool)
    → IsDistinct workers
    → All (λ w. has w.address m ≡ true) workers
    → All (λ w. has w.address (purge_loop now workers m).1 ≡ true) (purge_loop now workers m).0
unfolding purge_loop
purge_loop_registered now [] m d h = tt
purge_loop_registered now (w ∷ workers) m d h = elim (Bool-cases (ltb now w.expiry)) [
  | inl e ↦ rw e h
  | inr e ↦ rw e (
      purge_loop_registered now workers (Dict.delete w.address m) d.1
        (has-delete w.address workers m d.0 h.1))
]

pub purge-IsValid :
    (bound now : ℕ) (q : WorkerQueue) → IsValid bound q → IsValid bound (purge now q)
unfolding purge
purge-IsValid bound now q h =
    let part : Part (purge_loop now q.pworkers q.addresses).0 q.pworkers =
      purge_loop-Part now q.pworkers q.addresses in
    record {
      distinct = Part-IsDistinct part h.distinct;
      registered = purge_loop_registered now q.pworkers q.addresses h.distinct h.registered;
      ordered = Part-IsOrdered part h.ordered;
      bounded = Part-All (λ w. w.expiry ≤ bound) part h.bounded;
    }
