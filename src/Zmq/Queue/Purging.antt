-- ===== src/Zmq/Queue/Purging.antt =====
-- What `Purge` of pkg/server/plugin/zmq/broker.go drops: it stops at the first worker that has not expired.
use skygear_server.Common.{
  ℕ, ◌≤◌, ◌<◌, String, ◌≡◌, refl, Bool, false, not, ◌&&◌, List, [], ◌∷◌, ◌==◌, arith, All, ltb,
  select, any,
}
use skygear_server.Common.Dict
use skygear_server.Common.Dict.{Dict, lookup-delete}
use skygear_server.Zmq.Queue.{Pworker, WorkerQueue, has, is_registered, purge_loop, purge}
use skygear_server.Zmq.Queue.Invariant.{IsOrdered, IsValid}

-- The worker is connected at the time `now`.
abbrev pub is_alive : ℕ → Pworker → Bool
is_alive now w = ltb now w.expiry

-- An expired worker of the queue has the address.
abbrev pub has_expired : ℕ → String → List Pworker → Bool
has_expired now address workers = any (λ w. w.address == address && not (is_alive now w)) workers

select_alive :
    (now expiry : ℕ) (workers : List Pworker)
    → now < expiry
    → All (λ v. expiry ≤ v.expiry) workers
    → select (is_alive now) workers ≡ workers
select_alive now expiry [] lt h = refl
select_alive now expiry (w ∷ workers) lt h = ground (arith, select_alive now expiry workers)

none_expired :
    (now expiry : ℕ) (address : String) (workers : List Pworker)
    → now < expiry
    → All (λ v. expiry ≤ v.expiry) workers
    → has_expired now address workers ≡ false
none_expired now expiry address [] lt h = refl
none_expired now expiry address (w ∷ workers) lt h =
    ground (arith, none_expired now expiry address workers)

purge_loop-workers :
    (now : ℕ) (workers : List Pworker) (m : Dict Bool)
    → IsOrdered workers
    → (purge_loop now workers m).0 ≡ select (is_alive now) workers
unfolding purge_loop
purge_loop-workers now [] m o = refl
purge_loop-workers now (w ∷ workers) m o = ground (
  arith,
  select_alive now w.expiry workers,
  purge_loop-workers now workers (Dict.delete w.address m),
)

purge_loop-has :
    (now : ℕ) (address : String) (workers : List Pworker) (m : Dict Bool)
    → IsOrdered workers
    → has address (purge_loop now workers m).1
      ≡ (has address m && not (has_expired now address workers))
unfolding purge_loop
purge_loop-has now address [] m o = ground arith
purge_loop-has now address (w ∷ workers) m o = ground (
  arith,
  none_expired now w.expiry address workers,
  lookup-delete w.address address m,
  purge_loop-has now address workers (Dict.delete w.address m),
)

-- In a valid queue `Purge` keeps exactly the workers that have not expired, in their order, and
-- unregisters exactly the addresses of those that have.
pub purge_lem :
    (bound now : ℕ) (q : WorkerQueue) (address : String)
    → IsValid bound q
    → ((purge now q).pworkers ≡ select (is_alive now) q.pworkers)
      × (is_registered address (purge now q)
          ≡ (is_registered address q && not (has_expired now address q.pworkers)))
unfolding purge
purge_lem bound now q address h = (
  purge_loop-workers now q.pworkers q.addresses h.ordered,
  purge_loop-has now address q.pworkers q.addresses h.ordered,
)
