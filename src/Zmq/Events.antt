-- ===== src/Zmq/Events.antt =====
-- pkg/server/plugin/zmq/broker.go: the messages by which workers join, report and leave (lines 301-318 and
-- 523-536), and the uses of the queue by the channeler, as a sequence of events with times.
use skygear_server.Common.{ℕ, ◌+◌, ◌≤◌, String, List, [], ◌∷◌, arith}
use skygear_server.Zmq.Queue.{
  WorkerQueue, new_worker, new_worker_queue, next, tick, add, borrow, purge, remove,
}
use skygear_server.Zmq.Queue.Invariant.{IsValid}
use skygear_server.Zmq.Queue.Keeps.{
  new_worker_queue-IsValid, next-IsValid, borrow-IsValid, tick-IsValid, add-IsValid, remove-IsValid,
  purge-IsValid, IsValid-mono,
}

-- The bytes \001, \002 and \003 of the protocol, by their names.
pub data WorkerStatus : Type 0 where
  ready heartbeat shutdown : WorkerStatus
  other : String → WorkerStatus

unfoldable pub handle_worker_status : ℕ → String → WorkerStatus → WorkerQueue → WorkerQueue
handle_worker_status now address ready q = add (new_worker now address) q
handle_worker_status now address heartbeat q = q
handle_worker_status now address shutdown q = remove address q
handle_worker_status now address (other status) q = q

-- One round of `Run` that receives a message of one frame from a worker.
unfoldable pub run_status : ℕ → String → WorkerStatus → WorkerQueue → WorkerQueue
unfolding handle_worker_status
run_status now address status q =
    purge now (handle_worker_status now address status (tick (new_worker now address) q).1)

-- What happens to the queue: a round of `Run` with a status or with none, a job that takes the next worker,
-- a request from a worker that marks it as occupied, and the end of a job.
pub data Event : Type 0 where
  status : String → WorkerStatus → Event
  idle : Event
  job : Event
  request : String → Event
  finished : String → Event

unfoldable pub step : ℕ → Event → WorkerQueue → WorkerQueue
unfolding run_status
step now (status address s) q = run_status now address s q
step now idle q = purge now q
step now job q = (next q).1
step now (request address) q = (borrow address q).1
step now (finished address) q = (tick (new_worker now address) q).1

pub run : List (ℕ × Event) → WorkerQueue → WorkerQueue
run [] q = q
run ((now, e) ∷ events) q = run events (step now e q)

-- The clock does not go back.
abbrev pub IsChronological : ℕ → List (ℕ × Event) → Type 0
IsChronological t [] = Unit
IsChronological t ((now, e) ∷ events) = (t ≤ now) × IsChronological now events

-- The time of the last event.
abbrev pub last_time : ℕ → List (ℕ × Event) → ℕ
last_time t [] = t
last_time t ((now, e) ∷ events) = last_time now events

abbrev pub latest_expiry : ℕ → ℕ
latest_expiry now = now + 3_000_000_000

expiry_bound :
    (t now : ℕ) (address : String) → t ≤ now → latest_expiry t ≤ (new_worker now address).expiry
unfolding new_worker
expiry_bound t now address h = omega arith

module _ (t now : ℕ) (h : t ≤ now) where
  tick_now :
      (address : String) (q : WorkerQueue)
      → IsValid (latest_expiry t) q
      → IsValid (latest_expiry now) (tick (new_worker now address) q).1
  unfolding new_worker
  tick_now address q v =
      tick-IsValid (latest_expiry t) (new_worker now address) q (expiry_bound t now address h) v

  later : (q : WorkerQueue) → IsValid (latest_expiry t) q → IsValid (latest_expiry now) q
  later q v = IsValid-mono (latest_expiry t) (latest_expiry now) q (omega arith) v

add_now :
    (now : ℕ) (address : String) (q : WorkerQueue)
    → IsValid (latest_expiry now) q
    → IsValid (latest_expiry now) (add (new_worker now address) q)
unfolding new_worker
add_now now address q v = add-IsValid (latest_expiry now) (new_worker now address) q (omega arith) v

handle_worker_status-IsValid :
    (now : ℕ) (address : String) (s : WorkerStatus) (q : WorkerQueue)
    → IsValid (latest_expiry now) q
    → IsValid (latest_expiry now) (handle_worker_status now address s q)
unfolding handle_worker_status
handle_worker_status-IsValid now address ready q v = add_now now address q v
handle_worker_status-IsValid now address heartbeat q v = v
handle_worker_status-IsValid now address shutdown q v =
    remove-IsValid (latest_expiry now) address q v
handle_worker_status-IsValid now address (other s) q v = v

step-IsValid :
    (t now : ℕ) (e : Event) (q : WorkerQueue)
    → t ≤ now
    → IsValid (latest_expiry t) q
    → IsValid (latest_expiry now) (step now e q)
unfolding step
step-IsValid t now (status address s) q h v = purge-IsValid (latest_expiry now) now _ (
    handle_worker_status-IsValid now address s (tick (new_worker now address) q).1
      (tick_now t now h address q v))
step-IsValid t now idle q h v = purge-IsValid (latest_expiry now) now q (later t now h q v)
step-IsValid t now job q h v = next-IsValid (latest_expiry now) q (later t now h q v)
step-IsValid t now (request address) q h v =
    borrow-IsValid (latest_expiry now) address q (later t now h q v)
step-IsValid t now (finished address) q h v = tick_now t now h address q v

-- Whatever workers and jobs do, while the clock does not go back, the queue stays valid: no worker stands
-- in it twice, each of its workers is registered, they stand in the order of their expiry, and none
-- expires later than three heartbeats after the last event.
pub run-IsValid :
    (t : ℕ) (events : List (ℕ × Event)) (q : WorkerQueue)
    → IsChronological t events
    → IsValid (latest_expiry t) q
    → IsValid (latest_expiry (last_time t events)) (run events q)
unfolding run
run-IsValid t [] q c v = v
run-IsValid t ((now, e) ∷ events) q c v =
    run-IsValid now events (step now e q) c.1 (step-IsValid t now e q c.0 v)

-- From the empty queue with which the broker starts, whatever workers and jobs do while the clock does
-- not go back, the queue is valid: no worker stands in it twice, each of its workers is registered,
-- they stand in the order of their expiry, and none expires later than three heartbeat intervals after
-- the last event.
pub run_from_new-IsValid :
    (t : ℕ) (events : List (ℕ × Event))
    → IsChronological t events
    → IsValid (latest_expiry (last_time t events)) (run events new_worker_queue)
run_from_new-IsValid t events c =
    run-IsValid t events new_worker_queue c (new_worker_queue-IsValid (latest_expiry t))
