-- ===== src/Zmq/Queue.antt =====
-- pkg/server/plugin/zmq/broker.go, lines 538-681: `workerQueue`. Times are numbers of nanoseconds, and the
-- reading of the clock is an argument. The mutex is not modelled: each operation is one step.
pub mod Invariant
pub mod Keeps
pub mod Purging
pub mod Turns
use skygear_server.Common.{
  ℕ, ◌+◌, ◌*◌, String, Bool, true, false, not, Option, none, some, List, [], ◌∷◌, ◌++◌, ◌==◌,
  if◌then◌else◌, ltb, nat_eq, length, select,
}
use skygear_server.Common.Dict
use skygear_server.Common.Dict.{Dict}

abbrev pub heartbeat_interval : ℕ
heartbeat_interval = 1_000_000_000

abbrev pub heartbeat_liveness : ℕ
heartbeat_liveness = 3

pub record Pworker : Type 0 where
  pub address : String
  pub expiry : ℕ

unfoldable pub new_worker : ℕ → String → Pworker
new_worker now address = record {
  address = address;
  expiry = now + heartbeat_liveness * heartbeat_interval;
}

pub record WorkerQueue : Type 0 where
  pub pworkers : List Pworker
  pub addresses : Dict Bool

unfoldable pub new_worker_queue : WorkerQueue
new_worker_queue = record { pworkers = []; addresses = [] }

unfoldable pub len : WorkerQueue → ℕ
len q = length q.pworkers

-- The last worker and the ones before it.
pub pop_last : Pworker → List Pworker → String × List Pworker
pop_last w [] = (w.address, [])
pop_last w (v ∷ workers) = let (address, rest) = pop_last v workers in (address, w ∷ rest)

next_of : List Pworker → String × List Pworker
unfolding pop_last
next_of [] = ("", [])
next_of (w ∷ workers) = pop_last w workers

unfoldable pub next : WorkerQueue → String × WorkerQueue
unfolding next_of
next q = let (address, rest) = next_of q.pworkers in (address, record q { pworkers = rest })

-- `append(workers[:i], workers[i+1:]...)` at the first worker of the address, if there is one.
pub take_out : String → List Pworker → Option (List Pworker)
take_out address [] = none
take_out address (w ∷ workers) =
    let rest = take_out address workers in
    if w.address == address
    then some workers
    else elim rest [ none ↦ none | some others ↦ some (w ∷ others) ]

abbrev pub or_same : List Pworker → Option (List Pworker) → List Pworker
or_same workers none = workers
or_same workers (some others) = others

-- `_, ok := m[address]`
abbrev pub has : String → Dict Bool → Bool
has address m = elim (Dict.lookup address m) [ none ↦ false | some b ↦ true ]

abbrev pub is_registered : String → WorkerQueue → Bool
is_registered address q = has address q.addresses

-- The result is whether `Tick` returned no error.
unfoldable pub tick : Pworker → WorkerQueue → Bool × WorkerQueue
unfolding take_out
tick worker q =
    if is_registered worker.address q
    then (
      true,
      record q {
        pworkers = or_same q.pworkers (take_out worker.address q.pworkers) ++ (worker ∷ []);
      },
    )
    else (false, q)

unfoldable pub add : Pworker → WorkerQueue → WorkerQueue
unfolding tick
add worker q =
    (tick worker (record q { addresses = Dict.insert worker.address true q.addresses })).1

-- The loop of `Borrow`.
pub others : String → List Pworker → List Pworker
others address [] = []
others address (w ∷ workers) =
    let rest = others address workers in if w.address == address then rest else w ∷ rest

-- The result is whether `Borrow` returned no error.
unfoldable pub borrow : String → WorkerQueue → Bool × WorkerQueue
unfolding others
borrow address q =
    let workers = others address q.pworkers in
    if nat_eq (length workers) (length q.pworkers)
    then (false, q)
    else (true, record q { pworkers = workers })

-- The loop of `Purge`.
pub purge_loop : ℕ → List Pworker → Dict Bool → List Pworker × Dict Bool
purge_loop now [] addresses = ([], addresses)
purge_loop now (w ∷ workers) addresses =
    let rest = purge_loop now workers (Dict.delete w.address addresses) in
    if ltb now w.expiry then (w ∷ workers, addresses) else rest

unfoldable pub purge : ℕ → WorkerQueue → WorkerQueue
unfolding purge_loop
purge now q =
    let (workers, addresses) = purge_loop now q.pworkers q.addresses in
    record { pworkers = workers; addresses = addresses }

unfoldable pub remove : String → WorkerQueue → WorkerQueue
unfolding take_out
remove address q = record {
  pworkers = or_same q.pworkers (take_out address q.pworkers);
  addresses = Dict.delete address q.addresses;
}
