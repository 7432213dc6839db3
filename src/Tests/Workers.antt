-- ===== src/Tests/Workers.antt =====
-- The worker queue and the hub, at concrete workers, jobs and messages.
use skygear_server.Common.{
  ℕ, String, ◌≡◌, refl, Bool, true, false, not, ◌&&◌, List, [], ◌∷◌, arith, if◌then◌else◌, ◌==◌,
  select,
}
use skygear_server.Common.Dict
use skygear_server.Zmq.Queue.{Pworker, WorkerQueue, new_worker_queue, purge, is_registered}
use skygear_server.Zmq.Queue.Invariant.{IsValid}
use skygear_server.Zmq.Queue.Purging.{is_alive, has_expired, purge_lem}
use skygear_server.Zmq.Events.{
  Event, status, job, idle, finished, ready, run, last_time, latest_expiry, run_from_new-IsValid,
}
use skygear_server.Pubsub.{
  Connection, Hub, Message, subscribe_to, unsubscribe_from, broadcast, new_hub, publish,
}
use skygear_server.Pubsub
use skygear_server.Pubsub.Runs.{
  Implements, spec_run, one, deliveries, run-Implements, deliveries-publish,
}

abbrev first_worker : Pworker
first_worker = record { address = "a"; expiry = 5 }

abbrev second_worker : Pworker
second_worker = record { address = "b"; expiry = 9 }

abbrev two_workers : WorkerQueue
two_workers = record {
  pworkers = first_worker ∷ second_worker ∷ [];
  addresses = ("a", true) ∷ ("b", true) ∷ [];
}

two_workers-IsValid : IsValid 9 two_workers
unfolding Dict.lookup
two_workers-IsValid = record {
  distinct = ((refl, tt), (tt, tt));
  registered = (refl, (refl, tt));
  ordered = ((omega arith, tt), (tt, tt));
  bounded = (omega arith, (omega arith, tt));
}

purge_example :
    ((purge 7 two_workers).pworkers ≡ select (is_alive 7) two_workers.pworkers)
    × (is_registered "a" (purge 7 two_workers)
        ≡ (is_registered "a" two_workers && not (has_expired 7 "a" two_workers.pworkers)))
purge_example = purge_lem 9 7 two_workers "a" two_workers-IsValid

is_registered_first : is_registered first_worker.address two_workers ≡ true
unfolding Dict.lookup
is_registered_first = refl

abbrev events : List (ℕ × Event)
events = (1, status "a" ready) ∷ (2, job) ∷ (3, finished "a") ∷ (9, idle) ∷ []

run_from_new_example : IsValid (latest_expiry (last_time 0 events)) (run events new_worker_queue)
run_from_new_example =
    run_from_new-IsValid 0 events (omega arith, (omega arith, (omega arith, (omega arith, tt))))

abbrev messages : List Message
messages =
    subscribe_to "news" 1
    ∷ subscribe_to "news" 1
    ∷ broadcast "news" "hello"
    ∷ unsubscribe_from "news" 1
    ∷ subscribe_to "news" 2
    ∷ []

abbrev nobody : String → Connection → Bool
nobody k c = false

new_hub-Implements : Implements nobody new_hub
unfolding new_hub Dict.lookup
new_hub-Implements k c = refl

run-Implements_example :
    Implements (λ k c. spec_run k c messages (nobody k c)) (Pubsub.run messages new_hub).0
run-Implements_example = run-Implements messages nobody new_hub new_hub-Implements

abbrev wanted : String → Connection → Bool
wanted k c = spec_run k c messages (nobody k c)

deliveries-publish_example :
    deliveries "news" 2 (publish "news" "hello" (Pubsub.run messages new_hub).0)
    ≡ (if "news" == "news" then one (wanted "news" 2) else 0)
deliveries-publish_example =
    deliveries-publish wanted (Pubsub.run messages new_hub).0 "news" "hello" "news" 2
      (run-Implements messages nobody new_hub new_hub-Implements)
