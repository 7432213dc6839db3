-- ===== src/Tests/Channels.antt =====
-- The channeler, at concrete parcels and messages.
use skygear_server.Common.{ℕ, ◌+◌, ◌*◌, ◌≤◌, String, refl, some, List, [], ◌∷◌}
use skygear_server.Zmq.Queue.{new_worker_queue}
use skygear_server.Zmq.Channels.{
  Channels, Parcel, Received, Event, rpc, again, frontend, timeout, response, rpc_parcel, run,
}
use skygear_server.Zmq.Channels.Answers.{answers, waiting, all_entered, answers-le-entered}
use skygear_server.Zmq.Channels.Retries.{AreBounded, run-AreBounded}
use skygear_server.Zmq.Channels.Ending.{budget, receptions, receptions-le-budget}

abbrev idle : Channels
idle = record {
  queue = new_worker_queue;
  parcel_chan = [];
  retrying = [];
  pushed = [];
  answered = [];
  requests = [];
}

abbrev itoa : ℕ → String
itoa n = "0"

-- A parcel for the worker "a", and one for no worker in particular.
abbrev first_parcel : Parcel
first_parcel = rpc_parcel 1 "in" (("plugin", "a") ∷ []) "r" 0

abbrev second_parcel : Parcel
second_parcel = rpc_parcel 2 "in" [] "" 0

abbrev answer_of_worker : Received
answer_of_worker = record {
  address = "a";
  message_type = response;
  bounce_count = some 0;
  request_id = "r";
  body = "out";
}

abbrev messages : List Event
messages =
    rpc "x" first_parcel
    ∷ rpc "y" second_parcel
    ∷ frontend 5 9 answer_of_worker
    ∷ timeout "r-0"
    ∷ again "z" 0
    ∷ []

answers-le-entered_example :
    answers 1 (run "plugin" 3 itoa messages idle).answered
      + waiting 1 (run "plugin" 3 itoa messages idle)
    ≤ all_entered 1 messages
answers-le-entered_example = answers-le-entered "plugin" 3 itoa 1 messages idle refl

run-AreBounded_example : AreBounded (run "plugin" 3 itoa messages idle)
run-AreBounded_example =
    run-AreBounded "plugin" 3 itoa messages idle (refl, (refl, (tt, (tt, (tt, tt))))) tt

receptions-le-budget_example :
    receptions "plugin" 3 itoa messages idle + budget (run "plugin" 3 itoa messages idle).retrying
    ≤ 0 + 3 * 2
receptions-le-budget_example =
    receptions-le-budget "plugin" 3 itoa messages idle (refl, (refl, (tt, (tt, (tt, tt))))) tt
