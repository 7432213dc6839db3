-- ===== src/Zmq/Channels.antt =====
-- pkg/server/plugin/zmq/broker.go, lines 63-83, 126-130 and 354-521: the channeler, which passes parcels to
-- workers and their answers back. A Go channel for an answer is a number; what is sent on it is put on a
-- list. Each branch of the `select` is an event; goroutines that sleep or serve a request are lists of what
-- they hold. `strconv.Itoa` and the generator of identifiers are parameters. The lock of the queue is
-- left out.
pub mod Answers
pub mod Retries
pub mod Ending
use Prim.Native.String.{◌++◌}
use skygear_server.Common.{
  ℕ, zero, suc, ◌+◌, String, Bool, true, false, not, Option, none, some, List, [], ◌∷◌, ltb, nat_eq,
  ◌==◌, if◌then◌else◌,
}
use skygear_server.Common.Dict
use skygear_server.Common.Dict.{Dict}
use skygear_server.Zmq.Queue.{WorkerQueue, heartbeat_liveness, new_worker, next, borrow, tick}

pub record Parcel : Type 0 where
  pub workers : Dict String
  pub bounce_count : ℕ
  pub request_id : String
  pub resp_chan : ℕ
  pub frame : String
  pub retry : ℕ

-- `newParcel`, with a fresh channel.
abbrev pub new_parcel : ℕ → String → Parcel
new_parcel chan frame = record {
  workers = [];
  bounce_count = 0;
  request_id = "";
  resp_chan = chan;
  frame = frame;
  retry = 0;
}

-- The parcel that `RPCWithWorker` sends to the channeler; `RPC` gives no workers and no identifier.
abbrev pub rpc_parcel : ℕ → String → Dict String → String → ℕ → Parcel
rpc_parcel chan frame worker_ids request_id bounce_count = record (new_parcel chan frame) {
  workers = worker_ids;
  bounce_count = bounce_count;
  request_id = request_id;
}

-- What is sent on the channel of a parcel: `[]byte{0}`, `[]byte{1}`, or the message of a worker.
pub data Answer : Type 0 where
  timed_out : Answer
  bounced_too_often : Answer
  message : String → Answer

-- The type of a message with several frames.
pub data MessageType : Type 0 where
  request : MessageType
  response : MessageType
  unknown : MessageType

-- A message for a worker, without its constant frames.
pub record Frames : Type 0 where
  pub address : String
  pub message_type : MessageType
  pub bounce_count : ℕ
  pub request_id : String
  pub body : String

pub record Channels : Type 0 where
  pub queue : WorkerQueue
  pub parcel_chan : Dict Parcel
  -- the parcels that wait for a heartbeat before they are received again
  pub retrying : List Parcel
  -- what was pushed to the workers, the last one first
  pub pushed : List Frames
  -- what was sent on the channels of parcels, the last one first
  pub answered : List (ℕ × Answer)
  -- the requests of workers that are handed to the server, the last one first
  pub requests : List Parcel

-- `p.respChan <- answer`
unfoldable pub send : Parcel → Answer → Channels → Channels
send p answer s = record s { answered = (p.resp_chan, answer) ∷ s.answered }

-- The `n`-th parcel that waits, and the others.
unfoldable pub take_nth : ℕ → List Parcel → Option (Parcel × List Parcel)
take_nth n [] = none
take_nth zero (p ∷ ps) = some (p, ps)
take_nth (suc n) (p ∷ ps) = elim (take_nth n ps) [
  | none ↦ none
  | some (q, rest) ↦ some (q, p ∷ rest)
]

-- The message of a worker, as `sendZMQFramesToChannel` gets it; the bounce count is `none` if it is no
-- number.
pub record Received : Type 0 where
  pub address : String
  pub message_type : MessageType
  pub bounce_count : Option ℕ
  pub request_id : String
  pub body : String

-- What the channeler receives: a parcel of an RPC, a parcel that has waited, a message of a worker, a
-- timeout, and the answer of the server to a worker's request.
pub data Event : Type 0 where
  rpc : String → Parcel → Event
  again : String → ℕ → Event
  frontend : ℕ → ℕ → Received → Event
  timeout : String → Event
  served : ℕ → Frames → Event

-- The end of the goroutine that serves a request, at the time `now`.
abbrev finish_request : ℕ → Frames → Channels → Channels
finish_request now f s = record s {
  pushed = f ∷ s.pushed;
  queue = if nat_eq f.bounce_count 0 then (tick (new_worker now f.address) s.queue).1 else s.queue;
}

-- The branch of `sendChannelParcelToZMQ` that has none.
unfoldable pub retry_later : Parcel → Channels → Channels
unfolding send
retry_later p s =
    if ltb p.retry heartbeat_liveness
    then record s { retrying = record p { retry = p.retry + 1 } ∷ s.retrying }
    else send p timed_out s

-- `case key := <-lb.timeout`
unfoldable pub handle_timeout : String → Channels → Channels
unfolding send
handle_timeout key s = elim (Dict.lookup key s.parcel_chan) [
  | none ↦ s
  | some p ↦ send p timed_out (record s { parcel_chan = Dict.delete key s.parcel_chan })
]

module _ (name : String) (max_bounce : ℕ) (itoa : ℕ → String) where
  abbrev pub request_to_channel_key : String → ℕ → String
  request_to_channel_key request_id bounce_count = request_id ++ ("-" ++ itoa bounce_count)

  -- The address of the worker, and the queue without it if it comes from there.
  unfoldable pub choose_address : Parcel → WorkerQueue → String × WorkerQueue
  choose_address p q = elim (Dict.lookup name p.workers) [
    | some address ↦ (address, q)
    | none ↦ next q
  ]

  -- The branch of `sendChannelParcelToZMQ` that has a worker.
  unfoldable pub dispatch : String → String → Parcel → Channels → Channels
  dispatch address request_id p s =
      let p' = record p { workers = Dict.insert name address p.workers } in
      record s {
        parcel_chan =
            Dict.insert (request_to_channel_key request_id p.bounce_count) p' s.parcel_chan;
        pushed =
            (record {
              address = address;
              message_type = request;
              bounce_count = p.bounce_count;
              request_id = request_id;
              body = p.frame;
            })
            ∷ s.pushed;
      }

  -- `generated` is what `generateRequestID` gives.
  unfoldable pub send_channel_parcel_to_zmq : String → Parcel → Channels → Channels
  unfolding choose_address dispatch retry_later send
  send_channel_parcel_to_zmq generated p s =
      let (address, q) = choose_address p s.queue in
      let s' = record s { queue = q } in
      if ltb max_bounce p.bounce_count
      then send p bounced_too_often s'
      else if address == ""
      then retry_later p s'
      else dispatch address (if p.request_id == "" then generated else p.request_id) p s'

  -- A message of the type `Request`; `chan` is the channel that `newParcel` makes.
  unfoldable pub receive_request : ℕ → ℕ → Received → Channels → Channels
  receive_request chan bounce_count r s = record s {
    queue = if nat_eq bounce_count 0 then (borrow r.address s.queue).1 else s.queue;
    requests =
        record (new_parcel chan r.body) {
          workers = Dict.insert name r.address [];
          bounce_count = bounce_count;
          request_id = r.request_id;
        }
        ∷ s.requests;
  }

  -- A message of the type `Response`, at the time `now`.
  unfoldable pub receive_response : ℕ → ℕ → Received → Channels → Channels
  unfolding send
  receive_response now bounce_count r s =
      let key = request_to_channel_key r.request_id bounce_count in
      elim (Dict.lookup key s.parcel_chan) [
        | none ↦ s
        | some p ↦ send p (message r.body) (record s {
          parcel_chan = Dict.delete key s.parcel_chan;
          queue =
              if nat_eq bounce_count 0
              then (tick (new_worker now r.address) s.queue).1
              else s.queue;
        })
      ]

  receive : ℕ → ℕ → MessageType → ℕ → Received → Channels → Channels
  unfolding receive_request receive_response
  receive now chan request bounce_count r s = receive_request chan bounce_count r s
  receive now chan response bounce_count r s = receive_response now bounce_count r s
  receive now chan unknown bounce_count r s = s

  unfoldable pub send_zmq_frames_to_channel : ℕ → ℕ → Received → Channels → Channels
  unfolding receive
  send_zmq_frames_to_channel now chan r s = elim (r.bounce_count) [
    | none ↦ s
    | some bounce_count ↦ receive now chan r.message_type bounce_count r s
  ]

  -- A parcel that has waited is received again.
  unfoldable pub receive_again : String → Option (Parcel × List Parcel) → Channels → Channels
  unfolding send_channel_parcel_to_zmq
  receive_again generated none s = s
  receive_again generated (some (p, rest)) s =
      send_channel_parcel_to_zmq generated p (record s { retrying = rest })

  unfoldable pub step : Event → Channels → Channels
  unfolding send_channel_parcel_to_zmq receive_again send_zmq_frames_to_channel handle_timeout
  step (rpc generated p) s = send_channel_parcel_to_zmq generated p s
  step (again generated n) s = receive_again generated (take_nth n s.retrying) s
  step (frontend now chan r) s = send_zmq_frames_to_channel now chan r s
  step (timeout key) s = handle_timeout key s
  step (served now f) s = finish_request now f s

  unfoldable pub run : List Event → Channels → Channels
  unfolding step
  run [] s = s
  run (e ∷ events) s = run events (step e s)
