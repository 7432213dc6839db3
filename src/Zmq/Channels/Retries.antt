-- ===== src/Zmq/Channels/Retries.antt =====
-- How often the channeler of pkg/server/plugin/zmq/broker.go tries a parcel again while there is no worker.
use skygear_server.Common.{
  ℕ, zero, suc, ◌+◌, ◌≤◌, String, ◌≡◌, refl, some, List, [], ◌∷◌, ltb, ◌==◌, ltb→lt, arith,
  Option-cases, Bool-cases, inl, inr, All, if_elim, subst,
}
use skygear_server.Zmq.Queue.{heartbeat_liveness}
use skygear_server.Zmq.Channels.{
  Parcel, timed_out, MessageType, request, response, unknown, Channels, Received, send, take_nth,
  choose_address, dispatch, retry_later, receive_request, receive_response, receive,
  send_zmq_frames_to_channel, send_channel_parcel_to_zmq, handle_timeout, Event, rpc, again,
  frontend, timeout, served, receive_again, step, run,
}

-- The parcel was tried again at most as often as a worker may miss its heartbeat.
abbrev pub IsBounded : Parcel → Type 0
IsBounded p = p.retry ≤ heartbeat_liveness

-- Each parcel that waits to be received again is bounded.
abbrev pub AreBounded : Channels → Type 0
AreBounded s = All IsBounded s.retrying

-- A parcel that an RPC sends has not been tried.
abbrev pub IsFresh : Event → Type 0
IsFresh (rpc generated p) = p.retry ≡ 0
IsFresh (again generated n) = Unit
IsFresh (frontend now chan r) = Unit
IsFresh (timeout key) = Unit
IsFresh (served now f) = Unit

pub IsBounded-take_nth :
    (n : ℕ) (ps : List Parcel) (p : Parcel) (rest : List Parcel)
    → All IsBounded ps
    → take_nth n ps ≡ some (p, rest)
    → IsBounded p × All IsBounded rest
unfolding take_nth
IsBounded-take_nth n [] p rest h e = absurd (ground arith)
IsBounded-take_nth zero (q ∷ ps) p rest (h, k) e =
    (ground (arith, e), subst (All IsBounded) (ground (arith, e)) k)
IsBounded-take_nth (suc n) (q ∷ ps) p rest (h, k) e = elim (Option-cases (take_nth n ps)) [
  | inl x ↦ absurd (ground (arith, e, x))
  | inr ((p', rest'), x) ↦
      let (a, b) = IsBounded-take_nth n ps p' rest' k x in
      let same : q ∷ rest' ≡ rest = ground (arith, e, x) in
      (ground (arith, e, x, a), subst (All IsBounded) same (h, b))
]

retry_later-AreBounded :
    (p : Parcel) (s : Channels) → IsBounded p → AreBounded s → AreBounded (retry_later p s)
unfolding retry_later send
retry_later-AreBounded p s h k = elim (Bool-cases (ltb p.retry heartbeat_liveness)) [
  | inl e ↦
      let later : Channels = record s {
        retrying = record p { retry = p.retry + 1 } ∷ s.retrying;
      } in
      let same : later ≡ retry_later p s = ground (arith, e) in
      subst AreBounded same (omega (arith, ltb→lt p.retry heartbeat_liveness e), k)
  | inr e ↦
      let same : send p timed_out s ≡ retry_later p s = ground (arith, e) in subst AreBounded same k
]

pub timeout-retrying : (key : String) (s : Channels) → s.retrying ≡ (handle_timeout key s).retrying
unfolding handle_timeout send
timeout-retrying key s = ground arith

handle_timeout-AreBounded :
    (key : String) (s : Channels) → AreBounded s → AreBounded (handle_timeout key s)
handle_timeout-AreBounded key s h = subst (All IsBounded) (timeout-retrying key s) h

module _ (name : String) (max_bounce : ℕ) (itoa : ℕ → String) where
  send_channel_parcel_to_zmq-AreBounded :
      (generated : String) (p : Parcel) (s : Channels)
      → IsBounded p
      → AreBounded s
      → AreBounded (send_channel_parcel_to_zmq name max_bounce itoa generated p s)
  unfolding send_channel_parcel_to_zmq retry_later dispatch send
  send_channel_parcel_to_zmq-AreBounded generated p s h k =
      let (address, q) = choose_address name max_bounce itoa p s.queue in
      if_elim AreBounded (ltb max_bounce p.bounce_count) k (
        if_elim AreBounded (address == "") (retry_later-AreBounded p (record s { queue = q }) h k)
          k)

  receive_again-AreBounded :
      (generated : String) (n : ℕ) (s : Channels)
      → AreBounded s
      → AreBounded (receive_again name max_bounce itoa generated (take_nth n s.retrying) s)
  unfolding receive_again
  receive_again-AreBounded generated n s h = elim (Option-cases (take_nth n s.retrying)) [
    | inl e ↦
        let same : s ≡ receive_again name max_bounce itoa generated (take_nth n s.retrying) s =
          ground (arith, e) in
        subst AreBounded same h
    | inr ((p, rest), e) ↦
        let (bounded, others) = IsBounded-take_nth n s.retrying p rest h e in
        let same : send_channel_parcel_to_zmq name max_bounce itoa generated p
              (record s { retrying = rest })
            ≡ receive_again name max_bounce itoa generated (take_nth n s.retrying) s =
          ground (arith, e) in
        subst AreBounded same (
          send_channel_parcel_to_zmq-AreBounded generated p (record s { retrying = rest }) bounded
            others)
  ]

  receive-retrying :
      (now chan : ℕ) (t : MessageType) (bounce_count : ℕ) (r : Received) (s : Channels)
      → s.retrying ≡ (receive name max_bounce itoa now chan t bounce_count r s).retrying
  unfolding receive receive_request receive_response send
  receive-retrying now chan request bounce_count r s = refl
  receive-retrying now chan response bounce_count r s = ground arith
  receive-retrying now chan unknown bounce_count r s = refl

  pub frames-retrying :
      (now chan : ℕ) (r : Received) (s : Channels)
      → s.retrying ≡ (send_zmq_frames_to_channel name max_bounce itoa now chan r s).retrying
  unfolding send_zmq_frames_to_channel
  frames-retrying now chan r s = elim (Option-cases r.bounce_count) [
    | inl e ↦ ground (arith, e)
    | inr (b, e) ↦ ground (arith, e, receive-retrying now chan r.message_type b r s)
  ]

  frames-AreBounded :
      (now chan : ℕ) (r : Received) (s : Channels)
      → AreBounded s
      → AreBounded (send_zmq_frames_to_channel name max_bounce itoa now chan r s)
  frames-AreBounded now chan r s h = subst (All IsBounded) (frames-retrying now chan r s) h

  pub step-AreBounded :
      (e : Event) (s : Channels)
      → IsFresh e
      → AreBounded s
      → AreBounded (step name max_bounce itoa e s)
  unfolding step
  step-AreBounded (rpc generated p) s f h =
      send_channel_parcel_to_zmq-AreBounded generated p s (omega arith) h
  step-AreBounded (again generated n) s f h = receive_again-AreBounded generated n s h
  step-AreBounded (frontend now chan r) s f h = frames-AreBounded now chan r s h
  step-AreBounded (timeout key) s f h = handle_timeout-AreBounded key s h
  step-AreBounded (served now f) s g h = h

  -- If the parcels of RPCs have not been tried, then after any sequence of messages, from no waiting
  -- parcels, no parcel that waits to be received again has been tried more than three times.
  pub run-AreBounded :
      (events : List Event) (s : Channels)
      → All IsFresh events
      → AreBounded s
      → AreBounded (run name max_bounce itoa events s)
  unfolding run
  run-AreBounded [] s f h = h
  run-AreBounded (e ∷ events) s (f, fs) h =
      run-AreBounded events (step name max_bounce itoa e s) fs (step-AreBounded e s f h)
