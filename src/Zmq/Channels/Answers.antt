-- ===== src/Zmq/Channels/Answers.antt =====
-- How often the channeler of pkg/server/plugin/zmq/broker.go answers a parcel.
use skygear_server.Common.{
  ℕ, zero, suc, ◌+◌, ◌≤◌, String, ◌≡◌, some, List, [], ◌∷◌, nat_eq, ◌==◌, if◌then◌else◌, arith,
  Option-cases, Bool-cases, inl, inr,
}
use skygear_server.Common.Dict
use skygear_server.Common.Dict.{Dict}
use skygear_server.Zmq.Channels.{
  Parcel, Answer, MessageType, request, response, unknown, Channels, Received, send, take_nth,
  request_to_channel_key, choose_address, dispatch, retry_later, receive_request, receive_response,
  receive, send_zmq_frames_to_channel, send_channel_parcel_to_zmq, handle_timeout, Event, rpc,
  again, frontend, timeout, served, receive_again, step, run,
}

-- Whether the parcel has the channel, as a number.
abbrev pub has_chan : ℕ → Parcel → ℕ
has_chan c p = if nat_eq p.resp_chan c then 1 else 0

abbrev pub in_map : ℕ → Dict Parcel → ℕ
in_map c [] = 0
in_map c ((k, p) ∷ m) = has_chan c p + in_map c m

abbrev pub in_list : ℕ → List Parcel → ℕ
in_list c [] = 0
in_list c (p ∷ ps) = has_chan c p + in_list c ps

-- How often an answer was sent on the channel.
abbrev pub answers : ℕ → List (ℕ × Answer) → ℕ
answers c [] = 0
answers c ((d, a) ∷ sent) = (if nat_eq d c then 1 else 0) + answers c sent

-- The parcels with the channel that wait for a worker or for its answer.
abbrev pub waiting : ℕ → Channels → ℕ
waiting c s = in_map c s.parcel_chan + in_list c s.retrying

-- How often a parcel with the channel was received from an RPC.
abbrev pub entered : ℕ → Event → ℕ
entered c (rpc generated p) = has_chan c p
entered c (again generated n) = 0
entered c (frontend now chan r) = 0
entered c (timeout key) = 0
entered c (served now f) = 0

abbrev pub all_entered : ℕ → List Event → ℕ
all_entered c [] = 0
all_entered c (e ∷ events) = entered c e + all_entered c events

in_map-insert :
    (c : ℕ) (k : String) (p : Parcel) (m : Dict Parcel)
    → in_map c (Dict.insert k p m) ≤ has_chan c p + in_map c m
unfolding Dict.insert
in_map-insert c k p [] = omega arith
in_map-insert c k p ((j, q) ∷ m) = ground (arith, in_map-insert c k p m)

in_map-delete : (c : ℕ) (k : String) (m : Dict Parcel) → in_map c (Dict.delete k m) ≤ in_map c m
unfolding Dict.delete
in_map-delete c k [] = omega arith
in_map-delete c k ((j, q) ∷ m) = ground (arith, in_map-delete c k m)

-- Deleting an entry gives up its parcel.
in_map-delete_found :
    (c : ℕ) (k : String) (m : Dict Parcel) (p : Parcel)
    → Dict.lookup k m ≡ some p
    → has_chan c p + in_map c (Dict.delete k m) ≤ in_map c m
unfolding Dict.delete Dict.lookup
in_map-delete_found c k [] p h = absurd (cc)
in_map-delete_found c k ((j, q) ∷ m) p h = elim (Bool-cases (j == k)) [
  | inl e ↦ ground (arith, e, h, in_map-delete c k m)
  | inr e ↦ ground (arith, e, h, in_map-delete_found c k m p)
]

in_list-take_nth :
    (c n : ℕ) (ps : List Parcel) (p : Parcel) (rest : List Parcel)
    → take_nth n ps ≡ some (p, rest)
    → in_list c ps ≡ has_chan c p + in_list c rest
unfolding take_nth
in_list-take_nth c n [] p rest h = absurd (ground arith)
in_list-take_nth c zero (q ∷ ps) p rest h = ground (arith, h)
in_list-take_nth c (suc n) (q ∷ ps) p rest h = elim (Option-cases (take_nth n ps)) [
  | inl e ↦ absurd (ground (arith, h, e))
  | inr ((p', rest'), e) ↦ ground (arith, h, e, in_list-take_nth c n ps p' rest' e)
]

-- Everything that is known of the channel.
abbrev pub total : ℕ → Channels → ℕ
total c s = answers c s.answered + waiting c s

total-retry_later :
    (c : ℕ) (p : Parcel) (s : Channels) → total c (retry_later p s) ≤ has_chan c p + total c s
unfolding retry_later send
total-retry_later c p s = ground arith

module _ (name : String) (max_bounce : ℕ) (itoa : ℕ → String) (c : ℕ) where
  total-dispatch :
      (address request_id : String) (p : Parcel) (s : Channels)
      → total c (dispatch name max_bounce itoa address request_id p s) ≤ has_chan c p + total c s
  unfolding dispatch
  total-dispatch address request_id p s = omega (
    arith,
    in_map-insert c (request_to_channel_key name max_bounce itoa request_id p.bounce_count)
        (record p { workers = Dict.insert name address p.workers }) s.parcel_chan,
  )

  total-send_channel_parcel_to_zmq :
      (generated : String) (p : Parcel) (s : Channels)
      → total c (send_channel_parcel_to_zmq name max_bounce itoa generated p s)
        ≤ has_chan c p + total c s
  unfolding send_channel_parcel_to_zmq send
  total-send_channel_parcel_to_zmq generated p s =
      let (address, q) = choose_address name max_bounce itoa p s.queue in
      let s' = record s { queue = q } in
      ground (
        arith,
        total-retry_later c p s',
        total-dispatch address (if p.request_id == "" then generated else p.request_id) p s',
      )

  total-receive_response :
      (now bounce_count : ℕ) (r : Received) (s : Channels)
      → total c (receive_response name max_bounce itoa now bounce_count r s) ≤ total c s
  unfolding receive_response send
  total-receive_response now bounce_count r s =
      let key = request_to_channel_key name max_bounce itoa r.request_id bounce_count in
      elim (Option-cases (Dict.lookup key s.parcel_chan)) [
        | inl e ↦ ground (arith, e)
        | inr (p, e) ↦ ground (arith, e, in_map-delete_found c key s.parcel_chan p e)
      ]

  total-receive :
      (now chan : ℕ) (t : MessageType) (bounce_count : ℕ) (r : Received) (s : Channels)
      → total c (receive name max_bounce itoa now chan t bounce_count r s) ≤ total c s
  unfolding receive receive_request
  total-receive now chan request bounce_count r s = omega arith
  total-receive now chan response bounce_count r s = total-receive_response now bounce_count r s
  total-receive now chan unknown bounce_count r s = omega arith

  total-handle_timeout : (key : String) (s : Channels) → total c (handle_timeout key s) ≤ total c s
  unfolding handle_timeout send
  total-handle_timeout key s = elim (Option-cases (Dict.lookup key s.parcel_chan)) [
    | inl e ↦ ground (arith, e)
    | inr (p, e) ↦ ground (arith, e, in_map-delete_found c key s.parcel_chan p e)
  ]

  total-receive_again :
      (generated : String) (n : ℕ) (s : Channels)
      → total c (receive_again name max_bounce itoa generated (take_nth n s.retrying) s) ≤ total c s
  unfolding receive_again
  total-receive_again generated n s = elim (Option-cases (take_nth n s.retrying)) [
    | inl e ↦ ground (arith, e)
    | inr ((p, rest), e) ↦ ground (
      arith,
      e,
      in_list-take_nth c n s.retrying p rest e,
      total-send_channel_parcel_to_zmq generated p (record s { retrying = rest }),
    )
  ]

  total-frames :
      (now chan : ℕ) (r : Received) (s : Channels)
      → total c (send_zmq_frames_to_channel name max_bounce itoa now chan r s) ≤ total c s
  unfolding send_zmq_frames_to_channel
  total-frames now chan r s = elim (Option-cases r.bounce_count) [
    | inl e ↦ ground (arith, e)
    | inr (b, e) ↦ ground (arith, e, total-receive now chan r.message_type b r s)
  ]

  total-step :
      (e : Event) (s : Channels) → total c (step name max_bounce itoa e s) ≤ entered c e + total c s
  unfolding step
  total-step (rpc generated p) s = total-send_channel_parcel_to_zmq generated p s
  total-step (again generated n) s = omega (arith, total-receive_again generated n s)
  total-step (frontend now chan r) s = omega (arith, total-frames now chan r s)
  total-step (timeout key) s = omega (arith, total-handle_timeout key s)
  total-step (served now f) s = omega arith

  total-run :
      (events : List Event) (s : Channels)
      → total c (run name max_bounce itoa events s) ≤ all_entered c events + total c s
  unfolding run
  total-run [] s = omega arith
  total-run (e ∷ events) s =
      omega (arith, total-step e s, total-run events (step name max_bounce itoa e s))

  -- Whatever the workers, the timeouts and the server send, and in whatever order: the answers that were
  -- sent on a channel, together with the parcels of the channel that still wait, are no more than the
  -- parcels of the channel that were received from an RPC, if the channeler began with none.
  pub answers-le-entered :
      (events : List Event) (s : Channels)
      → total c s ≡ 0
      → answers c (run name max_bounce itoa events s).answered
          + waiting c (run name max_bounce itoa events s)
        ≤ all_entered c events
  answers-le-entered events s h = omega (arith, total-run events s)
