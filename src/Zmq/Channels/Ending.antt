-- ===== src/Zmq/Channels/Ending.antt =====
-- Trying parcels again comes to an end in the channeler of pkg/server/plugin/zmq/broker.go.
use skygear_server.Common.{
  ℕ, zero, suc, ◌+◌, ◌-◌, ◌*◌, ◌≤◌, String, ◌≡◌, none, some, List, [], ◌∷◌, ltb, ◌==◌, Option,
  arith, Option-cases, inl, inr, All, if_elim, ap,
}
use skygear_server.Zmq.Queue.{heartbeat_liveness}
use skygear_server.Zmq.Channels.{
  Parcel, Channels, take_nth, choose_address, dispatch, retry_later, send,
  send_channel_parcel_to_zmq, Event, rpc, again, frontend, timeout, served, receive_again, step,
  run,
}
use skygear_server.Zmq.Channels.Retries.{
  AreBounded, IsFresh, IsBounded-take_nth, frames-retrying, timeout-retrying, step-AreBounded,
}

-- How often the parcels that wait can still be received again.
abbrev pub budget : List Parcel → ℕ
budget [] = 0
budget (p ∷ ps) = (heartbeat_liveness + 1 - p.retry) + budget ps

abbrev taken : Option (Parcel × List Parcel) → ℕ
taken none = 0
taken (some x) = 1

-- Whether a parcel that waited is received, as a number.
abbrev pub received : Event → Channels → ℕ
received (rpc generated p) s = 0
received (again generated n) s = taken (take_nth n s.retrying)
received (frontend now chan r) s = 0
received (timeout key) s = 0
received (served now f) s = 0

abbrev pub is_rpc : Event → ℕ
is_rpc (rpc generated p) = 1
is_rpc (again generated n) = 0
is_rpc (frontend now chan r) = 0
is_rpc (timeout key) = 0
is_rpc (served now f) = 0

abbrev pub rpcs : List Event → ℕ
rpcs [] = 0
rpcs (e ∷ events) = is_rpc e + rpcs events

budget-take_nth :
    (n : ℕ) (ps : List Parcel) (p : Parcel) (rest : List Parcel)
    → take_nth n ps ≡ some (p, rest)
    → budget ps ≡ (heartbeat_liveness + 1 - p.retry) + budget rest
unfolding take_nth
budget-take_nth n [] p rest h = absurd (ground arith)
budget-take_nth zero (q ∷ ps) p rest h = ground (arith, h)
budget-take_nth (suc n) (q ∷ ps) p rest h = elim (Option-cases (take_nth n ps)) [
  | inl e ↦ absurd (ground (arith, h, e))
  | inr ((p', rest'), e) ↦ ground (arith, h, e, budget-take_nth n ps p' rest' e)
]

retry_later-budget :
    (p : Parcel) (s : Channels)
    → budget (retry_later p s).retrying ≤ (heartbeat_liveness - p.retry) + budget s.retrying
unfolding retry_later send
retry_later-budget p s = ground arith

module _ (name : String) (max_bounce : ℕ) (itoa : ℕ → String) where
  -- How many parcels that waited are received in a run.
  abbrev pub receptions : List Event → Channels → ℕ
  receptions [] s = 0
  receptions (e ∷ events) s = received e s + receptions events (step name max_bounce itoa e s)

  send_channel_parcel_to_zmq-budget :
      (generated : String) (p : Parcel) (s : Channels)
      → budget (send_channel_parcel_to_zmq name max_bounce itoa generated p s).retrying
        ≤ (heartbeat_liveness - p.retry) + budget s.retrying
  unfolding send_channel_parcel_to_zmq dispatch send
  send_channel_parcel_to_zmq-budget generated p s =
      let (address, q) = choose_address name max_bounce itoa p s.queue in
      let Q =
        λ (x : Channels). budget x.retrying ≤ (heartbeat_liveness - p.retry) + budget s.retrying in
      if_elim Q (ltb max_bounce p.bounce_count) (omega arith)
        (if_elim Q (address == "") (retry_later-budget p (record s { queue = q })) (omega arith))

  again-budget :
      (generated : String) (n : ℕ) (s : Channels)
      → AreBounded s
      → taken (take_nth n s.retrying)
          + budget (receive_again name max_bounce itoa generated (take_nth n s.retrying) s).retrying
        ≤ budget s.retrying
  unfolding receive_again
  again-budget generated n s h = elim (Option-cases (take_nth n s.retrying)) [
    | inl e ↦ ground (arith, e)
    | inr ((p, rest), e) ↦
        let bounded = (IsBounded-take_nth n s.retrying p rest h e).0 in
        ground (
          arith,
          e,
          bounded,
          budget-take_nth n s.retrying p rest e,
          send_channel_parcel_to_zmq-budget generated p (record s { retrying = rest }),
        )
  ]

  step-budget :
      (e : Event) (s : Channels)
      → IsFresh e
      → AreBounded s
      → received e s + budget (step name max_bounce itoa e s).retrying
        ≤ budget s.retrying + heartbeat_liveness * is_rpc e
  unfolding step
  step-budget (rpc generated p) s f h =
      omega (arith, send_channel_parcel_to_zmq-budget generated p s)
  step-budget (again generated n) s f h = omega (arith, again-budget generated n s h)
  step-budget (frontend now chan r) s f h =
      omega (arith, ap budget (frames-retrying name max_bounce itoa now chan r s))
  step-budget (timeout key) s f h = omega (arith, ap budget (timeout-retrying key s))
  step-budget (served now f) s g h = omega arith

  -- If the parcels of RPCs have not been tried and none that waits was tried more than three times, then in
  -- any sequence of messages, in whatever order, parcels that waited are received again at most three
  -- times for each RPC, plus, for each parcel that waited at the start, four times less the times it was
  -- tried; the receptions that the parcels waiting at the end may still have are within this bound too. So
  -- trying parcels again ends, whether or not there is ever a worker.
  pub receptions-le-budget :
      (events : List Event) (s : Channels)
      → All IsFresh events
      → AreBounded s
      → receptions events s + budget (run name max_bounce itoa events s).retrying
        ≤ budget s.retrying + heartbeat_liveness * rpcs events
  unfolding run
  receptions-le-budget [] s f h = omega arith
  receptions-le-budget (e ∷ events) s (f, fs) h = omega (
    arith,
    step-budget e s f h,
    receptions-le-budget events (step name max_bounce itoa e s) fs
        (step-AreBounded name max_bounce itoa e s f h),
  )
