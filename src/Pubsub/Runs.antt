-- ===== src/Pubsub/Runs.antt =====
-- Runs of the hub of pkg/server/pubsub/hub.go against a specification with no lists: who is subscribed is
-- decided by the latest message about the channel and the connection.
use skygear_server.Common.{
  ℕ, suc, String, ◌≡◌, Bool, true, false, not, ◌&&◌, ◌||◌, none, List, [], ◌∷◌, ◌==◌, eq_iff,
  nat_eq, if◌then◌else◌, arith, map,
}
use skygear_server.Pubsub.{
  Connection, Hub, Message, Attempt, subscribe_to, unsubscribe_from, broadcast, stop, subscribers,
  subscribe, unsubscribe, publish, run,
}
use skygear_server.Pubsub.Subscribers.{
  count, subscriptions, subscriptions-subscribe, subscriptions-unsubscribe,
}

-- The specification: a set of subscriptions, as 0 or 1.
abbrev pub one : Bool → ℕ
one true = 1
one false = 0

abbrev pub spec_step : String → Connection → Message → Bool → Bool
spec_step k c (subscribe_to channel d) b = (channel == k && nat_eq d c) || b
spec_step k c (unsubscribe_from channel d) b = not (channel == k && nat_eq d c) && b
spec_step k c (broadcast channel payload) b = b
spec_step k c stop b = b

abbrev pub spec_run : String → Connection → List Message → Bool → Bool
spec_run k c [] b = b
spec_run k c (stop ∷ messages) b = b
spec_run k c (m ∷ messages) b = spec_run k c messages (spec_step k c m b)

-- A hub that has, for each channel and connection, the one or no subscription of the specification.
abbrev pub Implements : (String → Connection → Bool) → Hub → Type 0
Implements spec h = (k : String) (c : Connection) → subscriptions k c h ≡ one (spec k c)

-- If a hub has one subscription for each channel and connection where the specification has one and
-- none elsewhere, then so it has after a run of messages, for the specification run on the same
-- messages.
pub run-Implements :
    (messages : List Message) (spec : String → Connection → Bool) (h : Hub)
    → Implements spec h
    → Implements (λ k c. spec_run k c messages (spec k c)) (run messages h).0
unfolding run
run-Implements [] spec h i = i
run-Implements (subscribe_to channel d ∷ messages) spec h i =
    run-Implements messages (λ k c. spec_step k c (subscribe_to channel d) (spec k c))
      (subscribe channel d h)
      (λ k c. ground (arith, i k c, subscriptions-subscribe channel k d c h))
run-Implements (unsubscribe_from channel d ∷ messages) spec h i =
    run-Implements messages (λ k c. spec_step k c (unsubscribe_from channel d) (spec k c))
      (unsubscribe channel d h)
      (λ k c. ground (arith, i k c, subscriptions-unsubscribe channel k d c h))
run-Implements (broadcast channel payload ∷ messages) spec h i = run-Implements messages spec h i
run-Implements (stop ∷ messages) spec h i = i

-- The attempts that reach a connection with a payload on a channel.
abbrev pub deliveries : String → Connection → List Attempt → ℕ
deliveries k c [] = 0
deliveries k c (a ∷ attempts) =
    let rest = deliveries k c attempts in
    if a.parcel.channel == k && nat_eq a.receiver c then suc rest else rest

deliveries-map :
    (channel payload k : String) (c : Connection) (list : List Connection)
    → deliveries k c (
        map
          (λ d. record {
            receiver = d;
            parcel = record { channel = channel; payload = payload; connection = none };
          })
          list)
      ≡ (if channel == k then count c list else 0)
deliveries-map channel payload k c [] = ground arith
deliveries-map channel payload k c (d ∷ list) =
    ground (arith, deliveries-map channel payload k c list)

-- If a hub has one subscription where the specification has one and none elsewhere, then a broadcast
-- is sent once to each connection that is subscribed to its channel, and nowhere else.
pub deliveries-publish :
    (spec : String → Connection → Bool) (h : Hub) (channel payload k : String) (c : Connection)
    → Implements spec h
    → deliveries k c (publish channel payload h) ≡ (if channel == k then one (spec k c) else 0)
unfolding publish
deliveries-publish spec h channel payload k c i =
    ground
      (arith, deliveries-map channel payload k c (subscribers channel h), eq_iff channel k, i k c)
