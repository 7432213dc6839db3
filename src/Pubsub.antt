-- ===== src/Pubsub.antt =====
-- pkg/server/pubsub/hub.go: the hub of the publish-subscribe server. A `*connection` is the number that
-- identifies it. `run` takes one message at a time from its channels, so a run is a list of messages.
pub mod Subscribers
pub mod Runs
use skygear_server.Common.{
  ℕ, String, Bool, true, false, not, Option, none, some, List, [], ◌∷◌, ◌++◌, nat_eq, if◌then◌else◌,
  map,
}
use skygear_server.Common.Dict
use skygear_server.Common.Dict.{Dict}

abbrev pub Connection : Type 0
Connection = ℕ

pub record Parcel : Type 0 where
  pub channel : String
  pub payload : String  -- `Data`
  pub connection : Option Connection

-- The field `subscription`; the channels, the timeout and the unused field `channels` hold no state.
pub record Hub : Type 0 where
  pub subscription : Dict (List Connection)

unfoldable pub new_hub : Hub
new_hub = record { subscription = [] }

-- `h.subscription[channel]`
abbrev pub subscribers : String → Hub → List Connection
subscribers channel h = elim (Dict.lookup channel h.subscription) [ none ↦ [] | some l ↦ l ]

-- The loop of `subscribe`: whether the connection is there already.
pub is_existing : Connection → List Connection → Bool
is_existing c [] = false
is_existing c (existing ∷ rest) = if nat_eq existing c then true else is_existing c rest

unfoldable pub subscribe : String → Connection → Hub → Hub
unfolding is_existing
subscribe channel c h = if is_existing c (subscribers channel h) then h else record {
  subscription = Dict.insert channel (subscribers channel h ++ (c ∷ [])) h.subscription;
}

-- The loop of `unsubscribe`.
pub drop_connection : Connection → List Connection → List Connection
drop_connection c [] = []
drop_connection c (conn ∷ rest) =
    let others = drop_connection c rest in if nat_eq conn c then others else conn ∷ others

unfoldable pub unsubscribe : String → Connection → Hub → Hub
unfolding drop_connection
unsubscribe channel c h = record {
  subscription = Dict.insert channel (drop_connection c (subscribers channel h)) h.subscription;
}

-- An attempt of `publish` to send the parcel to a connection, in a goroutine of its own, which ends when
-- the connection takes the parcel or after the timeout.
pub record Attempt : Type 0 where
  pub receiver : Connection
  pub parcel : Parcel

unfoldable pub publish : String → String → Hub → List Attempt
publish channel payload h =
    map
      (λ c. record {
        receiver = c;
        parcel = record { channel = channel; payload = payload; connection = none };
      })
      (subscribers channel h)

-- What arrives on the channels that `run` selects from.
pub data Message : Type 0 where
  subscribe_to unsubscribe_from : String → Connection → Message
  broadcast : String → String → Message
  stop : Message

-- The loop of `run`, with the attempts that it starts.
pub run : List Message → Hub → Hub × List Attempt
run [] h = (h, [])
run (subscribe_to channel c ∷ messages) h = run messages (subscribe channel c h)
run (unsubscribe_from channel c ∷ messages) h = run messages (unsubscribe channel c h)
run (broadcast channel payload ∷ messages) h =
    let (h', attempts) = run messages h in (h', publish channel payload h ++ attempts)
run (stop ∷ messages) h = (h, [])
