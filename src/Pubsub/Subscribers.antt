-- ===== src/Pubsub/Subscribers.antt =====
-- The subscribers of a channel of pkg/server/pubsub/hub.go, as a set of connections.
use skygear_server.Common.{
  ℕ, suc, String, ◌≡◌, refl, not, ◌&&◌, List, [], ◌∷◌, ◌++◌, ◌==◌, eq_iff, nat_eq, if◌then◌else◌,
  arith,
}
use skygear_server.Common.Dict
use skygear_server.Common.Dict.{lookup-insert}
use skygear_server.Pubsub.{
  Connection, Hub, subscribers, is_existing, subscribe, drop_connection, unsubscribe,
}

-- How often a connection stands in a list.
abbrev pub count : Connection → List Connection → ℕ
count c [] = 0
count c (d ∷ list) = if nat_eq d c then suc (count c list) else count c list

-- A subscribed connection, by how often it stands in its channel's list.
abbrev pub subscriptions : String → Connection → Hub → ℕ
subscriptions channel c h = count c (subscribers channel h)

subscribers-insert :
    (channel k : String) (list : List Connection) (h : Hub)
    → subscribers k (record { subscription = Dict.insert channel list h.subscription })
      ≡ (if channel == k then list else subscribers k h)
subscribers-insert channel k list h = ground (arith, lookup-insert channel k list h.subscription)

is_existing_lem :
    (c : Connection) (list : List Connection) → is_existing c list ≡ not (nat_eq (count c list) 0)
unfolding is_existing
is_existing_lem c [] = refl
is_existing_lem c (d ∷ list) = ground (arith, is_existing_lem c list)

count-concat :
    (c d : Connection) (list : List Connection)
    → count c (list ++ d ∷ []) ≡ (if nat_eq d c then suc (count c list) else count c list)
count-concat c d [] = refl
count-concat c d (e ∷ list) = ground (arith, count-concat c d list)

count-drop_connection :
    (c d : Connection) (list : List Connection)
    → count c (drop_connection d list) ≡ (if nat_eq d c then 0 else count c list)
unfolding drop_connection
count-drop_connection c d [] = ground arith
count-drop_connection c d (e ∷ list) = ground (arith, count-drop_connection c d list)

-- Subscribing adds the connection to its channel once if it is not there, and changes no other
-- subscription.
pub subscriptions-subscribe :
    (channel k : String) (d c : Connection) (h : Hub)
    → subscriptions k c (subscribe channel d h) ≡ (
        if channel == k && (nat_eq d c && nat_eq (subscriptions k c h) 0)
        then 1
        else subscriptions k c h)
unfolding subscribe
subscriptions-subscribe channel k d c h = ground (
  arith,
  is_existing_lem d (subscribers channel h),
  eq_iff channel k,
  subscribers-insert channel k (subscribers channel h ++ (d ∷ [])) h,
  count-concat c d (subscribers channel h),
)

-- Unsubscribing removes the connection from its channel, however often it stood there, and changes no
-- other subscription.
pub subscriptions-unsubscribe :
    (channel k : String) (d c : Connection) (h : Hub)
    → subscriptions k c (unsubscribe channel d h)
      ≡ (if channel == k && nat_eq d c then 0 else subscriptions k c h)
unfolding unsubscribe
subscriptions-unsubscribe channel k d c h = ground (
  arith,
  eq_iff channel k,
  subscribers-insert channel k (drop_connection d (subscribers channel h)) h,
  count-drop_connection c d (subscribers channel h),
)
