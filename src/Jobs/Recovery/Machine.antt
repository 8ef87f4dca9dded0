-- ===== src/Jobs/Recovery/Machine.antt =====
-- The recovery of the Jobs subscriptions as a machine that the MQTT client's callbacks, the timer
-- threads and the threads of `start` and `stop` drive, one critical section at a time.
-- `subscriptionLifecycleLock` is held while `resubscribing` is not empty: it orders
-- onConnectionResumed, retrySubscriptionRecovery, the end of runJobs and the locked part of stop,
-- and leaves the acknowledgements free to arrive between two subscription requests. What a section
-- decides is carried out with it here, before anything else happens; Threads takes the two apart.
use aws_iot_device_client.Base.{ℕ, Bool, List, [], ◌∷◌, ◌++◌}
use aws_iot_device_client.Base.Int.{ℤ}
use aws_iot_device_client.Jobs.Recovery.{
  Recovery, Subscription, Effect, publish_start_next, initial, Next, return, poll, resubscribe,
  all_subscriptions, on_connection_resumed, complete_recovery_subscription,
  retry_subscription_recovery, subscribe_one, finish_startup, request_stop, stop_locked,
}

pub record Machine : Type 0 where
  pub recovery : Recovery
  pub resubscribing : List Subscription
  pub resubscribe_generation : ℕ

pub data Event : Type 0 where
  connection_resumed : Bool → Event
  subscribed : Bool → Event
  acknowledged : ℕ → Subscription → ℤ → Event
  retry_due : ℕ → Event
  startup_finished : Bool → Event
  stop_requested : Event
  stop_reached : Event

unfoldable pub proceed : List Subscription → ℕ → Recovery × Next → Machine × List Effect
proceed subs g (s, return) =
    (record { recovery = s; resubscribing = subs; resubscribe_generation = g }, [])
proceed subs g (s, poll) = (
  record { recovery = s; resubscribing = subs; resubscribe_generation = g },
  publish_start_next ∷ [],
)
proceed subs g (s, resubscribe h) =
    (record { recovery = s; resubscribing = all_subscriptions; resubscribe_generation = h }, [])

-- One block of resubscribeAfterSessionLoss; the lock is given up after the last.
unfoldable pub advance : List Subscription → Bool → Machine → Machine × List Effect
advance [] queued m = (m, [])
advance (sub ∷ subs) queued m =
    let (s, effects) = subscribe_one (λ _. queued) m.resubscribe_generation sub m.recovery in
    (record m { recovery = s; resubscribing = subs }, effects)

-- A critical section that wants the lifecycle lock does not run while a resubscription holds it.
unfoldable pub locked : List Subscription → Machine → Recovery × Next → Machine × List Effect
locked [] m r = proceed [] m.resubscribe_generation r
locked (sub ∷ subs) m r = (m, [])

unfoldable pub step : Event → Machine → Machine × List Effect
step (connection_resumed session_present) m =
    locked m.resubscribing m (on_connection_resumed session_present m.recovery)
step (subscribed queued) m = advance m.resubscribing queued m
step (acknowledged g sub io_error) m =
    let (s, effects) = complete_recovery_subscription g sub io_error m.recovery in
    (record m { recovery = s }, effects)
step (retry_due g) m = locked m.resubscribing m (retry_subscription_recovery g m.recovery)
step (startup_finished ready) m = locked m.resubscribing m (finish_startup ready m.recovery)
step stop_requested m = (record m { recovery = request_stop m.recovery }, [])
step stop_reached m = locked m.resubscribing m (stop_locked m.recovery, return)

unfoldable pub run : List Event → Machine → Machine × List Effect
run [] m = (m, [])
run (e ∷ es) m = let (n, first) = step e m in let (o, rest) = run es n in (o, first ++ rest)

unfoldable pub start : Machine
start = record { recovery = initial; resubscribing = []; resubscribe_generation = 0 }
