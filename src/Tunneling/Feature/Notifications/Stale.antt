-- ===== src/Tunneling/Feature/Notifications/Stale.antt =====
-- Notifications after a stop.
use aws_iot_device_client.Base.{
  ℕ, ◌+◌, ◌^◌, ◌≤◌, ◌<◌, ◌≡◌, refl, Bool, true, false, List, [], ◌∷◌, Option, none, some, length,
  arith,
}
use aws_iot_device_client.Base.Int.{ℤ}
use aws_iot_device_client.Tunneling.Context.{Context}
use aws_iot_device_client.Tunneling.Feature.{
  Feature, u64, start, stop, run_secure_tunneling, on_connection_resumed, subscription_failed,
  on_subscribe_complete, request_subscription_recovery_retry, retry_subscription_recovery,
}
use aws_iot_device_client.Tunneling.Feature.Machine.{
  Pending, subscribing, subscribed, retry_wanted, retry_scheduled, running, Machine, Event, started,
  stopped, resumed, acted, act, pick, act_on, step, run,
}
use aws_iot_device_client.Tunneling.Feature.Notifications.{admit, is_current, add_context}

-- The generations only grow, as long as there is room in their 64 bits.
abbrev Grows : Feature → Feature → Type 0
Grows f h =
    (h.connection_recovery_generation ≤ f.connection_recovery_generation + 1)
    × (h.feature_lifecycle_generation ≤ f.feature_lifecycle_generation + 1)
    × (f.feature_lifecycle_generation ≤ h.feature_lifecycle_generation)
    × (f.oldest_valid_subscription_generation ≤ h.oldest_valid_subscription_generation)
    × (h.oldest_valid_subscription_generation ≤ h.connection_recovery_generation)

abbrev Room : Feature → ℕ → Type 0
Room f n =
    (f.oldest_valid_subscription_generation ≤ f.connection_recovery_generation)
    × (f.connection_recovery_generation + n < 2 ^ 64)
    × (f.feature_lifecycle_generation + n < 2 ^ 64)

u64-small : (n : ℕ) → n < 2 ^ 64 → u64 n ≡ n
u64-small n h = omega arith

act-Grows :
    (p : Pending) (queued : Bool) (io_err : ℤ) (f : Feature)
    → Room f 1
    → Grows f (act p queued io_err f).0
unfolding act subscription_failed on_subscribe_complete request_subscription_recovery_retry
    retry_subscription_recovery run_secure_tunneling
act-Grows (subscribing r g) true io_err f room = ground (arith, room)
act-Grows (subscribing r g) false io_err f room = ground (arith, room)
act-Grows (subscribed r g) queued io_err f room = ground (arith, room)
act-Grows (retry_wanted g) queued io_err f room = ground (arith, room)
act-Grows (retry_scheduled g) queued io_err f room =
    ground (arith, room, u64-small (f.connection_recovery_generation + 1))
act-Grows running queued io_err f room = ground (arith, room)

act_on-Grows :
    (o : Option (Pending × List Pending)) (queued : Bool) (io_err : ℤ) (m : Machine)
    → Room m.feature 1
    → Grows m.feature (act_on o queued io_err m).feature
act_on-Grows none queued io_err m room = ground (arith, room)
act_on-Grows (some (p, ps)) queued io_err m room = act-Grows p queued io_err m.feature room

step-Grows : (e : Event) (m : Machine) → Room m.feature 1 → Grows m.feature (step e m).feature
unfolding step start stop on_connection_resumed
step-Grows started m room =
    ground (arith, room, u64-small (m.feature.connection_recovery_generation + 1))
step-Grows stopped m room = ground (
  arith,
  room,
  u64-small (m.feature.connection_recovery_generation + 1),
  u64-small (m.feature.feature_lifecycle_generation + 1),
)
step-Grows (resumed session_present) m room =
    ground (arith, room, u64-small (m.feature.connection_recovery_generation + 1))
step-Grows (acted n queued io_err) m room = act_on-Grows (pick n m.pending) queued io_err m room

run-Grows :
    (es : List Event) (m : Machine)
    → Room m.feature (length es)
    → (m.feature.feature_lifecycle_generation ≤ (run es m).feature.feature_lifecycle_generation)
      × (m.feature.oldest_valid_subscription_generation
          ≤ (run es m).feature.oldest_valid_subscription_generation)
unfolding run
run-Grows [] m room = ground (arith, room)
run-Grows (e ∷ es) m room =
    let now = step-Grows e m (ground (arith, room)) in
    let later = run-Grows es (step e m) (ground (arith, room, now)) in ground (arith, now, later)

admit-stale :
    (generation : ℕ) (f : Feature)
    → generation < f.oldest_valid_subscription_generation
    → admit generation f ≡ none
unfolding admit
admit-stale generation f h = ground (arith, h)

not-current :
    (lifecycle : ℕ) (f : Feature)
    → lifecycle < f.feature_lifecycle_generation
    → is_current lifecycle f ≡ false
not-current lifecycle f h = ground (arith, h)

add-stale :
    (lifecycle address : ℕ) (context : Context) (f : Feature)
    → lifecycle < f.feature_lifecycle_generation
    → add_context lifecycle address context f ≡ (f, false)
unfolding add_context
add-stale lifecycle address context f h = let e = not-current lifecycle f h in rw e refl

stopped_generations :
    (m : Machine) (n : ℕ)
    → m.feature.connection_recovery_generation + n + 1 < 2 ^ 64
    → m.feature.feature_lifecycle_generation + n + 1 < 2 ^ 64
    → let f = (step stopped m).feature in
      (f.connection_recovery_generation ≡ m.feature.connection_recovery_generation + 1)
      × (f.oldest_valid_subscription_generation ≡ m.feature.connection_recovery_generation + 1)
      × (f.feature_lifecycle_generation ≡ m.feature.feature_lifecycle_generation + 1)
unfolding step stop
stopped_generations m n room live = ground (
  arith,
  u64-small (m.feature.connection_recovery_generation + 1),
  u64-small (m.feature.feature_lifecycle_generation + 1),
)

-- Once the feature is stopped, whatever comes next, and be it a start, as long as the generations
-- fit their 64 bits: a notification of a subscription from before the stop is ignored, and one
-- that was let in before the stop adds no tunnel to the list.
pub stale_ignored :
    (m : Machine) (es : List Event) (generation address : ℕ) (context : Context)
    → m.feature.connection_recovery_generation + length es + 1 < 2 ^ 64
    → m.feature.feature_lifecycle_generation + length es + 1 < 2 ^ 64
    → generation ≤ m.feature.connection_recovery_generation
    → let f = (run es (step stopped m)).feature in
      (admit generation f ≡ none)
      × (add_context m.feature.feature_lifecycle_generation address context f ≡ (f, false))
stale_ignored m es generation address context room live old =
    let n = step stopped m in
    let (rec, oldest, live_now) = stopped_generations m (length es) room live in
    let (live_later, oldest_later) =
      run-Grows es n (ground (arith, rec, oldest, live_now, room, live)) in
    (
      admit-stale generation (run es n).feature (omega (arith, old, oldest, oldest_later)),
      add-stale m.feature.feature_lifecycle_generation address context (run es n).feature
          (omega (arith, live_now, live_later)),
    )
