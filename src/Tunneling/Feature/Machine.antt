-- ===== src/Tunneling/Feature/Machine.antt =====
-- The threads and callbacks that subscribe to the tunnel notifications, one critical section at a
-- time. They may come in any order, which includes the orders that `mSubscriptionLifecycleLock`
-- lets through.
use aws_iot_device_client.Base.{
  ℕ, zero, suc, Bool, true, false, List, [], ◌∷◌, ◌++◌, Option, none, some, Text, if◌then◌else◌,
}
use aws_iot_device_client.Base.Int.{ℤ}
use aws_iot_device_client.Tunneling.Feature.{
  Feature, new_feature, start, stop, run_secure_tunneling, on_connection_resumed,
  subscription_failed, on_subscribe_complete, request_subscription_recovery_retry,
  retry_subscription_recovery,
}

-- What a thread, the MQTT client or a timer is about to do.
pub data Pending : Type 0 where
  subscribing : Bool → ℕ → Pending  -- to call SubscribeToTunnelsNotify
  subscribed : Bool → ℕ → Pending  -- to call OnSubscribeComplete
  retry_wanted : ℕ → Pending  -- to call requestSubscriptionRecoveryRetry
  retry_scheduled : ℕ → Pending  -- to call retrySubscriptionRecovery
  running : Pending  -- to call RunSecureTunneling

pub record Machine : Type 0 where
  pub feature : Feature
  pub pending : List Pending

pub data Event : Type 0 where
  started stopped : Event
  resumed : Bool → Event
  -- The pending action of this index, with whether a request is queued and the result of it.
  acted : ℕ → Bool → ℤ → Event

abbrev pub recovering : Option ℕ → List Pending
recovering none = []
recovering (some g) = subscribing true g ∷ []

abbrev pub retry : ℕ → Bool → List Pending
retry g true = retry_wanted g ∷ []
retry g false = []

-- What one action does: the feature, and what is pending of it.
unfoldable pub act : Pending → Bool → ℤ → Feature → Feature × List Pending
act (subscribing is_recovery g) true io_err f = (f, subscribed is_recovery g ∷ [])
act (subscribing is_recovery g) false io_err f =
    let (h, wanted) = subscription_failed g f in (h, retry g wanted)
act (subscribed is_recovery g) queued io_err f =
    let (h, wanted) = on_subscribe_complete io_err is_recovery g f in (h, retry g wanted)
act (retry_wanted g) queued io_err f =
    (f, if request_subscription_recovery_retry g f then retry_scheduled g ∷ [] else [])
act (retry_scheduled g) queued io_err f =
    let (h, again) = retry_subscription_recovery g f in (h, recovering again)
act running queued io_err f = let (h, g) = run_secure_tunneling f in (h, subscribing false g ∷ [])

abbrev pub queue : List Pending → Feature × List Pending → Machine
queue pending (f, more) = record { feature = f; pending = more ++ pending }

-- The pending action of an index, and the others.
abbrev pub pick : ℕ → List Pending → Option (Pending × List Pending)
pick n [] = none
pick zero (p ∷ ps) = some (p, ps)
pick (suc n) (p ∷ ps) = elim (pick n ps) [ none ↦ none | some (q, qs) ↦ some (q, p ∷ qs) ]

abbrev pub act_on : Option (Pending × List Pending) → Bool → ℤ → Machine → Machine
act_on none queued io_err m = m
act_on (some (p, ps)) queued io_err m = queue ps (act p queued io_err m.feature)

unfoldable pub step : Event → Machine → Machine
step started m = queue m.pending (start m.feature, running ∷ [])
step stopped m = queue m.pending (stop m.feature, [])
step (resumed session_present) m =
    let (f, again) = on_connection_resumed session_present m.feature in
    queue m.pending (f, recovering again)
step (acted n queued io_err) m = act_on (pick n m.pending) queued io_err m

unfoldable pub run : List Event → Machine → Machine
run [] m = m
run (e ∷ es) m = run es (step e m)

unfoldable pub initial : Option Text → Machine
initial endpoint = record { feature = new_feature endpoint; pending = [] }
