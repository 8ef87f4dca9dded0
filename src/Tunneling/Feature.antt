-- ===== src/Tunneling/Feature.antt =====
-- tunneling/SecureTunnelingFeature.cpp: the feature, its subscription to the tunnel notifications
-- and its list of tunnels. Each function is one critical section of `mConnectionRecoveryLock`, or
-- a call that takes none.
pub mod Notifications
pub mod Machine
pub mod Recovery
use aws_iot_device_client.Base.{
  ℕ, ◌+◌, ◌%◌, ◌^◌, Bool, true, false, not, ◌&&◌, ◌||◌, List, [], ◌∷◌, ◌++◌, Option, none, some,
  Text, text, take, is_empty, if◌then◌else◌, text_eq, ltb, leb, ◌==◌,
}
use aws_iot_device_client.Base.Int.{ℤ, is_zero}
use aws_iot_device_client.Tunneling.Context.{Context, new_context}

pub record Feature : Type 0 where
  pub subscribe_notification : Bool
  pub started : Bool
  pub client : Bool  -- whether iotSecureTunnelingClient is set
  pub connection_recovery_generation : ℕ  -- a uint64_t, as are the next two
  pub oldest_valid_subscription_generation : ℕ
  pub feature_lifecycle_generation : ℕ
  pub subscription_needs_recovery : Bool
  pub endpoint : Option Text
  pub contexts : List (ℕ × Context)  -- mContexts, each context with its address

abbrev pub u64 : ℕ → ℕ
u64 n = n % 2 ^ 64

-- A feature that waits for notifications, after init.
unfoldable pub new_feature : Option Text → Feature
new_feature endpoint = record {
  subscribe_notification = true;
  started = false;
  client = false;
  connection_recovery_generation = 0;
  oldest_valid_subscription_generation = 0;
  feature_lifecycle_generation = 0;
  subscription_needs_recovery = false;
  endpoint = endpoint;
  contexts = [];
}

-- The critical section of start.
unfoldable pub start : Feature → Feature
start f =
    let g = u64 (f.connection_recovery_generation + 1) in
    record f {
      started = true;
      subscription_needs_recovery = false;
      connection_recovery_generation = g;
      oldest_valid_subscription_generation = g;
    }

-- The critical section of stop; the tunnels of the list are then stopped.
unfoldable pub stop : Feature → Feature
stop f =
    let g = u64 (f.connection_recovery_generation + 1) in
    record f {
      started = false;
      subscription_needs_recovery = false;
      connection_recovery_generation = g;
      oldest_valid_subscription_generation = g;
      feature_lifecycle_generation = u64 (f.feature_lifecycle_generation + 1);
    }

-- The critical section of RunSecureTunneling, where notifications are on: the generation with
-- which it subscribes.
unfoldable pub run_secure_tunneling : Feature → Feature × ℕ
run_secure_tunneling f = (record f { client = true }, f.connection_recovery_generation)

-- onConnectionResumed: the generation with which it subscribes again, if it does.
unfoldable pub on_connection_resumed : Bool → Feature → Feature × Option ℕ
on_connection_resumed session_present f =
    let needs = not session_present || f.subscription_needs_recovery in
    let g = u64 (f.connection_recovery_generation + 1) in
    let h = record f { connection_recovery_generation = g; subscription_needs_recovery = true } in
    if not f.started || (not f.subscribe_notification || not f.client)
    then (f, none)
    else if not needs
    then (f, none)
    else if not session_present
    then (record h { oldest_valid_subscription_generation = g }, some g)
    else (h, some g)

-- SubscribeToTunnelNotifications where the request is not queued, and OnSubscribeComplete where the
-- first subscription fails: whether requestSubscriptionRecoveryRetry is called.
unfoldable pub subscription_failed : ℕ → Feature → Feature × Bool
subscription_failed generation f =
    if f.started && (generation == f.connection_recovery_generation)
    then (record f { subscription_needs_recovery = true }, true)
    else (f, false)

-- OnSubscribeComplete; whether requestSubscriptionRecoveryRetry is called.
unfoldable pub on_subscribe_complete : ℤ → Bool → ℕ → Feature → Feature × Bool
unfolding subscription_failed
on_subscribe_complete io_err is_recovery generation f =
    if not is_recovery
    then (if is_zero io_err then (f, false) else subscription_failed generation f)
    else if not f.started
        || (not (generation == f.connection_recovery_generation)
            || not f.subscription_needs_recovery)
    then (f, false)
    else if is_zero io_err
    then (record f { subscription_needs_recovery = false }, false)
    else (f, true)

-- The test of requestSubscriptionRecoveryRetry and of retrySubscriptionRecovery.
abbrev pub wants_retry : ℕ → Feature → Bool
wants_retry failed_generation f =
    f.started
    && (f.subscribe_notification
        && (f.client
            && (f.subscription_needs_recovery
                && (failed_generation == f.connection_recovery_generation))))

-- requestSubscriptionRecoveryRetry: whether a retry is scheduled.
unfoldable pub request_subscription_recovery_retry : ℕ → Feature → Bool
request_subscription_recovery_retry failed_generation f = wants_retry failed_generation f

-- retrySubscriptionRecovery: the generation with which it subscribes again, if it does.
unfoldable pub retry_subscription_recovery : ℕ → Feature → Feature × Option ℕ
retry_subscription_recovery failed_generation f =
    let g = u64 (f.connection_recovery_generation + 1) in
    if not (wants_retry failed_generation f)
    then (f, none)
    else (record f { connection_recovery_generation = g }, some g)

-- GetEndpoint.
unfoldable pub get_endpoint : Option Text → Text → Text
get_endpoint (some endpoint) region = endpoint
get_endpoint none region =
    let host = text "data.tunneling.iot." ++ (region ++ text ".amazonaws.com") in
    if text_eq (take 3 region) (text "cn-") then host ++ text ".cn" else host

-- createContext.
abbrev pub create_context : Feature → Text → Text → ℕ → Context
create_context f access_token region port =
    new_context access_token (get_endpoint f.endpoint region) port

-- The search for a context in mContexts and its removal, of OnTunnelStopped and of a connection
-- that fails.
unfoldable pub remove_context : ℕ → List (ℕ × Context) → List (ℕ × Context)
remove_context address [] = []
remove_context address ((a, c) ∷ contexts) =
    let rest = remove_context address contexts in if a == address then contexts else (a, c) ∷ rest

abbrev pub on_tunnel_stopped : ℕ → Feature → Feature
on_tunnel_stopped address f = record f { contexts = remove_context address f.contexts }
