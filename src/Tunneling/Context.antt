-- ===== src/Tunneling/Context.antt =====
-- tunneling/SecureTunnelingContext.cpp: one tunnel. Each function is one critical section of
-- `mLifecycleLock`, and returns with the new state whether its caller goes on.
pub mod Machine
pub mod Stopping
pub mod Forwarding
use aws_iot_device_client.Base.{
  ℕ, Bool, true, false, not, ◌&&◌, ◌||◌, List, [], ◌∷◌, Option, none, some, Text, is_empty,
  if◌then◌else◌, text_eq,
}

-- The fields of the SDK's SecureTunnelingNotifyResponse that the client reads.
pub record NotifyResponse : Type 0 where
  pub client_access_token : Option Text
  pub client_mode : Option Text
  pub region : Option Text
  pub services : Option (List Text)

pub record Context : Type 0 where
  pub access_token : Text
  pub endpoint : Text
  pub port : ℕ
  pub lifetime_keep_alive : Bool  -- whether mLifetimeKeepAlive is set
  pub stop_requested : Bool
  pub connect_in_progress : Bool
  pub stop_queued : Bool
  pub stop_task_scheduled : Bool
  pub stopped : Bool
  pub secure_tunnel : Bool  -- whether mSecureTunnel is set
  pub tcp_forward : Option ℕ  -- mTcpForward, by its address
  pub last_seen_notify_response : Option NotifyResponse

abbrev pub option_eq {ℓ} : {A : Type ℓ} → (A → A → Bool) → Option A → Option A → Bool
option_eq eq none none = true
option_eq eq (some a) (some b) = eq a b
option_eq eq _ _ = false

abbrev pub list_eq {ℓ} : {A : Type ℓ} → (A → A → Bool) → List A → List A → Bool
list_eq eq [] [] = true
list_eq eq (a ∷ s) (b ∷ t) = eq a b && list_eq eq s t
list_eq eq _ _ = false

-- The two operators ==.
abbrev pub response_eq : NotifyResponse → NotifyResponse → Bool
response_eq r q =
    option_eq text_eq r.region q.region
    && (option_eq text_eq r.client_mode q.client_mode
        && (option_eq (list_eq text_eq) r.services q.services
            && option_eq text_eq r.client_access_token q.client_access_token))

unfoldable pub new_context : Text → Text → ℕ → Context
new_context access_token endpoint port = record {
  access_token = access_token;
  endpoint = endpoint;
  port = port;
  lifetime_keep_alive = false;
  stop_requested = false;
  connect_in_progress = false;
  stop_queued = false;
  stop_task_scheduled = false;
  stopped = false;
  secure_tunnel = false;
  tcp_forward = none;
  last_seen_notify_response = none;
}

-- ConnectToSecureTunnel up to the call of Connect; `valid` whether the tunnel could be created.
unfoldable pub begin_connect : Bool → Context → Context × Bool
begin_connect valid c =
    if is_empty c.access_token || (is_empty c.endpoint || (not valid || c.stop_requested))
    then (c, false)
    else (record c { secure_tunnel = true; connect_in_progress = true }, true)

-- ConnectToSecureTunnel after the call of Connect; whether StopSecureTunnel is called then.
unfoldable pub end_connect : Bool → Context → Context × Bool
end_connect success c =
    let d = record c { connect_in_progress = false } in
    if not success
    then (
      if c.stop_requested
          then record d { secure_tunnel = false; stopped = true; lifetime_keep_alive = false }
          else record d { secure_tunnel = false },
      false,
    )
    else (d, c.stop_requested)

abbrev pub is_stop_held : Context → Bool
is_stop_held c =
    c.connect_in_progress
    || (c.stop_queued || (c.stop_task_scheduled || (c.stopped || not c.secure_tunnel)))

-- StopSecureTunnel; whether ScheduleStop is called.
unfoldable pub stop_secure_tunnel : Context → Context × Bool
stop_secure_tunnel c = (
  record c {
    stop_requested = true;
    lifetime_keep_alive = c.lifetime_keep_alive || c.secure_tunnel;
  },
  not (is_stop_held c),
)

-- ScheduleStop; whether ScheduleLifecycleTask is called.
unfoldable pub schedule_stop : Context → Context × Bool
schedule_stop c =
    if is_stop_held c then (c, false) else (record c { stop_task_scheduled = true }, true)

-- QueueStop; whether Close is called.
unfoldable pub queue_stop : Context → Context × Bool
queue_stop c =
    let d = record c { stop_task_scheduled = false } in
    if c.stop_queued || (c.stopped || not c.secure_tunnel)
    then (d, false)
    else (record d { stop_queued = true }, true)

-- OnStopped; whether the owner is told.
unfoldable pub on_stopped : Context → Context × Bool
on_stopped c =
    if c.stopped
    then (c, false)
    else (record c { stopped = true; lifetime_keep_alive = true }, true)

unfoldable pub release_after_stopped : Context → Context
release_after_stopped c = record c {
  tcp_forward = none;
  secure_tunnel = false;
  lifetime_keep_alive = false;
}

-- IsDuplicateNotification.
unfoldable pub is_duplicate_notification : NotifyResponse → Context → Context × Bool
is_duplicate_notification response c = elim c.last_seen_notify_response [
  | none ↦ (record c { last_seen_notify_response = some response }, false)
  | some seen ↦
      if response_eq seen response
      then (c, true)
      else (record c { last_seen_notify_response = some response }, false)
]

-- ConnectToSecureTunnel with nothing in between; what it returns.
unfoldable pub connect_to_secure_tunnel : Bool → Bool → Context → Context × Bool
unfolding begin_connect end_connect
connect_to_secure_tunnel valid success c =
    let (d, begun) = begin_connect valid c in
    let (e, stops) = end_connect success d in if begun then (e, success) else (d, false)
