-- ===== src/Tests/Tunneling.antt =====
-- Runs of the secure tunnels.
use aws_iot_device_client.Base.{
  ◌+◌, ◌≤◌, ◌≡◌, ◌⊎◌, ◌↔◌, refl, true, false, not, ◌&&◌, List, [], ◌∷◌, ◌++◌, map, none, some, text,
  length, any, arith,
}
use aws_iot_device_client.Base.Int.{ℤ, pos}
use aws_iot_device_client.Tunneling.TcpForward.{
  new_forward, connect, queue_write, send_data, flush_send_buffer, read_all, on_readable,
  is_stopping, max_send_buffer_size, got, would_block,
}
use aws_iot_device_client.Tunneling.TcpForward.Machine as Forward
use aws_iot_device_client.Tunneling.TcpForward.Ending.{notices, terminated_once}
use aws_iot_device_client.Tunneling.TcpForward.Delivery.{written, accepted_all, overtaken}
use aws_iot_device_client.Tunneling.TcpForward.Delivery.Order.{delivered_in_order}
use aws_iot_device_client.Tunneling.Context.{NotifyResponse, new_context, connect_to_secure_tunnel}
use aws_iot_device_client.Tunneling.Context.Machine as Tunnel
use aws_iot_device_client.Tunneling.Context.Stopping.{one_stop_at_a_time, stop_not_lost, underway}
use aws_iot_device_client.Tunneling.Context.Forwarding as Forwarding
use aws_iot_device_client.Tunneling.Context.Forwarding.OneConnection.{replay, one_connection}
use aws_iot_device_client.Tunneling.Feature.{Feature, new_feature, create_context}
use aws_iot_device_client.Tunneling.Feature as Feature
use aws_iot_device_client.Tunneling.Feature.Machine as Notifier
use aws_iot_device_client.Tunneling.Feature.Recovery.{recovers, recovery_not_lost}
use aws_iot_device_client.Tunneling.Feature.Notifications.{
  accepted, admit, add_context, read_response, screen, on_notification,
}
use aws_iot_device_client.Tunneling.Feature.Notifications.Acceptance.{Asks, read_response_iff}
use aws_iot_device_client.Tunneling.Feature.Notifications.Repeats.{
  repeat_ignored, first_repeat_opens,
}
use aws_iot_device_client.Tunneling.Feature.Notifications.Stale.{stale_ignored}

-- A forward that connects, reads and ends with a read error, while a stop is called.
abbrev socket_closed : ℤ
socket_closed = pos 1051

abbrev session : List Forward.Event
session =
    Forward.connect_called true true
    ∷ Forward.sent false true true (pos 0) (text "early")
    ∷ Forward.connection_result (pos 0) true (pos 0)
    ∷ Forward.marking
    ∷ Forward.flushing true (pos 0)
    ∷ Forward.readable (pos 0) (got (text "data") ∷ would_block ∷ [])
    ∷ Forward.sent false true true (pos 0) (text "late")
    ∷ []

abbrev broken : List Forward.Event
broken =
    Forward.write_completed false (pos 7)
    ∷ Forward.readable (pos 1051) []
    ∷ Forward.stop_task_run true
    ∷ Forward.stop_called true
    ∷ []

fresh_runs : is_stopping (Forward.start true true).forward ≡ false
unfolding Forward.start new_forward
fresh_runs = refl

terminated_once_example :
    (notices (Forward.run socket_closed (session ++ broken) (Forward.start true true)).1 ≤ 1)
    × (notices
          (Forward.run socket_closed
            (session ++ broken)
            (Forward.step socket_closed (Forward.stop_called false) (Forward.start true true)).0).1
        ≡ 0)
terminated_once_example =
    terminated_once socket_closed (session ++ broken) (session ++ broken) false
      (Forward.start true true) (Forward.start true true) fresh_runs

session_in_order : overtaken socket_closed session (Forward.start true true) ≡ false
unfolding overtaken Forward.run Forward.step Forward.start Forward.connect_step
    Forward.connected_step Forward.marking_step Forward.flushing_step new_forward connect
    queue_write send_data flush_send_buffer read_all on_readable
session_in_order = refl

session_runs :
    is_stopping (Forward.run socket_closed session (Forward.start true true)).0.forward ≡ false
unfolding Forward.run Forward.step Forward.start Forward.connect_step Forward.connected_step
    Forward.marking_step Forward.flushing_step new_forward connect queue_write send_data
    flush_send_buffer read_all on_readable
session_runs = refl

delivered_in_order_example :
    let (n, effects) = Forward.run socket_closed session (Forward.start true true) in
    (written effects ++ n.forward.send_buffer
      ≡ accepted_all socket_closed session (Forward.start true true))
    × (length n.forward.send_buffer ≤ max_send_buffer_size)
delivered_in_order_example =
    delivered_in_order socket_closed true true session session_in_order session_runs

-- A tunnel that is stopped while it connects.
abbrev stopping : List Tunnel.Event
stopping =
    Tunnel.connect_begun true
    ∷ Tunnel.stop_called
    ∷ Tunnel.connect_ended true
    ∷ Tunnel.stopped_after_connect
    ∷ Tunnel.stop_scheduled
    ∷ Tunnel.stop_called
    ∷ Tunnel.task_scheduled true
    ∷ Tunnel.task_run true
    ∷ Tunnel.close_returned false
    ∷ Tunnel.stop_scheduled
    ∷ []

one_stop_at_a_time_example :
    let m = Tunnel.run stopping (Tunnel.start (text "token") (text "host") 22) in
    (m.scheduling + m.tasks ≤ 1)
    × (m.closing + Tunnel.count m.closed + Tunnel.count m.context.connect_in_progress ≤ 1)
    × (m.told ≤ 1)
one_stop_at_a_time_example = one_stop_at_a_time (text "token") (text "host") 22 stopping

stop_not_lost_example :
    let m = Tunnel.run stopping (Tunnel.start (text "token") (text "host") 22) in
    (m.context.stop_requested && (m.context.secure_tunnel && not m.context.stopped) ≡ false)
    ⊎ (m.context.connect_in_progress ≡ true)
    ⊎ (1 ≤ underway m)
    ⊎ (m.closed ≡ true)
    ⊎ (m.lost ≡ true)
stop_not_lost_example = stop_not_lost (text "token") (text "host") 22 stopping

-- A local connection that ends by itself, one that fails, and one that a release stops.
abbrev streams : List Forwarding.Event
streams =
    Forwarding.stream_started (some 1) true true
    ∷ Forwarding.data_received (text "data")
    ∷ Forwarding.forward_ended 1 true
    ∷ Forwarding.stream_started (some 2) false false
    ∷ Forwarding.stream_started (some 3) true true
    ∷ Forwarding.stream_started (some 4) true true
    ∷ Forwarding.released
    ∷ []

one_connection_example :
    replay (Forwarding.run streams (new_context (text "token") (text "host") 22)).1 none
    ≡ some (Forwarding.run streams (new_context (text "token") (text "host") 22)).0.tcp_forward
unfolding new_context
one_connection_example = one_connection streams (new_context (text "token") (text "host") 22)

abbrev response : NotifyResponse
response = record {
  client_access_token = some (text "token");
  client_mode = some (text "destination");
  region = some (text "eu-west-1");
  services = some (text "SSH" ∷ []);
}

read_response_iff_example :
    (read_response (pos 0) (some response) ≡ accepted (text "token") (text "eu-west-1") 22)
    ↔ Asks (pos 0) response (text "token") (text "eu-west-1") 22
read_response_iff_example = read_response_iff (pos 0) response (text "token") (text "eu-west-1") 22

-- A feature that is started, in generation 1.
abbrev started : Notifier.Machine
started =
    Notifier.run
      (Notifier.started ∷ Notifier.acted 0 true (pos 0) ∷ Notifier.acted 0 true (pos 0) ∷ [])
      (Notifier.initial none)

feature_admits : admit 1 started.feature ≡ some 0
unfolding admit Notifier.run Notifier.step Notifier.act Notifier.initial new_feature Feature.start
    Feature.run_secure_tunneling
feature_admits = refl

response_asks :
    read_response (pos 0) (some response) ≡ accepted (text "token") (text "eu-west-1") 22
unfolding read_response
response_asks = refl

tunnel_connects :
    (connect_to_secure_tunnel true true
      (create_context started.feature (text "token") (text "eu-west-1") 22)).1
    ≡ true
unfolding connect_to_secure_tunnel new_context Feature.get_endpoint Notifier.run Notifier.step
    Notifier.act Notifier.initial new_feature Feature.start Feature.run_secure_tunneling
tunnel_connects = refl

repeat_ignored_example :
    (h : Feature) × (on_notification 8 true true
        (pos 0)
        (some response)
        1
        (record started.feature { contexts = (7, new_context [] [] 22) ∷ [] })
      ≡ some h)
    × ((screen 0 response h).1 ≡ false)
    × (on_notification 9 true true (pos 0) (some response) 1 h ≡ some h)
repeat_ignored_example =
    repeat_ignored 8 9 true true true true response (text "token") (text "eu-west-1") 22 1 0 7
      (new_context [] [] 22) [] started.feature feature_admits response_asks refl

first_repeat_opens_example :
    (h : Feature) × (n : Feature) × (on_notification 8 true true
        (pos 0)
        (some response)
        1
        (record started.feature { contexts = [] })
      ≡ some h)
    × (on_notification 9 true true (pos 0) (some response) 1 h ≡ some n)
    × (map (λ p. p.0) n.contexts ≡ 8 ∷ 9 ∷ [])
first_repeat_opens_example =
    first_repeat_opens 8 9 true true response (text "token") (text "eu-west-1") 22 1 0
      started.feature feature_admits response_asks tunnel_connects

abbrev restart : List Notifier.Event
restart = Notifier.started ∷ Notifier.acted 0 true (pos 0) ∷ []

generation_is_1 : started.feature.connection_recovery_generation ≡ 1
unfolding Notifier.run Notifier.step Notifier.act Notifier.initial new_feature Feature.start
    Feature.run_secure_tunneling
generation_is_1 = refl

lifecycle_is_0 : started.feature.feature_lifecycle_generation ≡ 0
unfolding Notifier.run Notifier.step Notifier.act Notifier.initial new_feature Feature.start
    Feature.run_secure_tunneling
lifecycle_is_0 = refl

stale_ignored_example :
    let f = (Notifier.run restart (Notifier.step Notifier.stopped started)).feature in
    (admit 1 f ≡ none)
    × (add_context started.feature.feature_lifecycle_generation 8 (new_context [] [] 22) f
        ≡ (f, false))
stale_ignored_example =
    stale_ignored started restart 1 8 (new_context [] [] 22) (omega (arith, generation_is_1))
      (omega (arith, lifecycle_is_0)) (omega (arith, generation_is_1))

-- A session is lost, and the request to subscribe again is not queued.
abbrev lost_session : List Notifier.Event
lost_session =
    Notifier.started
    ∷ Notifier.acted 0 true (pos 0)
    ∷ Notifier.acted 0 true (pos 0)
    ∷ Notifier.resumed false
    ∷ Notifier.acted 0 false (pos 0)
    ∷ []

lost_session_needs :
    (Notifier.run lost_session (Notifier.initial none)).feature.subscription_needs_recovery ≡ true
unfolding Notifier.run Notifier.step Notifier.act Notifier.initial new_feature Feature.start
    Feature.run_secure_tunneling Feature.on_connection_resumed Feature.subscription_failed
lost_session_needs = refl

recovery_not_lost_example :
    let m = Notifier.run lost_session (Notifier.initial none) in
    (m.feature.started ≡ true)
    × (m.feature.client ≡ true)
    × (any (recovers m.feature.connection_recovery_generation) m.pending ≡ true)
recovery_not_lost_example = recovery_not_lost none lost_session lost_session_needs
