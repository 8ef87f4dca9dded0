-- ===== src/Tunneling/Context/Forwarding.antt =====
-- tunneling/SecureTunnelingContext.cpp: the local TCP connection of a tunnel. The SDK calls back on
-- one thread, so that one call follows the other; `id` is the address of a TcpForward.
pub mod OneConnection
use aws_iot_device_client.Base.{
  ℕ, ◌≡◌, refl, sym, ap, ◌∙◌, Bool, true, false, not, ◌&&◌, ◌||◌, List, [], ◌∷◌, ◌++◌, Option, none,
  some, Text, if◌then◌else◌, ◌==◌, arith, Bool-cases, Option-cases, ==_iff, inl, inr,
}
use aws_iot_device_client.Tunneling.Context.{Context}
use aws_iot_device_client.Tunneling.Feature.Notifications.{is_valid_port}

pub data Effect : Type 0 where
  connect_forward stop_forward drop_forward end_forward : ℕ → Effect
  send_to_forward : ℕ → Text → Effect
  send_stream_reset : Effect
  request_stop : Effect  -- a call of StopSecureTunnel

abbrev pub of_forward : Option ℕ → (ℕ → Effect) → List Effect
of_forward none e = []
of_forward (some id) e = e id ∷ []

-- StopTcpForward, which is DisconnectFromTcpForward.
unfoldable pub stop_tcp_forward : Context → Context × List Effect
stop_tcp_forward c = (record c { tcp_forward = none }, of_forward c.tcp_forward stop_forward)

-- ResetSecureTunnelStream; `ok` whether the SDK sends it.
unfoldable pub reset_secure_tunnel_stream : Bool → Context → List Effect
reset_secure_tunnel_stream ok c =
    if c.stop_requested || (c.stopped || not c.secure_tunnel)
    then []
    else send_stream_reset ∷ (if ok then [] else request_stop ∷ [])

abbrev pub is_forward : ℕ → Option ℕ → Bool
is_forward id none = false
is_forward id (some held) = held == id

-- OnTcpForwardTerminated; `ends` says that the forward has ended by itself.
unfoldable pub on_tcp_forward_terminated : Bool → ℕ → Bool → Context → Context × List Effect
unfolding reset_secure_tunnel_stream
on_tcp_forward_terminated ends id ok c =
    let d = record c { tcp_forward = none } in
    if not (is_forward id c.tcp_forward)
    then (c, [])
    else (d, (if ends then end_forward id ∷ [] else []) ++ reset_secure_tunnel_stream ok d)

-- ConnectToTcpForward once the previous forward is stopped: `created` is the new one, if it could be
-- made.
unfoldable pub connect_forward_step : Option ℕ → Bool → Bool → Context → Context × List Effect
unfolding reset_secure_tunnel_stream on_tcp_forward_terminated
connect_forward_step none connected ok c = (c, reset_secure_tunnel_stream ok c)
connect_forward_step (some id) connected ok c =
    let d = record c { tcp_forward = some id } in
    let (e, told) = on_tcp_forward_terminated false id ok d in
    if c.stop_requested || c.stopped
    then (c, drop_forward id ∷ [])
    else if connected
    then (d, connect_forward id ∷ [])
    else (e, connect_forward id ∷ stop_forward id ∷ told)

-- ConnectToTcpForward, which OnStreamStart calls.
unfoldable pub connect_to_tcp_forward : Option ℕ → Bool → Bool → Context → Context × List Effect
unfolding stop_tcp_forward reset_secure_tunnel_stream
connect_to_tcp_forward created connected ok c =
    let (d, stopped) = stop_tcp_forward c in
    let (e, opened) = connect_forward_step created connected ok d in
    if not (is_valid_port c.port)
    then (c, reset_secure_tunnel_stream ok c)
    else (e, stopped ++ opened)

-- OnDataReceive.
unfoldable pub on_data_receive : Text → Context → List Effect
on_data_receive bytes c = of_forward c.tcp_forward (λ id. send_to_forward id bytes)

pub data Event : Type 0 where
  stream_started : Option ℕ → Bool → Bool → Event
  stream_or_session_reset released : Event
  data_received : Text → Event
  forward_ended : ℕ → Bool → Event
  -- What the other calls make of the state of the tunnel.
  lifecycle : Bool → Bool → Bool → Event

unfoldable pub step : Event → Context → Context × List Effect
unfolding stop_tcp_forward
step (stream_started created connected ok) c = connect_to_tcp_forward created connected ok c
step stream_or_session_reset c = stop_tcp_forward c
step released c =
    let (d, effects) = stop_tcp_forward c in
    (record d { secure_tunnel = false; lifetime_keep_alive = false }, effects)
step (data_received bytes) c = (c, on_data_receive bytes c)
step (forward_ended id ok) c = on_tcp_forward_terminated true id ok c
step (lifecycle stop_requested stopped secure_tunnel) c = (
  record c { stop_requested = stop_requested; stopped = stopped; secure_tunnel = secure_tunnel },
  [],
)

unfoldable pub run : List Event → Context → Context × List Effect
run [] c = (c, [])
run (e ∷ es) c = let (d, first) = step e c in let (f, rest) = run es d in (f, first ++ rest)
