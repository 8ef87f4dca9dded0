-- ===== src/Tunneling/TcpForward/Machine.antt =====
-- A forward that the threads of its users and of its event loop drive, one critical section of
-- `mLifecycleLock` at a time. OnConnectionResult has three: the first with the subscription that
-- follows it, the one that sets `mConnected`, and the flush; other threads may get in between. The
-- client's event loop group has one thread (SharedCrtResourceManager.cpp), on which the callbacks
-- run, so the machine has more interleavings than the client.
use aws_iot_device_client.Base.{
  Bool, true, not, List, [], ◌∷◌, ◌++◌, Option, none, some, Text, if◌then◌else◌,
}
use aws_iot_device_client.Base.Int.{ℤ, is_zero}
use aws_iot_device_client.Tunneling.TcpForward.{
  TcpForward, Effect, schedule_stop, new_forward, is_stopping, connect, stop, stop_after_error,
  stop_on_event_loop, send_data, flush_send_buffer, Read, on_readable, on_write_completed,
}

-- How far OnConnectionResult has come.
pub data Handler : Type 0 where
  not_due awaited subscribed marked finished : Handler

pub record Machine : Type 0 where
  pub forward : TcpForward
  pub handler : Handler
  pub stop_task : Option (Bool × ℤ)  -- the scheduled TcpForwardStopTask

pub data Event : Type 0 where
  connect_called : Bool → Bool → Event
  stop_called : Bool → Event
  stop_task_run : Bool → Event
  sent : Bool → Bool → Bool → ℤ → Text → Event
  connection_result : ℤ → Bool → ℤ → Event
  marking : Event
  flushing : Bool → ℤ → Event
  readable : ℤ → List Read → Event
  write_completed : Bool → ℤ → Event

abbrev pub new_task : List Effect → Option (Bool × ℤ) → Option (Bool × ℤ)
new_task [] task = task
new_task (schedule_stop notify_owner error_code ∷ effects) task = some (notify_owner, error_code)
new_task (e ∷ effects) task = new_task effects task

-- A call: its new state, and the task that it schedules.
abbrev pub called : Machine → TcpForward × List Effect → Machine × List Effect
called m (s, effects) =
    (record m { forward = s; stop_task = new_task effects m.stop_task }, effects)

abbrev pub finish : Machine → Machine
finish m = record m { handler = finished }

unfoldable pub connect_step : Machine → TcpForward × List Effect × ℤ → Machine × List Effect
connect_step m (s, effects, result) =
    let (n, done) = called m (s, effects) in
    (if is_zero result then record n { handler = awaited } else n, done)

unfoldable pub connected_step : Handler → ℤ → Bool → ℤ → Machine → Machine × List Effect
connected_step awaited error_code ok error m =
    if not (is_zero error_code)
    then called (finish m) (stop_after_error true error_code m.forward)
    else if is_stopping m.forward
    then (finish m, [])
    else if ok
    then (record m { handler = subscribed }, [])
    else called (finish m) (stop_after_error true error m.forward)
connected_step _ error_code ok error m = (m, [])

unfoldable pub marking_step : Handler → Machine → Machine × List Effect
marking_step subscribed m =
    if is_stopping m.forward
    then (finish m, [])
    else (record m { forward = record m.forward { connected = true }; handler = marked }, [])
marking_step _ m = (m, [])

unfoldable pub flushing_step : Handler → Bool → ℤ → Machine → Machine × List Effect
flushing_step marked ok error m =
    let (s, effects, result) = flush_send_buffer ok error m.forward in
    called (finish m) (s, effects)
flushing_step _ ok error m = (m, [])

unfoldable pub task_step : Option (Bool × ℤ) → Bool → Machine → Machine × List Effect
task_step none ran m = (m, [])
task_step (some (notify_owner, error_code)) ran m =
    let n = record m { stop_task = none } in
    if ran then called n (stop_on_event_loop notify_owner error_code m.forward) else (n, [])

-- `socket_closed` is AWS_IO_SOCKET_CLOSED.
module _ (socket_closed : ℤ) where
  unfoldable pub step : Event → Machine → Machine × List Effect
  unfolding connect_step connected_step marking_step flushing_step task_step
  step (connect_called has_loop ok) m = connect_step m (connect has_loop ok m.forward)
  step (stop_called on_loop) m = called m (stop on_loop m.forward)
  step (stop_task_run ran) m = task_step m.stop_task ran m
  step (sent on_loop append_ok write_ok error bytes) m =
      let (s, effects, result) = send_data on_loop append_ok write_ok error bytes m.forward in
      called m (s, effects)
  step (connection_result error_code ok error) m = connected_step m.handler error_code ok error m
  step marking m = marking_step m.handler m
  step (flushing ok error) m = flushing_step m.handler ok error m
  step (readable error_code reads) m =
      called m (on_readable socket_closed error_code reads m.forward)
  step (write_completed on_loop error_code) m =
      called m (on_write_completed on_loop error_code m.forward)

  unfoldable pub run : List Event → Machine → Machine × List Effect
  run [] m = (m, [])
  run (e ∷ es) m = let (n, first) = step e m in let (o, rest) = run es n in (o, first ++ rest)

unfoldable pub start : Bool → Bool → Machine
start socket_ok buffer_ok = record {
  forward = new_forward socket_ok buffer_ok;
  handler = not_due;
  stop_task = none;
}
