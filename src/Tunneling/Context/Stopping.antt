-- ===== src/Tunneling/Context/Stopping.antt =====
-- Stopping a tunnel.
use aws_iot_device_client.Base.{
  ℕ, ◌+◌, ◌≤◌, ◌≡◌, ◌⊎◌, Bool, true, false, not, ◌&&◌, List, [], ◌∷◌, Text, arith,
}
use aws_iot_device_client.Tunneling.Context.{
  new_context, begin_connect, end_connect, stop_secure_tunnel, schedule_stop, queue_stop,
  on_stopped, release_after_stopped,
}
use aws_iot_device_client.Tunneling.Context.Machine.{
  Phase, before, connecting, over, Machine, Event, connect_begun, connect_ended, stop_called,
  stopped_after_connect, stop_scheduled, task_scheduled, task_run, close_returned, stopped_reported,
  released, count, begin_step, end_step, stop_step, schedule_step, scheduled_step, task_step,
  close_step, report_step, step, run, start,
}

abbrev is_connecting : Phase → Bool
is_connecting connecting = true
is_connecting before = false
is_connecting over = false

abbrev is_over : Phase → Bool
is_over over = true
is_over before = false
is_over connecting = false

-- The threads and tasks that will stop the tunnel.
abbrev pub underway : Machine → ℕ
underway m = m.stoppers + m.schedulers + m.scheduling + m.tasks + m.closing

-- Each Boolean and each count by itself, and what holds the threads and the fields together: a task
-- is scheduled, and a Close is underway or done, just when the fields say so.
abbrev Inv : Machine → Type 0
Inv m =
    (m.context.connect_in_progress ≡ is_connecting m.phase)
    × (m.scheduling + m.tasks ≤ count m.context.stop_task_scheduled)
    × (count m.context.stop_task_scheduled ≤ m.scheduling + m.tasks + count m.lost)
    × (m.closing + count m.closed ≡ count m.context.stop_queued)
    × (count m.context.stop_task_scheduled ≤ count (is_over m.phase))
    × (count m.context.stop_queued ≤ count (is_over m.phase))
    × (count m.context.secure_tunnel ≤ count (is_connecting m.phase) + count (is_over m.phase))
    × (m.told ≤ count m.context.stopped)
    × (count (m.context.stop_requested && (m.context.secure_tunnel && not m.context.stopped))
        ≤ count (is_connecting m.phase) + count m.lost + count m.closed + underway m)

step-Inv : (e : Event) (m : Machine) → Inv m → Inv (step e m)
unfolding step begin_step begin_connect end_step end_connect stop_step stop_secure_tunnel
    schedule_step schedule_stop scheduled_step task_step queue_stop close_step report_step
    on_stopped release_after_stopped
step-Inv (connect_begun valid) m v = ground (arith, v)
step-Inv (connect_ended success) m v = ground (arith, v)
step-Inv stop_called m v = ground (arith, v)
step-Inv stopped_after_connect m v = ground (arith, v)
step-Inv stop_scheduled m v = ground (arith, v)
step-Inv (task_scheduled ok) m v = ground (arith, v)
step-Inv (task_run ran) m v = ground (arith, v)
step-Inv (close_returned ok) m v = ground (arith, v)
step-Inv (stopped_reported scheduled) m v = ground (arith, v)
step-Inv released m v = ground (arith, v)

start-Inv : (access_token endpoint : Text) (port : ℕ) → Inv (start access_token endpoint port)
unfolding start new_context
start-Inv access_token endpoint port = ground arith

run-Inv : (es : List Event) (m : Machine) → Inv m → Inv (run es m)
unfolding run
run-Inv [] m v = v
run-Inv (e ∷ es) m v = run-Inv es (step e m) (step-Inv e m v)

-- Over any interleaving of the threads of a tunnel that ConnectToSecureTunnel is called on once, at
-- most one task that stops the tunnel is scheduled at a time; Close is never called while another
-- call is underway, nor after one that succeeded, nor while Connect is; and the owner is told at
-- most once that the tunnel has stopped.
pub one_stop_at_a_time :
    (access_token endpoint : Text) (port : ℕ) (es : List Event)
    → let m = run es (start access_token endpoint port) in
      (m.scheduling + m.tasks ≤ 1)
      × (m.closing + count m.closed + count m.context.connect_in_progress ≤ 1)
      × (m.told ≤ 1)
one_stop_at_a_time access_token endpoint port es =
    ground
      (arith, run-Inv es (start access_token endpoint port) (start-Inv access_token endpoint port))

-- Over any interleaving, a stop that has been requested is not lost: until the tunnel has stopped
-- or is released, its Connect has still to return, or a thread or a task is underway that will call
-- Close, or a call of Close has succeeded, or a task could not be scheduled or was canceled.
pub stop_not_lost :
    (access_token endpoint : Text) (port : ℕ) (es : List Event)
    → let m = run es (start access_token endpoint port) in
      (m.context.stop_requested && (m.context.secure_tunnel && not m.context.stopped) ≡ false)
      ⊎ (m.context.connect_in_progress ≡ true)
      ⊎ (1 ≤ underway m)
      ⊎ (m.closed ≡ true)
      ⊎ (m.lost ≡ true)
stop_not_lost access_token endpoint port es =
    ground
      (arith, run-Inv es (start access_token endpoint port) (start-Inv access_token endpoint port))
