-- ===== src/Tunneling/TcpForward/Delivery.antt =====
-- What is written to the local socket of the data that SendData accepts.
pub mod Kept
pub mod Sending
pub mod Steps
pub mod Order
pub mod Stays
use mathlib.Core.List.{append-nil, append_assoc}
use aws_iot_device_client.Base.{
  ℕ, zero, suc, ◌+◌, ◌-◌, ◌≤◌, ◌≡◌, ◌≢◌, ◌⊎◌, Bool, true, false, not, ◌&&◌, ◌||◌, List, [], ◌∷◌,
  ◌++◌, Option, none, some, Text, refl, sym, ap, ◌∙◌, arith, is_empty, if◌then◌else◌, Bool-cases,
  inl, inr, length, ltb, length-append,
}
use aws_iot_device_client.Base.Int.{ℤ, is_zero, int_eq}
use aws_iot_device_client.Tunneling.TcpForward.{
  TcpForward, Effect, write, schedule_stop, clean_up_socket, clean_up_send_buffer, data_received,
  connect_socket, terminated, new_forward, is_stopping, op_success, op_err, max_send_buffer_size,
  when, connect, stop, stop_after_error, stop_on_event_loop, request_stop, queue_write, after_write,
  send_data, flush_send_buffer, Read, read_all, end_reading, on_readable, on_write_completed,
}
use aws_iot_device_client.Tunneling.TcpForward.Machine.{
  Handler, not_due, awaited, subscribed, marked, finished, Machine, Event, connect_called,
  stop_called, stop_task_run, sent, connection_result, marking, flushing, readable, write_completed,
  new_task, called, finish, connect_step, connected_step, marking_step, flushing_step, task_step,
  step, run, start,
}

unfoldable pub written : List Effect → Text
written [] = []
written (write bytes ∷ es) = bytes ++ written es
written (e ∷ es) = written es

-- The data that a call of SendData accepts, by its result.
abbrev pub taken : Text → TcpForward × List Effect × ℤ → Text
taken bytes (s, effects, result) = if is_zero result then bytes else []

unfoldable pub accepted : Event → Machine → Text
accepted (sent on_loop append_ok write_ok error bytes) m =
    taken bytes (send_data on_loop append_ok write_ok error bytes m.forward)
accepted _ m = []

-- A call of SendData between the critical section that sets `mConnected` and the flush, while
-- there is something to flush.
abbrev pub overtakes : Handler → Text → Event → Bool
overtakes marked buffer (sent on_loop append_ok write_ok error bytes) = not (is_empty buffer)
overtakes _ buffer _ = false

module _ (socket_closed : ℤ) where
  unfoldable pub accepted_all : List Event → Machine → Text
  accepted_all [] m = []
  accepted_all (e ∷ es) m = accepted e m ++ accepted_all es (step socket_closed e m).0

  unfoldable pub overtaken : List Event → Machine → Bool
  overtaken [] m = false
  overtaken (e ∷ es) m =
      let later = overtaken es (step socket_closed e m).0 in
      overtakes m.handler m.forward.send_buffer e || later
