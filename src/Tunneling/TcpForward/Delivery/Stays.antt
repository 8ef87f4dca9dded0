-- ===== src/Tunneling/TcpForward/Delivery/Stays.antt =====
-- Stopping is for good.

use aws_iot_device_client.Base.{
  ◌≡◌, Bool, true, false, not, ◌&&◌, List, [], ◌∷◌, Option, none, some, Text, arith, Bool-cases,
  inl, inr,
}
use aws_iot_device_client.Base.Int.{ℤ, is_zero, int_eq}
use aws_iot_device_client.Tunneling.TcpForward.{
  Effect, is_stopping, connect, stop_on_event_loop, send_data, flush_send_buffer, Read, end_reading,
  on_readable, on_write_completed,
}
use aws_iot_device_client.Tunneling.TcpForward.Machine.{
  Handler, not_due, awaited, subscribed, marked, finished, Machine, Event, connect_called,
  stop_called, stop_task_run, sent, connection_result, marking, flushing, readable, write_completed,
  connect_step, connected_step, marking_step, flushing_step, task_step, step, run,
}
use aws_iot_device_client.Tunneling.TcpForward.Delivery.Kept.{request-stops}

-- A stop that is requested is never taken back.
abbrev pub Stays : Machine → Machine × List Effect → Type 0
Stays m r = is_stopping m.forward ≡ true → is_stopping r.0.forward ≡ true

connect-Stays :
    (has_loop ok : Bool) (m : Machine) → Stays m (connect_step m (connect has_loop ok m.forward))
unfolding connect connect_step
connect-Stays has_loop ok m h = ground (arith, h)

task-Stays : (task : Option (Bool × ℤ)) (ran : Bool) (m : Machine) → Stays m (task_step task ran m)
unfolding task_step stop_on_event_loop
task-Stays none ran m h = h
task-Stays (some (notify_owner, error_code)) ran m h = ground (arith, h)

send-Stays :
    (on_loop append_ok write_ok : Bool) (error : ℤ) (bytes : Text) (m : Machine)
    → is_stopping m.forward ≡ true
    → is_stopping (send_data on_loop append_ok write_ok error bytes m.forward).0 ≡ true
unfolding send_data
send-Stays on_loop append_ok write_ok error bytes m h = rw h h

flush-Stays :
    (ok : Bool) (error : ℤ) (m : Machine)
    → is_stopping m.forward ≡ true
    → is_stopping (flush_send_buffer ok error m.forward).0 ≡ true
unfolding flush_send_buffer
flush-Stays ok error m h = rw h h

result-Stays :
    (h : Handler) (error_code : ℤ) (ok : Bool) (error : ℤ) (m : Machine)
    → Stays m (connected_step h error_code ok error m)
unfolding connected_step
result-Stays awaited error_code ok error m h = elim (Bool-cases (not (is_zero error_code))) [
  | inl bad ↦ rw bad (request-stops true true error_code m)
  | inr fine ↦ rw (fine, h) h
]
result-Stays not_due error_code ok error m h = h
result-Stays subscribed error_code ok error m h = h
result-Stays marked error_code ok error m h = h
result-Stays finished error_code ok error m h = h

marking-Stays : (h : Handler) (m : Machine) → Stays m (marking_step h m)
unfolding marking_step
marking-Stays subscribed m h = rw h h
marking-Stays not_due m h = h
marking-Stays awaited m h = h
marking-Stays marked m h = h
marking-Stays finished m h = h

flushing-Stays :
    (h : Handler) (ok : Bool) (error : ℤ) (m : Machine) → Stays m (flushing_step h ok error m)
unfolding flushing_step
flushing-Stays marked ok error m h = flush-Stays ok error m h
flushing-Stays not_due ok error m h = h
flushing-Stays awaited ok error m h = h
flushing-Stays subscribed ok error m h = h
flushing-Stays finished ok error m h = h

reading-Stays :
    (terminal : Option ℤ) (m : Machine)
    → is_stopping m.forward ≡ true
    → is_stopping (end_reading terminal m.forward).0 ≡ true
reading-Stays none m h = h
reading-Stays (some error) m h = request-stops true true error m

readable-Stays :
    (socket_closed error_code : ℤ) (reads : List Read) (m : Machine)
    → is_stopping m.forward ≡ true
    → is_stopping (on_readable socket_closed error_code reads m.forward).0 ≡ true
unfolding on_readable
readable-Stays socket_closed error_code reads m h =
    elim (Bool-cases (not (is_zero error_code) && not (int_eq error_code socket_closed))) [
      | inl broken ↦ rw broken (request-stops true true error_code m)
      | inr fine ↦ rw fine (reading-Stays _ m h)
    ]

completed-Stays :
    (on_loop : Bool) (error_code : ℤ) (m : Machine)
    → is_stopping m.forward ≡ true
    → is_stopping (on_write_completed on_loop error_code m.forward).0 ≡ true
unfolding on_write_completed
completed-Stays on_loop error_code m h = elim (Bool-cases (is_zero error_code)) [
  | inl fine ↦ rw fine h
  | inr bad ↦ rw bad (request-stops on_loop true error_code m)
]

module _ (socket_closed : ℤ) where
  pub step-Stays : (e : Event) (m : Machine) → Stays m (step socket_closed e m)
  unfolding step
  step-Stays (connect_called has_loop ok) m h = connect-Stays has_loop ok m h
  step-Stays (stop_called on_loop) m h = request-stops on_loop false _ m
  step-Stays (stop_task_run ran) m h = task-Stays m.stop_task ran m h
  step-Stays (sent on_loop append_ok write_ok error bytes) m h =
      send-Stays on_loop append_ok write_ok error bytes m h
  step-Stays (connection_result error_code ok error) m h =
      result-Stays m.handler error_code ok error m h
  step-Stays marking m h = marking-Stays m.handler m h
  step-Stays (flushing ok error) m h = flushing-Stays m.handler ok error m h
  step-Stays (readable error_code reads) m h = readable-Stays socket_closed error_code reads m h
  step-Stays (write_completed on_loop error_code) m h = completed-Stays on_loop error_code m h

  pub run-Stays : (es : List Event) (m : Machine) → Stays m (run socket_closed es m)
  unfolding run
  run-Stays [] m h = h
  run-Stays (e ∷ es) m h = run-Stays es (step socket_closed e m).0 (step-Stays e m h)
