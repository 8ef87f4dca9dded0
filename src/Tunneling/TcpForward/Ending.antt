-- ===== src/Tunneling/TcpForward/Ending.antt =====
-- How the life of a forward ends: the stop, the notice to the owner, and what is left undone.
use aws_iot_device_client.Base.{
  ℕ, suc, ◌+◌, ◌≤◌, ◌≡◌, Bool, true, false, not, ◌&&◌, List, [], ◌∷◌, ◌++◌, Option, none, some,
  Text, refl, arith, if◌then◌else◌, Bool-cases, inl, inr,
}
use aws_iot_device_client.Base.Int.{ℤ, is_zero, int_eq}
use aws_iot_device_client.Tunneling.TcpForward.{
  TcpForward, Effect, write, schedule_stop, clean_up_socket, clean_up_send_buffer, data_received,
  connect_socket, terminated, is_stopping, op_success, when, connect, stop_on_event_loop,
  request_stop, queue_write, after_write, send_data, flush_send_buffer, Read, end_reading,
  on_readable, on_write_completed,
}
use aws_iot_device_client.Tunneling.TcpForward.Machine.{
  Handler, not_due, awaited, subscribed, marked, finished, Machine, Event, connect_called,
  stop_called, stop_task_run, sent, connection_result, marking, flushing, readable, write_completed,
  called, connect_step, connected_step, marking_step, flushing_step, task_step, step, run,
}

-- The notices to the owner among the effects.
unfoldable pub notices : List Effect → ℕ
notices [] = 0
notices (terminated error_code ∷ es) = suc (notices es)
notices (e ∷ es) = notices es

abbrev task_notices : Option (Bool × ℤ) → ℕ
task_notices none = 0
task_notices (some (true, error_code)) = 1
task_notices (some (false, error_code)) = 0

-- The notices that may still come.
abbrev due : Bool → Bool → Option (Bool × ℤ) → ℕ
due true stop_requested task = 0
due false true task = task_notices task
due false false task = 1

abbrev pub left : Machine → ℕ
left m = due m.forward.stopped m.forward.stop_requested m.stop_task

abbrev Spends : Machine → Machine × List Effect → Type 0
Spends m (n, effects) = notices effects + left n ≤ left m

request-Spends :
    (on_loop notify_owner : Bool) (error_code : ℤ) (m : Machine)
    → Spends m (called m (request_stop on_loop notify_owner error_code m.forward))
unfolding request_stop stop_on_event_loop notices
request-Spends on_loop notify_owner error_code m = ground arith

notices-append : (xs ys : List Effect) → notices (xs ++ ys) ≡ notices xs + notices ys
unfolding notices
notices-append [] ys = omega arith
notices-append (terminated error_code ∷ xs) ys = omega (arith, notices-append xs ys)
notices-append (write s ∷ xs) ys = notices-append xs ys
notices-append (connect_socket ∷ xs) ys = notices-append xs ys
notices-append (schedule_stop n c ∷ xs) ys = notices-append xs ys
notices-append (clean_up_socket ∷ xs) ys = notices-append xs ys
notices-append (clean_up_send_buffer ∷ xs) ys = notices-append xs ys
notices-append (data_received s ∷ xs) ys = notices-append xs ys

task-Spends :
    (task : Option (Bool × ℤ)) (ran : Bool) (m : Machine)
    → m.stop_task ≡ task
    → Spends m (task_step task ran m)
unfolding task_step stop_on_event_loop notices
task-Spends none ran m e = ground arith
task-Spends (some (true, error_code)) ran m e = ground arith
task-Spends (some (false, error_code)) ran m e = ground arith

-- What a write that is queued does, where the write itself gives no notice.
write-Spends :
    (on_loop ok : Bool) (error : ℤ) (bytes : Text) (t : TcpForward) (m : Machine)
    → t.stopped ≡ m.forward.stopped
    → t.stop_requested ≡ m.forward.stop_requested
    → let r = after_write on_loop error m.forward t (queue_write bytes ok) in
      Spends m (called m (r.0, r.1))
unfolding queue_write notices
write-Spends on_loop true error [] t m e f = ground arith
write-Spends on_loop false error [] t m e f = ground arith
write-Spends on_loop true error (c ∷ bytes) t m e f = ground arith
write-Spends on_loop false error (c ∷ bytes) t m e f = request-Spends on_loop true error m

append-Spends :
    (on_loop ok : Bool) (error : ℤ) (t : TcpForward) (m : Machine)
    → t.stopped ≡ m.forward.stopped
    → t.stop_requested ≡ m.forward.stop_requested
    → let r = after_write on_loop error m.forward t ([], ok) in Spends m (called m (r.0, r.1))
unfolding notices
append-Spends on_loop true error t m e f = ground arith
append-Spends on_loop false error t m e f = request-Spends on_loop true error m

branch-Spends :
    (b : Bool) (x y : TcpForward × List Effect × ℤ) (m : Machine)
    → Spends m (called m (x.0, x.1))
    → Spends m (called m (y.0, y.1))
    → let r = if b then x else y in Spends m (called m (r.0, r.1))
branch-Spends true x y m h k = h
branch-Spends false x y m h k = k

send-Spends :
    (on_loop append_ok write_ok : Bool) (error : ℤ) (bytes : Text) (m : Machine)
    → let r = send_data on_loop append_ok write_ok error bytes m.forward in
      Spends m (called m (r.0, r.1))
unfolding send_data
send-Spends on_loop append_ok write_ok error bytes m =
    branch-Spends (is_stopping m.forward) _ _ m (unfold notices in omega arith) (
      branch-Spends (not m.forward.connected) _ _ m (append-Spends on_loop _ error _ m refl refl)
        (write-Spends on_loop write_ok error bytes m.forward m refl refl))

flush-Spends :
    (ok : Bool) (error : ℤ) (m : Machine)
    → let r = flush_send_buffer ok error m.forward in Spends m (called m (r.0, r.1))
unfolding flush_send_buffer
flush-Spends ok error m =
    branch-Spends _ (m.forward, [], op_success) _ m (unfold notices in omega arith)
      (write-Spends true ok error m.forward.send_buffer _ m refl refl)

reading-Spends :
    (terminal : Option ℤ) (b : Bool) (bytes : Text) (m : Machine)
    → let r = end_reading terminal m.forward in
      Spends m (called m (r.0, when b (data_received bytes) ++ r.1))
unfolding notices
reading-Spends none true bytes m = omega arith
reading-Spends none false bytes m = omega arith
reading-Spends (some error) true bytes m = request-Spends true true error m
reading-Spends (some error) false bytes m = request-Spends true true error m

readable-Spends :
    (socket_closed error_code : ℤ) (reads : List Read) (m : Machine)
    → Spends m (called m (on_readable socket_closed error_code reads m.forward))
unfolding on_readable
readable-Spends socket_closed error_code reads m =
    elim (Bool-cases (not (is_zero error_code) && not (int_eq error_code socket_closed))) [
      | inl broken ↦ rw broken (request-Spends true true error_code m)
      | inr fine ↦ rw fine (reading-Spends _ _ _ m)
    ]

completed-Spends :
    (on_loop : Bool) (error_code : ℤ) (m : Machine)
    → Spends m (called m (on_write_completed on_loop error_code m.forward))
unfolding on_write_completed
completed-Spends on_loop error_code m = elim (Bool-cases (is_zero error_code)) [
  | inl fine ↦ rw fine (unfold notices in omega arith)
  | inr bad ↦ rw bad (request-Spends on_loop true error_code m)
]

connect-Spends :
    (has_loop ok : Bool) (m : Machine) → Spends m (connect_step m (connect has_loop ok m.forward))
unfolding connect connect_step notices
connect-Spends has_loop ok m = ground arith

result-Spends :
    (h : Handler) (error_code : ℤ) (ok : Bool) (error : ℤ) (m : Machine)
    → Spends m (connected_step h error_code ok error m)
unfolding connected_step
result-Spends awaited error_code ok error m = elim (Bool-cases (not (is_zero error_code))) [
  | inl bad ↦ rw bad (request-Spends true true error_code m)
  | inr fine ↦ elim (Bool-cases (is_stopping m.forward)) [
    | inl over ↦ rw (fine, over) (unfold notices in omega arith)
    | inr runs ↦ elim (Bool-cases ok) [
      | inl done ↦ rw (fine, runs, done) (unfold notices in omega arith)
      | inr not_done ↦ rw (fine, runs, not_done) (request-Spends true true error m)
    ]
  ]
]
result-Spends not_due error_code ok error m = unfold notices in omega arith
result-Spends subscribed error_code ok error m = unfold notices in omega arith
result-Spends marked error_code ok error m = unfold notices in omega arith
result-Spends finished error_code ok error m = unfold notices in omega arith

marking-Spends : (h : Handler) (m : Machine) → Spends m (marking_step h m)
unfolding marking_step notices
marking-Spends subscribed m = ground arith
marking-Spends not_due m = omega arith
marking-Spends awaited m = omega arith
marking-Spends marked m = omega arith
marking-Spends finished m = omega arith

flushing-Spends :
    (h : Handler) (ok : Bool) (error : ℤ) (m : Machine) → Spends m (flushing_step h ok error m)
unfolding flushing_step
flushing-Spends marked ok error m = flush-Spends ok error m
flushing-Spends not_due ok error m = unfold notices in omega arith
flushing-Spends awaited ok error m = unfold notices in omega arith
flushing-Spends subscribed ok error m = unfold notices in omega arith
flushing-Spends finished ok error m = unfold notices in omega arith

module _ (socket_closed : ℤ) where
  step-Spends : (e : Event) (m : Machine) → Spends m (step socket_closed e m)
  unfolding step
  step-Spends (connect_called has_loop ok) m = connect-Spends has_loop ok m
  step-Spends (stop_called on_loop) m = request-Spends on_loop false _ m
  step-Spends (stop_task_run ran) m = task-Spends m.stop_task ran m refl
  step-Spends (sent on_loop append_ok write_ok error bytes) m =
      send-Spends on_loop append_ok write_ok error bytes m
  step-Spends (connection_result error_code ok error) m =
      result-Spends m.handler error_code ok error m
  step-Spends marking m = marking-Spends m.handler m
  step-Spends (flushing ok error) m = flushing-Spends m.handler ok error m
  step-Spends (readable error_code reads) m = readable-Spends socket_closed error_code reads m
  step-Spends (write_completed on_loop error_code) m = completed-Spends on_loop error_code m

  run-Spends : (es : List Event) (m : Machine) → Spends m (run socket_closed es m)
  unfolding run
  run-Spends [] m = unfold notices in omega arith
  run-Spends (e ∷ es) m =
      let now = step-Spends e m in
      let later = run-Spends es (step socket_closed e m).0 in
      omega (
        arith,
        now,
        later,
        notices-append (step socket_closed e m).1
            (run socket_closed es (step socket_closed e m).0).1,
      )

  stop-left :
      (on_loop : Bool) (m : Machine)
      → is_stopping m.forward ≡ false
      → left (step socket_closed (stop_called on_loop) m).0 ≡ 0
  unfolding step request_stop stop_on_event_loop
  stop-left on_loop m h = ground arith

  left_le : (m : Machine) → left m ≤ 1
  left_le m = ground arith

  -- Over any interleaving of calls, callbacks and tasks, from any state, the owner is told at most
  -- once that the connection has ended, whatever errors come; and if Stop comes before any of
  -- them, it is never told.
  pub terminated_once :
      (es fs : List Event) (on_loop : Bool) (m n : Machine)
      → is_stopping n.forward ≡ false
      → (notices (run socket_closed es m).1 ≤ 1)
        × (notices (run socket_closed fs (step socket_closed (stop_called on_loop) n).0).1 ≡ 0)
  terminated_once es fs on_loop m n h = (
    omega (arith, run-Spends es m, left_le m),
    omega (
      arith,
      run-Spends fs (step socket_closed (stop_called on_loop) n).0,
      stop-left on_loop n h,
    ),
  )
