-- ===== src/Tunneling/TcpForward/Delivery/Steps.antt =====
-- Every step of the machine keeps the order of the bytes.

use aws_iot_device_client.Base.{
  ◌≡◌, ◌≢◌, ◌⊎◌, Bool, true, false, not, ◌&&◌, List, [], ◌++◌, Option, none, some, Text, refl,
  arith, Bool-cases, inl, inr,
}
use aws_iot_device_client.Base.Int.{ℤ, is_zero, int_eq}
use aws_iot_device_client.Tunneling.TcpForward.{
  data_received, is_stopping, when, Read, end_reading, on_readable, on_write_completed,
}
use aws_iot_device_client.Tunneling.TcpForward.Machine.{
  Handler, not_due, awaited, subscribed, marked, finished, Machine, Event, connect_called,
  stop_called, stop_task_run, sent, connection_result, marking, flushing, readable, write_completed,
  called, finish, connected_step, marking_step, flushing_step, step,
}
use aws_iot_device_client.Tunneling.TcpForward.Delivery.{written, accepted, overtakes}
use aws_iot_device_client.Tunneling.TcpForward.Delivery.Kept.{
  Inv, Kept, branch, still-Kept, same-Kept, stopping-Kept, request-Kept, task-Kept, connect-Kept,
}
use aws_iot_device_client.Tunneling.TcpForward.Delivery.Sending.{
  send-Kept, flush-Kept, is_empty_nil,
}

-- The handler goes on from its first critical section.
onward-Kept :
    (h : Handler) (m : Machine)
    → m.handler ≡ awaited
    → Inv m
    → Kept m [] (record m { handler = h }, [])
onward-Kept h m e v =
    still-Kept m _ [] refl (unfold written in refl) v.bounded
      (elim v.flushed [
        | inl apart ↦ inl apart
        | inr (inl due) ↦ absurd (ground (arith, e, due))
        | inr (inr empty) ↦ inr (inr empty)
      ])
      (elim v.started [
        | inl started ↦ inl started
        | inr not_yet ↦ absurd (ground (arith, e, not_yet))
      ])

result-Kept :
    (h : Handler) (error_code : ℤ) (ok : Bool) (error : ℤ) (m : Machine)
    → m.handler ≡ h
    → Inv m
    → Kept m [] (connected_step h error_code ok error m)
unfolding connected_step
result-Kept awaited error_code ok error m e v = elim (Bool-cases (not (is_zero error_code))) [
  | inl bad ↦ rw bad (request-Kept true true error_code m (finish m) [] _)
  | inr fine ↦ elim (Bool-cases (is_stopping m.forward)) [
    | inl over ↦ rw (fine, over) (stopping-Kept m (finish m) [] [] over)
    | inr runs ↦ elim (Bool-cases ok) [
      | inl done ↦ rw (fine, runs, done) (onward-Kept subscribed m e v)
      | inr not_done ↦ rw (fine, runs, not_done) (request-Kept true true error m (finish m) [] _)
    ]
  ]
]
result-Kept not_due error_code ok error m e v =
    same-Kept m m [] v refl refl (unfold written in refl)
result-Kept subscribed error_code ok error m e v =
    same-Kept m m [] v refl refl (unfold written in refl)
result-Kept marked error_code ok error m e v = same-Kept m m [] v refl refl (unfold written in refl)
result-Kept finished error_code ok error m e v =
    same-Kept m m [] v refl refl (unfold written in refl)

marking-Kept : (h : Handler) (m : Machine) → m.handler ≡ h → Inv m → Kept m [] (marking_step h m)
unfolding marking_step
marking-Kept subscribed m e v =
    branch (Kept m []) (is_stopping m.forward) (λ over. stopping-Kept m _ [] [] over)
      (λ runs.
        still-Kept m _ [] refl (unfold written in refl) v.bounded (inr (inl refl)) (elim v.started [
          | inl started ↦ inl started
          | inr not_yet ↦ absurd (ground (arith, e, not_yet))
        ]))
marking-Kept not_due m e v = same-Kept m m [] v refl refl (unfold written in refl)
marking-Kept awaited m e v = same-Kept m m [] v refl refl (unfold written in refl)
marking-Kept marked m e v = same-Kept m m [] v refl refl (unfold written in refl)
marking-Kept finished m e v = same-Kept m m [] v refl refl (unfold written in refl)

flushing-Kept :
    (h : Handler) (ok : Bool) (error : ℤ) (m : Machine)
    → m.handler ≡ h
    → Inv m
    → Kept m [] (flushing_step h ok error m)
unfolding flushing_step
flushing-Kept marked ok error m e v = flush-Kept ok error m v e
flushing-Kept not_due ok error m e v = same-Kept m m [] v refl refl (unfold written in refl)
flushing-Kept awaited ok error m e v = same-Kept m m [] v refl refl (unfold written in refl)
flushing-Kept subscribed ok error m e v = same-Kept m m [] v refl refl (unfold written in refl)
flushing-Kept finished ok error m e v = same-Kept m m [] v refl refl (unfold written in refl)

reading-Kept :
    (terminal : Option ℤ) (b : Bool) (bytes : Text) (m : Machine)
    → Inv m
    → let r = end_reading terminal m.forward in
      Kept m [] (called m (r.0, when b (data_received bytes) ++ r.1))
reading-Kept none true bytes m v = same-Kept m _ _ v refl refl (unfold written in refl)
reading-Kept none false bytes m v = same-Kept m _ _ v refl refl (unfold written in refl)
reading-Kept (some error) b bytes m v = request-Kept true true error m m [] _

readable-Kept :
    (socket_closed error_code : ℤ) (reads : List Read) (m : Machine)
    → Inv m
    → Kept m [] (called m (on_readable socket_closed error_code reads m.forward))
unfolding on_readable
readable-Kept socket_closed error_code reads m v =
    elim (Bool-cases (not (is_zero error_code) && not (int_eq error_code socket_closed))) [
      | inl broken ↦ rw broken (request-Kept true true error_code m m [] _)
      | inr fine ↦ rw fine (reading-Kept _ _ _ m v)
    ]

completed-Kept :
    (on_loop : Bool) (error_code : ℤ) (m : Machine)
    → Inv m
    → Kept m [] (called m (on_write_completed on_loop error_code m.forward))
unfolding on_write_completed
completed-Kept on_loop error_code m v = elim (Bool-cases (is_zero error_code)) [
  | inl fine ↦
      rw fine (same-Kept m (called m (m.forward, [])).0 [] v refl refl (unfold written in refl))
  | inr bad ↦ rw bad (request-Kept on_loop true error_code m m [] _)
]

elsewhere :
    (m : Machine)
    → Inv m
    → m.handler ≢ marked
    → (m.forward.connected ≡ false) ⊎ (m.forward.send_buffer ≡ [])
elsewhere m v away = elim v.flushed [
  | inl apart ↦ inl apart
  | inr (inl due) ↦ absurd (away due)
  | inr (inr empty) ↦ inr empty
]

-- With no data that overtakes the buffer, a call of SendData finds the buffer empty or unused.
in_order :
    (h : Handler) (m : Machine) (on_loop append_ok write_ok : Bool) (error : ℤ) (bytes : Text)
    → m.handler ≡ h
    → overtakes h m.forward.send_buffer (sent on_loop append_ok write_ok error bytes) ≡ false
    → Inv m
    → (m.forward.connected ≡ false) ⊎ (m.forward.send_buffer ≡ [])
in_order marked m on_loop append_ok write_ok error bytes e w v =
    inr (is_empty_nil m.forward.send_buffer (ground (arith, w)))
in_order not_due m on_loop append_ok write_ok error bytes e w v =
    elsewhere m v (λ due. absurd (ground (arith, e, due)))
in_order awaited m on_loop append_ok write_ok error bytes e w v =
    elsewhere m v (λ due. absurd (ground (arith, e, due)))
in_order subscribed m on_loop append_ok write_ok error bytes e w v =
    elsewhere m v (λ due. absurd (ground (arith, e, due)))
in_order finished m on_loop append_ok write_ok error bytes e w v =
    elsewhere m v (λ due. absurd (ground (arith, e, due)))

module _ (socket_closed : ℤ) where
  pub step-Kept :
      (e : Event) (m : Machine)
      → overtakes m.handler m.forward.send_buffer e ≡ false
      → Inv m
      → Kept m (accepted e m) (step socket_closed e m)
  unfolding step accepted
  step-Kept (connect_called has_loop ok) m w v = connect-Kept has_loop ok m v
  step-Kept (stop_called on_loop) m w v = request-Kept on_loop false _ m m [] _
  step-Kept (stop_task_run ran) m w v = task-Kept m.stop_task ran m v
  step-Kept (sent on_loop append_ok write_ok error bytes) m w v =
      send-Kept on_loop append_ok write_ok error bytes m v
        (in_order m.handler m on_loop append_ok write_ok error bytes refl w v)
  step-Kept (connection_result error_code ok error) m w v =
      result-Kept m.handler error_code ok error m refl v
  step-Kept marking m w v = marking-Kept m.handler m refl v
  step-Kept (flushing ok error) m w v = flushing-Kept m.handler ok error m refl v
  step-Kept (readable error_code reads) m w v = readable-Kept socket_closed error_code reads m v
  step-Kept (write_completed on_loop error_code) m w v = completed-Kept on_loop error_code m v
