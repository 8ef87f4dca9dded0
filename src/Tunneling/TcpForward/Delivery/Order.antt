-- ===== src/Tunneling/TcpForward/Delivery/Order.antt =====
-- The bytes reach the local socket in the order in which they are accepted.
use mathlib.Core.List.{append-nil, append_assoc}
use aws_iot_device_client.Base.{
  ◌≤◌, ◌≡◌, Bool, true, false, List, [], ◌∷◌, ◌++◌, Text, refl, sym, ap, ◌∙◌, arith, Bool-cases,
  inl, inr, length,
}
use aws_iot_device_client.Base.Int.{ℤ}
use aws_iot_device_client.Tunneling.TcpForward.{
  Effect, write, schedule_stop, clean_up_socket, clean_up_send_buffer, data_received,
  connect_socket, terminated, new_forward, is_stopping, max_send_buffer_size,
}
use aws_iot_device_client.Tunneling.TcpForward.Machine.{Machine, Event, step, run, start}
use aws_iot_device_client.Tunneling.TcpForward.Delivery.{written, accepted, accepted_all, overtaken}
use aws_iot_device_client.Tunneling.TcpForward.Delivery.Kept.{Inv, Kept}
use aws_iot_device_client.Tunneling.TcpForward.Delivery.Steps.{step-Kept}
use aws_iot_device_client.Tunneling.TcpForward.Delivery.Stays.{run-Stays}

written-append : (xs ys : List Effect) → written (xs ++ ys) ≡ written xs ++ written ys
unfolding written
written-append [] ys = refl
written-append (write s ∷ xs) ys =
    ap (λ t. s ++ t) (written-append xs ys) ∙ sym (append_assoc s (written xs) (written ys))
written-append (terminated error_code ∷ xs) ys = written-append xs ys
written-append (connect_socket ∷ xs) ys = written-append xs ys
written-append (schedule_stop n c ∷ xs) ys = written-append xs ys
written-append (clean_up_socket ∷ xs) ys = written-append xs ys
written-append (clean_up_send_buffer ∷ xs) ys = written-append xs ys
written-append (data_received s ∷ xs) ys = written-append xs ys

chain :
    (first rest buffer last now later begin : Text)
    → first ++ buffer ≡ begin ++ now
    → rest ++ last ≡ buffer ++ later
    → (first ++ rest) ++ last ≡ begin ++ (now ++ later)
chain first rest buffer last now later begin h k =
    append_assoc first rest last
    ∙ (ap (λ t. first ++ t) k
        ∙ (sym (append_assoc first buffer later)
            ∙ (ap (λ t. t ++ later) h ∙ append_assoc begin now later)))

running :
    (m n : Machine)
    → (is_stopping m.forward ≡ true → is_stopping n.forward ≡ true)
    → is_stopping n.forward ≡ false
    → is_stopping m.forward ≡ false
running m n stays h = elim (Bool-cases (is_stopping m.forward)) [
  | inl over ↦ absurd (ground (arith, stays over, h))
  | inr runs ↦ runs
]

start-Inv : (socket_ok buffer_ok : Bool) → Inv (start socket_ok buffer_ok)
unfolding start new_forward
start-Inv socket_ok buffer_ok = record {
  bounded = ground arith;
  flushed = inl refl;
  started = inr refl;
}

module _ (socket_closed : ℤ) where
  run-Kept :
      (es : List Event) (m : Machine)
      → overtaken socket_closed es m ≡ false
      → Inv m
      → Kept m (accepted_all socket_closed es m) (run socket_closed es m)
  unfolding run overtaken accepted_all
  run-Kept [] m w v h = record {
    inv = v;
    delivered = unfold written in sym (append-nil m.forward.send_buffer);
  }
  run-Kept (e ∷ es) m w v h =
      let n = (step socket_closed e m).0 in
      let now =
        step-Kept socket_closed e m (ground (arith, w)) v
          (running n (run socket_closed es n).0 (run-Stays socket_closed es n) h) in
      let later = run-Kept es n (ground (arith, w)) now.inv h in
      record {
        inv = later.inv;
        delivered =
            ap (λ t. t ++ (run socket_closed es n).0.forward.send_buffer)
              (written-append (step socket_closed e m).1 (run socket_closed es n).1)
            ∙ chain (written (step socket_closed e m).1) (written (run socket_closed es n).1)
                n.forward.send_buffer (run socket_closed es n).0.forward.send_buffer (accepted e m)
                (accepted_all socket_closed es n) m.forward.send_buffer now.delivered
                later.delivered;
      }

  -- From a new forward on, over any interleaving of calls, callbacks and tasks in which no call of
  -- SendData falls between the marking as connected and the flush of a buffer with data: while the
  -- forward is not stopping, what was written to the local socket followed by what is still
  -- buffered is the data of the calls of SendData that returned success, in order, and the buffer
  -- is within its bound.
  pub delivered_in_order :
      (socket_ok buffer_ok : Bool) (es : List Event)
      → overtaken socket_closed es (start socket_ok buffer_ok) ≡ false
      → is_stopping (run socket_closed es (start socket_ok buffer_ok)).0.forward ≡ false
      → let (n, effects) = run socket_closed es (start socket_ok buffer_ok) in
        (written effects ++ n.forward.send_buffer
          ≡ accepted_all socket_closed es (start socket_ok buffer_ok))
        × (length n.forward.send_buffer ≤ max_send_buffer_size)
  unfolding accepted_all start new_forward
  delivered_in_order socket_ok buffer_ok es w h =
      let kept = run-Kept es (start socket_ok buffer_ok) w (start-Inv socket_ok buffer_ok) h in
      (kept.delivered, kept.inv.bounded)
