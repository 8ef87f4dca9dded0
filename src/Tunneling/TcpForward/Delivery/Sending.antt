-- ===== src/Tunneling/TcpForward/Delivery/Sending.antt =====
-- SendData and FlushSendBuffer keep the order of the bytes.
use mathlib.Core.List.{append-nil}
use aws_iot_device_client.Base.{
  ℕ, ◌+◌, ◌-◌, ◌≤◌, ◌≡◌, ◌⊎◌, Bool, true, false, not, ◌&&◌, ◌||◌, List, [], ◌∷◌, ◌++◌, Text, refl,
  sym, ◌∙◌, arith, is_empty, Bool-cases, inl, inr, length, ltb, length-append,
}
use aws_iot_device_client.Base.Int.{ℤ}
use aws_iot_device_client.Tunneling.TcpForward.{
  TcpForward, Effect, is_stopping, max_send_buffer_size, queue_write, after_write, send_data,
  flush_send_buffer,
}
use aws_iot_device_client.Tunneling.TcpForward.Machine.{
  Handler, marked, finished, Machine, called, finish,
}
use aws_iot_device_client.Tunneling.TcpForward.Delivery.{written, taken}
use aws_iot_device_client.Tunneling.TcpForward.Delivery.Kept.{
  Inv, Kept, branch, still-Kept, same-Kept, stopping-Kept, request-Kept,
}

-- The machine after a call of SendData.
abbrev Sends : Machine → Text → TcpForward × List Effect × ℤ → Type 0
Sends m bytes r = Kept m (taken bytes r) (called m (r.0, r.1))

append-Kept :
    (on_loop ok : Bool) (error : ℤ) (bytes : Text) (m : Machine)
    → Inv m
    → m.forward.connected ≡ false
    → (ok ≡ true → length m.forward.send_buffer + length bytes ≤ max_send_buffer_size)
    → Sends m bytes (
        after_write on_loop error m.forward
          (record m.forward { send_buffer = m.forward.send_buffer ++ bytes })
          ([], ok))
append-Kept on_loop false error bytes m v apart fits = request-Kept on_loop true error m m [] _
append-Kept on_loop true error bytes m v apart fits = λ h. record {
  inv = record {
    bounded = omega (arith, fits refl, length-append m.forward.send_buffer bytes);
    flushed = inl apart;
    started = v.started;
  };
  delivered = unfold written in refl;
}

swap : (b bytes : Text) → b ≡ [] → (bytes ++ []) ++ b ≡ b ++ bytes
swap b bytes e = rw e (append-nil (bytes ++ []) ∙ append-nil bytes)

write-Kept :
    (on_loop ok : Bool) (error : ℤ) (bytes : Text) (m : Machine)
    → Inv m
    → m.forward.send_buffer ≡ []
    → Sends m bytes (after_write on_loop error m.forward m.forward (queue_write bytes ok))
unfolding queue_write
write-Kept on_loop true error [] m v empty = same-Kept m _ [] v refl refl (unfold written in refl)
write-Kept on_loop false error [] m v empty = same-Kept m _ [] v refl refl (unfold written in refl)
write-Kept on_loop false error (c ∷ bytes) m v empty = request-Kept on_loop true error m m [] _
write-Kept on_loop true error (c ∷ bytes) m v empty = λ h. record {
  inv = record { bounded = v.bounded; flushed = v.flushed; started = v.started };
  delivered = unfold written in swap m.forward.send_buffer (c ∷ bytes) empty;
}

room :
    (used n : ℕ) (ok : Bool)
    → (not (ltb max_send_buffer_size used || ltb (max_send_buffer_size - used) n) && ok) ≡ true
    → used + n ≤ max_send_buffer_size
room used n ok h = ground (arith, h)

pub is_empty_nil : (b : Text) → is_empty b ≡ true → b ≡ []
is_empty_nil [] h = refl
is_empty_nil (c ∷ b) h = absurd (ground (arith, h))

pub send-Kept :
    (on_loop append_ok write_ok : Bool) (error : ℤ) (bytes : Text) (m : Machine)
    → Inv m
    → (m.forward.connected ≡ false) ⊎ (m.forward.send_buffer ≡ [])
    → Sends m bytes (send_data on_loop append_ok write_ok error bytes m.forward)
unfolding send_data
send-Kept on_loop append_ok write_ok error bytes m v clean =
    branch (Sends m bytes) (is_stopping m.forward) (λ over. stopping-Kept m _ [] [] over)
      (λ runs.
        branch (Sends m bytes) (not m.forward.connected)
          (λ apart.
            append-Kept on_loop _ error bytes m v (ground (arith, apart))
              (λ fits. room (length m.forward.send_buffer) (length bytes) append_ok fits))
          (λ joined. write-Kept on_loop write_ok error bytes m v (elim clean [
            | inl apart ↦ absurd (ground (arith, joined, apart))
            | inr empty ↦ empty
          ])))

-- The machine after the flush.
abbrev Flushes : Machine → TcpForward × List Effect × ℤ → Type 0
Flushes m r = Kept m [] (called (finish m) (r.0, r.1))

flushed-started : (m : Machine) → Inv m → m.handler ≡ marked → m.forward.connect_started ≡ true
flushed-started m v due = elim v.started [
  | inl started ↦ started
  | inr not_yet ↦ absurd (ground (arith, not_yet, due))
]

clear-Kept :
    (ok : Bool) (error : ℤ) (b : Text) (m : Machine)
    → m.forward.send_buffer ≡ b
    → m.forward.connect_started ≡ true
    → Flushes m (
        after_write true error m.forward (record m.forward { send_buffer = [] }) (queue_write b ok))
unfolding queue_write
clear-Kept ok error [] m e started = λ h. record {
  inv = record { bounded = ground arith; flushed = inr (inr refl); started = inl started };
  delivered = unfold written in sym (append-nil m.forward.send_buffer ∙ e);
}
clear-Kept false error (c ∷ b) m e started = request-Kept true true error m (finish m) [] _
clear-Kept true error (c ∷ b) m e started = λ h. record {
  inv = record { bounded = ground arith; flushed = inr (inr refl); started = inl started };
  delivered =
      unfold written in
      append-nil ((c ∷ b) ++ [])
      ∙ (append-nil (c ∷ b) ∙ sym (append-nil m.forward.send_buffer ∙ e));
}

nothing_to_flush :
    (m : Machine) (handler : Handler)
    → (is_stopping m.forward || (not m.forward.connected || is_empty m.forward.send_buffer)) ≡ true
    → is_stopping m.forward ≡ false
    → (m.forward.connected ≡ false) ⊎ (handler ≡ marked) ⊎ (m.forward.send_buffer ≡ [])
nothing_to_flush m handler h runs = elim (Bool-cases m.forward.connected) [
  | inl joined ↦ inr (inr (is_empty_nil m.forward.send_buffer (ground (arith, h, runs, joined))))
  | inr apart ↦ inl apart
]

pub flush-Kept :
    (ok : Bool) (error : ℤ) (m : Machine)
    → Inv m
    → m.handler ≡ marked
    → Flushes m (flush_send_buffer ok error m.forward)
unfolding flush_send_buffer
flush-Kept ok error m v due =
    let started = flushed-started m v due in
    branch (Flushes m) _
      (λ idle h.
        still-Kept m (finish m) [] refl (unfold written in refl) v.bounded
          (nothing_to_flush m finished idle h) (inl started) h)
      (λ full. clear-Kept ok error m.forward.send_buffer m refl started)
