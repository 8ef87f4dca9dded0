-- ===== src/Tunneling/TcpForward/Delivery/Kept.antt =====
-- What one step keeps of the bytes that wait, and of those written.
use mathlib.Core.List.{append-nil}
use aws_iot_device_client.Base.{
  ◌≤◌, ◌≡◌, ◌⊎◌, Bool, true, false, not, ◌||◌, List, [], ◌∷◌, ◌++◌, Option, none, some, Text, refl,
  sym, ap, arith, if◌then◌else◌, inl, inr, length,
}
use aws_iot_device_client.Base.Int.{ℤ}
use aws_iot_device_client.Tunneling.TcpForward.{
  TcpForward, Effect, connect_socket, is_stopping, max_send_buffer_size, connect,
  stop_on_event_loop, request_stop,
}
use aws_iot_device_client.Tunneling.TcpForward.Machine.{
  not_due, marked, Machine, called, connect_step, task_step,
}
use aws_iot_device_client.Tunneling.TcpForward.Delivery.{written}

-- The buffer is within its bound, and once connected is empty, except before the flush; nothing is
-- awaited before Connect.
pub record Inv (m : Machine) : Type 0 where
  pub bounded : length m.forward.send_buffer ≤ max_send_buffer_size
  pub flushed : (m.forward.connected ≡ false) ⊎ (m.handler ≡ marked) ⊎ (m.forward.send_buffer ≡ [])
  pub started : (m.forward.connect_started ≡ true) ⊎ (m.handler ≡ not_due)

-- What a step keeps while the forward is not stopping.
pub record Keeps (m : Machine) (accepts : Text) (r : Machine × List Effect) : Type 0 where
  pub inv : Inv r.0
  pub delivered : written r.1 ++ r.0.forward.send_buffer ≡ m.forward.send_buffer ++ accepts

pub request-stops :
    (on_loop notify_owner : Bool) (error_code : ℤ) (m : Machine)
    → is_stopping (request_stop on_loop notify_owner error_code m.forward).0 ≡ true
unfolding request_stop stop_on_event_loop
request-stops on_loop notify_owner error_code m = ground arith

abbrev pub Kept : Machine → Text → Machine × List Effect → Type 0
Kept m accepts r = is_stopping r.0.forward ≡ false → Keeps m accepts r

pub branch :
    {A : Type 0} {x y : A} (P : A → Type 0) (b : Bool)
    → (b ≡ true → P x)
    → (b ≡ false → P y)
    → P (if b then x else y)
branch P true h k = h refl
branch P false h k = k refl

-- A step that leaves the buffer alone and writes nothing.
pub still-Kept :
    (m n : Machine) (effects : List Effect)
    → n.forward.send_buffer ≡ m.forward.send_buffer
    → written effects ≡ []
    → length m.forward.send_buffer ≤ max_send_buffer_size
    → (n.forward.connected ≡ false) ⊎ (n.handler ≡ marked) ⊎ (n.forward.send_buffer ≡ [])
    → (n.forward.connect_started ≡ true) ⊎ (n.handler ≡ not_due)
    → Kept m [] (n, effects)
still-Kept m n effects e w bounded flushed started h = record {
  inv = record { bounded = rw e bounded; flushed = flushed; started = started };
  delivered = rw (e, w) (sym (append-nil m.forward.send_buffer));
}

pub same-Kept :
    (m n : Machine) (effects : List Effect)
    → Inv m
    → n.forward ≡ m.forward
    → n.handler ≡ m.handler
    → written effects ≡ []
    → Kept m [] (n, effects)
same-Kept m n effects v e f w =
    still-Kept m n effects (ap (λ s. s.send_buffer) e) w v.bounded (rw (e, f) v.flushed)
      (rw (e, f) v.started)

pub stopping-Kept :
    (m n : Machine) (accepts : Text) (effects : List Effect)
    → is_stopping n.forward ≡ true
    → Kept m accepts (n, effects)
stopping-Kept m n accepts effects e h = absurd (ground (arith, e, h))

pub request-Kept :
    (on_loop notify_owner : Bool) (error_code : ℤ) (m n : Machine) (accepts : Text)
    (effects : List Effect)
    → Kept m accepts
        (called n ((request_stop on_loop notify_owner error_code m.forward).0, effects))
request-Kept on_loop notify_owner error_code m n accepts effects =
    stopping-Kept m _ accepts effects (request-stops on_loop notify_owner error_code m)

pub task-Kept :
    (task : Option (Bool × ℤ)) (ran : Bool) (m : Machine) → Inv m → Kept m [] (task_step task ran m)
unfolding task_step stop_on_event_loop
task-Kept none ran m v = same-Kept m m [] v refl refl (unfold written in refl)
task-Kept (some (notify_owner, error_code)) false m v =
    same-Kept m _ [] v refl refl (unfold written in refl)
task-Kept (some (notify_owner, error_code)) true m v = stopping-Kept m _ [] _ (ground arith)

-- Before Connect there is nothing that the flush still has to do.
unconnected :
    (m : Machine)
    → Inv m
    → m.forward.connect_started ≡ false
    → (m.forward.connected ≡ false) ⊎ (m.forward.send_buffer ≡ [])
unconnected m v h = elim v.started [
  | inl started ↦ absurd (ground (arith, h, started))
  | inr not_yet ↦ elim v.flushed [
    | inl apart ↦ inl apart
    | inr (inl here) ↦ absurd (ground (arith, not_yet, here))
    | inr (inr empty) ↦ inr empty
  ]
]

not-started :
    (s : TcpForward)
    → (not s.socket_initialized
        || (not s.send_buffer_initialized || (s.connect_started || is_stopping s)))
      ≡ false
    → s.connect_started ≡ false
not-started s h = ground (arith, h)

abbrev Connects : Machine → TcpForward × List Effect × ℤ → Type 0
Connects m r = Kept m [] (connect_step m r)

pub connect-Kept :
    (has_loop ok : Bool) (m : Machine) → Inv m → Connects m (connect has_loop ok m.forward)
unfolding connect connect_step written
connect-Kept has_loop ok m v =
    branch (Connects m) _ (λ over. same-Kept m _ [] v refl refl refl)
      (λ free.
        branch (Connects m) (not has_loop)
          (λ without. still-Kept m _ [] refl refl v.bounded v.flushed v.started)
          (λ with_loop.
            branch (Connects m) ok
              (λ done.
                still-Kept m _ (connect_socket ∷ []) refl refl v.bounded
                  (elim (unconnected m v (not-started m.forward free)) [
                    | inl apart ↦ inl apart
                    | inr empty ↦ inr (inr empty)
                  ])
                  (inl refl))
              (λ bad.
                still-Kept m _ (connect_socket ∷ []) refl refl v.bounded v.flushed (inl refl))))
