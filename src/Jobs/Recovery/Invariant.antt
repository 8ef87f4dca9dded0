-- ===== src/Jobs/Recovery/Invariant.antt =====
-- What holds of the recovery state between two critical sections, and of stopping.
use aws_iot_device_client.Base.{
  ℕ, ◌+◌, ◌^◌, ◌<◌, ◌≡◌, refl, sym, subst, Bool, true, List, [], ◌∷◌, arith,
}
use aws_iot_device_client.Base.Int.{ℤ}
use aws_iot_device_client.Jobs.Recovery.{
  Recovery, Subscription, subscription_queue_failed, initial, Next, return, on_connection_resumed,
  complete_locked, complete_recovery_subscription, retry_subscription_recovery, subscribe_one,
  finish_startup, stop_locked,
}
use aws_iot_device_client.Jobs.Recovery.Machine.{
  Machine, Event, connection_resumed, subscribed, acknowledged, retry_due, startup_finished,
  stop_requested, stop_reached, step, run, start, locked, proceed, advance,
}
use aws_iot_device_client.Jobs.Recovery.Masks.{count, count-or, or-lt}

-- The pending count and the completed bits add up to five, and a recovery that is under way is
-- wanted and has a client.
pub record Inv (s : Recovery) : Type 0 where
  pub mask_small : s.completed_mask < 32
  pub counted : 0 < s.pending → s.pending + count s.completed_mask ≡ 5
  pub wanted : 0 < s.pending → s.need_recovery ≡ true
  pub served : 0 < s.pending → s.jobs_client_ready ≡ true
  pub generation_u64 : s.generation < 2 ^ 64

initial-Inv : Inv initial
unfolding initial
initial-Inv = ground arith

on_connection_resumed-Inv : (p : Bool) (s : Recovery) → Inv s → Inv (on_connection_resumed p s).0
unfolding on_connection_resumed count
on_connection_resumed-Inv p s v = ground arith

complete_locked-Inv :
    (g : ℕ) (sub : Subscription) (e : ℤ) (s : Recovery) → Inv s → Inv (complete_locked g sub e s).0
unfolding complete_locked
complete_locked-Inv g sub e s v =
    ground (arith, count-or sub s.completed_mask, or-lt sub s.completed_mask)

pub complete-Inv :
    (g : ℕ) (sub : Subscription) (e : ℤ) (s : Recovery)
    → Inv s
    → Inv (complete_recovery_subscription g sub e s).0
unfolding complete_recovery_subscription
complete-Inv g sub e s v = complete_locked-Inv g sub e s v

retry-Inv : (g : ℕ) (s : Recovery) → Inv s → Inv (retry_subscription_recovery g s).0
unfolding retry_subscription_recovery count
retry-Inv g s v = ground arith

finish_startup-Inv : (r : Bool) (s : Recovery) → Inv s → Inv (finish_startup r s).0
unfolding finish_startup count
finish_startup-Inv r s v = ground arith

stop_locked-Inv : (s : Recovery) → Inv s → Inv (stop_locked s)
unfolding stop_locked
stop_locked-Inv s v = ground arith

subscribe_one-Inv :
    (queued : Subscription → Bool) (g : ℕ) (sub : Subscription) (s : Recovery)
    → Inv s
    → Inv (subscribe_one queued g sub s).0
unfolding subscribe_one
subscribe_one-Inv queued g sub s v =
    ground (arith, complete-Inv g sub subscription_queue_failed s v)

proceed-recovery :
    (subs : List Subscription) (g : ℕ) (r : Recovery × Next) → (proceed subs g r).0.recovery ≡ r.0
unfolding proceed
proceed-recovery subs g (s, return) = refl
proceed-recovery subs g (s, _) = refl

locked-Inv :
    (subs : List Subscription) (m : Machine) (r : Recovery × Next)
    → Inv m.recovery
    → Inv r.0
    → Inv (locked subs m r).0.recovery
unfolding locked
locked-Inv [] m r v w = subst Inv (sym (proceed-recovery [] m.resubscribe_generation r)) w
locked-Inv (sub ∷ subs) m r v w = v

advance-Inv :
    (subs : List Subscription) (queued : Bool) (m : Machine)
    → Inv m.recovery
    → Inv (advance subs queued m).0.recovery
unfolding advance
advance-Inv [] queued m v = v
advance-Inv (sub ∷ subs) queued m v =
    subscribe_one-Inv (λ _. queued) m.resubscribe_generation sub m.recovery v

pub step-Inv : (e : Event) (m : Machine) → Inv m.recovery → Inv (step e m).0.recovery
unfolding step
step-Inv (connection_resumed p) m v =
    locked-Inv m.resubscribing m _ v (on_connection_resumed-Inv p m.recovery v)
step-Inv (subscribed queued) m v = advance-Inv m.resubscribing queued m v
step-Inv (acknowledged g sub e) m v = complete-Inv g sub e m.recovery v
step-Inv (retry_due g) m v = locked-Inv m.resubscribing m _ v (retry-Inv g m.recovery v)
step-Inv (startup_finished r) m v =
    locked-Inv m.resubscribing m _ v (finish_startup-Inv r m.recovery v)
step-Inv stop_requested m v = ground arith
step-Inv stop_reached m v = locked-Inv m.resubscribing m _ v (stop_locked-Inv m.recovery v)

run_from-Inv : (es : List Event) (m : Machine) → Inv m.recovery → Inv (run es m).0.recovery
unfolding run
run_from-Inv [] m v = v
run_from-Inv (e ∷ es) m v = run_from-Inv es (step e m).0 (step-Inv e m v)

-- After any sequence of callbacks, timers, subscription answers and stops, from the initial state:
-- while acknowledgements are pending, their number and that of the completed bits add up to five,
-- the subscriptions are marked as needing recovery, and the Jobs client is there; and the
-- generation fits its 64 bits.
pub run-start-Inv : (es : List Event) → Inv (run es start).0.recovery
unfolding start
run-start-Inv es = run_from-Inv es start initial-Inv
