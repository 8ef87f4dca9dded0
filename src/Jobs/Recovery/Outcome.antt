-- ===== src/Jobs/Recovery/Outcome.antt =====
-- A generation from its first step: what starts one, and what it comes to.
use aws_iot_device_client.Base.{
  ℕ, ◌≡◌, refl, sym, subst, Bool, true, false, not, ◌||◌, List, [], ◌∷◌, arith, All,
}
use aws_iot_device_client.Jobs.Recovery.{
  Recovery, Subscription, Next, return, poll, resubscribe, start_next_accepted, all_subscriptions,
  on_connection_resumed, retry_subscription_recovery, finish_startup, subscribe_one, subscribe_each,
  resubscribe_after_session_loss,
}
use aws_iot_device_client.Jobs.Recovery.Machine.{
  Machine, Event, connection_resumed, subscribed, acknowledged, retry_due, startup_finished,
  stop_requested, stop_reached, step, run, advance, locked, proceed,
}
use aws_iot_device_client.Jobs.Recovery.Verdict.{
  none_yet, complete, any_bad, verdict, Represents, get, is_some,
}
use aws_iot_device_client.Jobs.Recovery.Generation.{IsAnswer, tally, decisions, run_outcome}
use aws_iot_device_client.Jobs.Recovery.Masks.{has, count}

-- The state right after a generation has begun.
record Fresh (s : Recovery) : Type 0 where
  running : s.need_stop ≡ false
  ready : s.jobs_client_ready ≡ true
  wanted : s.need_recovery ≡ true
  all_left : s.pending ≡ 5
  clean : s.completed_mask ≡ 0
  good : s.failed ≡ false

Fresh-Represents : (s : Recovery) → Fresh s → Represents s.generation none_yet s
unfolding any_bad count
Fresh-Represents s f = record {
  running = f.running;
  ready = f.ready;
  current = refl;
  wanted = f.wanted;
  small = omega (arith, f.clean);
  left = rw (f.all_left, f.clean);
  bits = rw f.clean no_bits;
  bad = f.good;
}
  where
    no_bits : (sub : Subscription) → has 0 sub ≡ is_some (get sub none_yet)
    no_bits start_next_accepted = refl
    no_bits _ = refl

-- A section that ends in `resubscribe` leaves a fresh generation.
abbrev Begins : Recovery × Next → Type 0
Begins (s, return) = Unit
Begins (s, poll) = Unit
Begins (s, resubscribe g) = Fresh s × (s.generation ≡ g)

on_connection_resumed-Begins : (p : Bool) (s : Recovery) → Begins (on_connection_resumed p s)
unfolding on_connection_resumed
on_connection_resumed-Begins p s = ground arith

retry-Begins : (g : ℕ) (s : Recovery) → Begins (retry_subscription_recovery g s)
unfolding retry_subscription_recovery
retry-Begins g s = ground arith

finish_startup-Begins : (r : Bool) (s : Recovery) → Begins (finish_startup r s)
unfolding finish_startup
finish_startup-Begins r s = ground arith

-- A machine that has just begun to resubscribe.
abbrev Begun : Machine → Type 0
Begun n = Fresh n.recovery × (n.resubscribe_generation ≡ n.recovery.generation)

abbrev IsBegun : Machine → Type 0
IsBegun n = n.resubscribing ≡ all_subscriptions → Begun n

locked-IsBegun :
    (subs : List Subscription) (m : Machine) (r : Recovery × Next)
    → subs ≡ []
    → Begins r
    → IsBegun (locked subs m r).0
unfolding locked proceed
locked-IsBegun [] m (s, return) e b h = absurd (cc)
locked-IsBegun [] m (s, poll) e b h = absurd (cc)
locked-IsBegun [] m (s, resubscribe g) e b h = (b.0, sym b.1)
locked-IsBegun (sub ∷ subs) m r e b h = absurd (cc)

advance-IsBegun :
    (subs : List Subscription) (queued : Bool) (m : Machine)
    → subs ≡ []
    → m.resubscribing ≡ []
    → IsBegun (advance subs queued m).0
unfolding advance
advance-IsBegun [] queued m e k h = absurd (cc)
advance-IsBegun (sub ∷ subs) queued m e k h = absurd (cc)

step-IsBegun : (e : Event) (m : Machine) → m.resubscribing ≡ [] → IsBegun (step e m).0
unfolding step
step-IsBegun (connection_resumed p) m k =
    locked-IsBegun m.resubscribing m _ k (on_connection_resumed-Begins p m.recovery)
step-IsBegun (subscribed queued) m k = advance-IsBegun m.resubscribing queued m k k
step-IsBegun (acknowledged g sub e) m k = λ h. absurd (cc)
step-IsBegun (retry_due g) m k = locked-IsBegun m.resubscribing m _ k (retry-Begins g m.recovery)
step-IsBegun (startup_finished r) m k =
    locked-IsBegun m.resubscribing m _ k (finish_startup-Begins r m.recovery)
step-IsBegun stop_requested m k = λ h. absurd (cc)
step-IsBegun stop_reached m k = locked-IsBegun m.resubscribing m _ k tt

-- Whatever event `e` makes an idle machine resubscribe, and however the answers to the five
-- subscription requests and the acknowledgements that follow are interleaved, repeated or late:
-- the generation decides nothing until each of the five subscriptions has had its first answer,
-- and then exactly once: it asks for the next pending job if all five first answers are 0, and
-- schedules a retry of this generation otherwise. The subscriptions count as recovered exactly in
-- the first case.
pub generation_outcome :
    (m : Machine) (e : Event) (es : List Event)
    → m.resubscribing ≡ []
    → (step e m).0.resubscribing ≡ all_subscriptions
    → All IsAnswer es
    → let n = (step e m).0 in
      let b = tally n.recovery.generation all_subscriptions es none_yet in
      (decisions (run es n).1 ≡ verdict n.recovery.generation b)
      × ((run es n).0.recovery.need_recovery ≡ (not (complete b) || any_bad b))
generation_outcome m e es k h answers =
    let n : Machine = (step e m).0 in
    let (fresh, same) = step-IsBegun e m k h in
    subst
      (λ subs.
        (decisions (run es n).1
          ≡ verdict n.recovery.generation (tally n.recovery.generation subs es none_yet))
        × ((run es n).0.recovery.need_recovery ≡ (
            not (complete (tally n.recovery.generation subs es none_yet))
            || any_bad (tally n.recovery.generation subs es none_yet))))
      h
      (run_outcome n.recovery.generation none_yet es n answers (Fresh-Represents n.recovery fresh)
        none_yet_open same)
  where
    none_yet_open : complete none_yet ≡ false
    none_yet_open = unfold complete in refl

-- The requests of resubscribeAfterSessionLoss as events.
abbrev pub requests : (Subscription → Bool) → List Subscription → List Event
requests queued [] = []
requests queued (sub ∷ subs) = subscribed (queued sub) ∷ requests queued subs

abbrev pub resubscribing_with : List Subscription → ℕ → Recovery → Machine
resubscribing_with subs g s = record {
  recovery = s;
  resubscribing = subs;
  resubscribe_generation = g;
}

requests-run :
    (queued : Subscription → Bool) (subs : List Subscription) (g : ℕ) (s : Recovery)
    → let r = subscribe_each queued g subs s in
      run (requests queued subs) (resubscribing_with subs g s) ≡ (resubscribing_with [] g r.0, r.1)
unfolding run step subscribe_each advance subscribe_one
requests-run queued [] g s = refl
requests-run queued (sub ∷ subs) g s =
    let t = (subscribe_one queued g sub s).0 in rw (requests-run queued subs g t)

-- The code of resubscribeAfterSessionLoss does what the machine does when the answers to its
-- requests come one after another: the same state, the same effects in the same order.
pub resubscribe-run :
    (queued : Subscription → Bool) (g : ℕ) (s : Recovery)
    → let r = resubscribe_after_session_loss queued g s in
      run (requests queued all_subscriptions) (resubscribing_with all_subscriptions g s)
      ≡ (resubscribing_with [] g r.0, r.1)
unfolding resubscribe_after_session_loss
resubscribe-run queued g s = requests-run queued all_subscriptions g s
