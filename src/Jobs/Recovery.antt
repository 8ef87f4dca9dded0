-- ===== src/Jobs/Recovery.antt =====
-- JobsFeature.cpp: the recovery of the five MQTT subscriptions of the Jobs feature after a lost
-- session. The state is the group of fields that `connectionRecoveryLock` guards, with `needStop`;
-- what a critical section does to the outside is the list of effects that it returns.
pub mod Machine
pub mod Threads
pub mod Masks
pub mod Invariant
pub mod Stopping
pub mod Verdict
pub mod Generation
pub mod Outcome
use Prim.Native.Nat.{bit_and, bit_or}
use aws_iot_device_client.Base.{
  ℕ, ◌+◌, ◌-◌, ◌%◌, ◌^◌, Bool, true, false, not, ◌||◌, List, [], ◌∷◌, ◌++◌, ◌==◌, if◌then◌else◌,
}
use aws_iot_device_client.Base.Int.{ℤ, negsuc, is_zero, int_eq}

-- The five subscriptions, in the order in which they are requested.
pub data Subscription : Type 0 where
  start_next_accepted start_next_rejected next_job_changed : Subscription
  update_job_accepted update_job_rejected : Subscription

-- The constants START_NEXT_ACCEPTED_SUBSCRIPTION and so on.
abbrev pub subscription_mask : Subscription → ℕ
subscription_mask start_next_accepted = 1
subscription_mask start_next_rejected = 2
subscription_mask next_job_changed = 4
subscription_mask update_job_accepted = 8
subscription_mask update_job_rejected = 16

abbrev pub jobs_subscription_count : ℕ
jobs_subscription_count = 5

-- SUBSCRIPTION_QUEUE_FAILED = -1 and STARTUP_SUBSCRIPTION_CANCELLED = -2.
abbrev pub subscription_queue_failed : ℤ
subscription_queue_failed = negsuc 0

abbrev pub startup_subscription_cancelled : ℤ
startup_subscription_cancelled = negsuc 1

abbrev pub u64 : ℕ → ℕ
u64 n = n % 2 ^ 64

pub record Recovery : Type 0 where
  pub need_stop : Bool
  pub jobs_client_ready : Bool
  pub generation : ℕ  -- uint64_t connectionRecoveryGeneration
  pub pending : ℕ  -- size_t pendingRecoverySubscriptions
  pub failed : Bool  -- connectionRecoveryFailed
  pub completed_mask : ℕ  -- uint8_t completedRecoverySubscriptionMask
  pub need_recovery : Bool  -- subscriptionsNeedRecovery

pub data Effect : Type 0 where
  publish_start_next : Effect
  subscribe : Subscription → ℕ → Effect
  schedule_retry : ℕ → Effect

-- The members' initial values.
unfoldable pub initial : Recovery
initial = record {
  need_stop = false;
  jobs_client_ready = false;
  generation = 0;
  pending = 0;
  failed = false;
  completed_mask = 0;
  need_recovery = false;
}

-- ++connectionRecoveryGeneration and the reset that goes with it.
abbrev pub begin_generation : ℕ → Recovery → Recovery
begin_generation count s = record s {
  generation = u64 (s.generation + 1);
  pending = count;
  failed = false;
  completed_mask = 0;
}

-- What a caller does after its critical section.
pub data Next : Type 0 where
  return : Next
  poll : Next
  resubscribe : ℕ → Next

-- The critical section of onConnectionResumed, and the branch that follows it, which the caller
-- takes after it has given up the lock.
unfoldable pub on_connection_resumed : Bool → Recovery → Recovery × Next
on_connection_resumed session_present s =
    let t = record s { need_recovery = not session_present || s.need_recovery } in
    let u = begin_generation 0 t in
    if s.need_stop
    then (s, return)
    else if not t.jobs_client_ready
    then (t, return)
    else if u.need_recovery
    then (record u { pending = jobs_subscription_count }, resubscribe u.generation)
    else (u, poll)

-- The critical section of requestSubscriptionRecoveryRetry, and the retry that the caller hands to
-- a timer thread after it.
unfoldable pub request_subscription_recovery_retry : ℕ → Recovery → List Effect
request_subscription_recovery_retry failed_generation s =
    if s.need_stop
      || not s.jobs_client_ready
      || not s.need_recovery
      || not (failed_generation == s.generation)
      || not (s.pending == 0)
    then []
    else schedule_retry failed_generation ∷ []

-- completeRecoverySubscription under its lock: the new state, the publication, and `retryRecovery`.
unfoldable pub complete_locked : ℕ → Subscription → ℤ → Recovery → Recovery × List Effect × Bool
complete_locked generation sub io_error s =
    let mask = subscription_mask sub in
    let t = record s {
      completed_mask = bit_or s.completed_mask mask;
      failed =
          if int_eq io_error subscription_queue_failed
          then true
          else (if is_zero io_error then s.failed else true);
      pending = s.pending - 1;
    } in
    if s.need_stop || not s.jobs_client_ready || not (generation == s.generation) || s.pending == 0
    then (s, [], false)
    else if not (bit_and s.completed_mask mask == 0)
    then (s, [], false)
    else if not (t.pending == 0)
    then (t, [], false)
    else if t.failed
    then (t, [], true)
    else (record t { need_recovery = false }, publish_start_next ∷ [], false)

-- completeRecoverySubscription, where nothing comes between its critical section and that of
-- requestSubscriptionRecoveryRetry; in Threads other threads do.
unfoldable pub complete_recovery_subscription :
    ℕ → Subscription → ℤ → Recovery → Recovery × List Effect
complete_recovery_subscription generation sub io_error s =
    let (t, published, retry) = complete_locked generation sub io_error s in
    (t, published ++ (if retry then request_subscription_recovery_retry generation t else []))

-- The critical section of retrySubscriptionRecovery.
unfoldable pub retry_subscription_recovery : ℕ → Recovery → Recovery × Next
retry_subscription_recovery failed_generation s =
    let t = begin_generation jobs_subscription_count s in
    if s.need_stop
      || not s.jobs_client_ready
      || not s.need_recovery
      || not (failed_generation == s.generation)
      || not (s.pending == 0)
    then (s, return)
    else (t, resubscribe t.generation)

-- One of the five blocks of resubscribeAfterSessionLoss: `queued` is what the Jobs client answers.
unfoldable pub subscribe_one :
    (Subscription → Bool) → ℕ → Subscription → Recovery → Recovery × List Effect
subscribe_one queued generation sub s =
    if queued sub
    then (s, subscribe sub generation ∷ [])
    else complete_recovery_subscription generation sub subscription_queue_failed s

abbrev pub all_subscriptions : List Subscription
all_subscriptions =
    start_next_accepted ∷ start_next_rejected ∷ next_job_changed ∷ update_job_accepted
    ∷ update_job_rejected ∷ []

unfoldable pub subscribe_each :
    (Subscription → Bool) → ℕ → List Subscription → Recovery → Recovery × List Effect
subscribe_each queued generation [] s = (s, [])
subscribe_each queued generation (sub ∷ subs) s =
    let (t, first) = subscribe_one queued generation sub s in
    let (u, rest) = subscribe_each queued generation subs t in (u, first ++ rest)

unfoldable pub resubscribe_after_session_loss :
    (Subscription → Bool) → ℕ → Recovery → Recovery × List Effect
resubscribe_after_session_loss queued generation =
    subscribe_each queued generation all_subscriptions

-- The last critical section of runJobs, and the branch that the thread takes after it;
-- `startup_ready` is `startupSubscriptionsReady`.
unfoldable pub finish_startup : Bool → Recovery → Recovery × Next
finish_startup startup_ready s =
    let t = record s {
      jobs_client_ready = true;
      need_recovery = not startup_ready || s.need_recovery;
    } in
    let u = begin_generation jobs_subscription_count t in
    if s.need_stop
    then (s, return)
    else if t.need_recovery
    then (u, resubscribe u.generation)
    else (t, poll)

-- stop: the flag is set before the locks are taken.
abbrev pub request_stop : Recovery → Recovery
request_stop s = record s { need_stop = true }

unfoldable pub stop_locked : Recovery → Recovery
stop_locked s = record (begin_generation 0 s) { jobs_client_ready = false; need_recovery = false }
