-- ===== src/Jobs/Recovery/Threads.antt =====
-- The recovery machine with what its threads do between the locks. A critical section of
-- JobsFeature.cpp reads `needStop` and decides; the request for pending jobs, the check of
-- requestSubscriptionRecoveryRetry and the start of the timer come later, when other threads, such
-- as that of `stop`, which sets `needStop` under no lock, may have been there.
use aws_iot_device_client.Base.{
  ℕ, zero, suc, Bool, true, false, List, [], ◌∷◌, ◌++◌, Option, none, some, if◌then◌else◌,
}
use aws_iot_device_client.Base.Int.{ℤ}
use aws_iot_device_client.Jobs.Recovery.{
  Subscription, Effect, subscribe, subscription_queue_failed, complete_locked,
  request_subscription_recovery_retry,
}
use aws_iot_device_client.Jobs.Recovery.Machine.{
  Machine, connection_resumed, subscribed, acknowledged, retry_due, startup_finished,
  stop_requested, stop_reached, step,
}
use aws_iot_device_client.Jobs.Recovery.Machine as Machine

-- `retrying` are the generations for which a thread is about to call
-- requestSubscriptionRecoveryRetry, `decided` the polls and timers that a thread is about to carry
-- out; `carried` and `requests` are what has gone out, in order.
pub record Threads : Type 0 where
  pub machine : Machine
  pub retrying : List ℕ
  pub decided : List Effect
  pub carried : List Effect
  pub requests : List Effect

-- A critical section is entered; one of the threads that want a retry asks for it; one of those
-- that have decided goes on.
pub data Event : Type 0 where
  section : Machine.Event → Event
  retry_requested : ℕ → Event
  carried_out : ℕ → Event

-- The i-th of a list, and the others.
unfoldable pub pick {ℓ} : {A : Type ℓ} → ℕ → List A → Option (A × List A)
pick i [] = none
pick zero (x ∷ xs) = some (x, xs)
pick (suc i) (x ∷ xs) = elim (pick i xs) [ none ↦ none | some (y, rest) ↦ some (y, x ∷ rest) ]

-- completeRecoverySubscription, up to the end of its critical section.
unfoldable pub complete : ℕ → Subscription → ℤ → Threads → Threads
complete g sub io_error t =
    let (s, published, retry) = complete_locked g sub io_error t.machine.recovery in
    record t {
      machine = record t.machine { recovery = s };
      decided = t.decided ++ published;
      retrying = if retry then g ∷ t.retrying else t.retrying;
    }

-- One block of resubscribeAfterSessionLoss.
unfoldable pub request_next : List Subscription → Bool → Threads → Threads
request_next [] queued t = t
request_next (sub ∷ subs) true t = record t {
  machine = record t.machine { resubscribing = subs };
  requests = t.requests ++ subscribe sub t.machine.resubscribe_generation ∷ [];
}
request_next (sub ∷ subs) false t =
    complete t.machine.resubscribe_generation sub subscription_queue_failed
      (record t { machine = record t.machine { resubscribing = subs } })

-- The other sections, with what they decide.
abbrev pub decide : Threads → Machine × List Effect → Threads
decide t (m, effects) = record t { machine = m; decided = t.decided ++ effects }

unfoldable pub enter : Machine.Event → Threads → Threads
enter (connection_resumed p) t = decide t (step (connection_resumed p) t.machine)
enter (subscribed queued) t = request_next t.machine.resubscribing queued t
enter (acknowledged g sub io_error) t = complete g sub io_error t
enter (retry_due g) t = decide t (step (retry_due g) t.machine)
enter (startup_finished ready) t = decide t (step (startup_finished ready) t.machine)
enter stop_requested t = decide t (step stop_requested t.machine)
enter stop_reached t = decide t (step stop_reached t.machine)

-- requestSubscriptionRecoveryRetry, up to the end of its critical section.
abbrev pub request_retry : Threads → Option (ℕ × List ℕ) → Threads
request_retry t none = t
request_retry t (some (g, rest)) = record t {
  retrying = rest;
  decided = t.decided ++ request_subscription_recovery_retry g t.machine.recovery;
}

abbrev pub carry_out : Threads → Option (Effect × List Effect) → Threads
carry_out t none = t
carry_out t (some (e, rest)) = record t { decided = rest; carried = t.carried ++ e ∷ [] }

unfoldable pub act : Event → Threads → Threads
act (section e) t = enter e t
act (retry_requested i) t = request_retry t (pick i t.retrying)
act (carried_out i) t = carry_out t (pick i t.decided)

unfoldable pub run : List Event → Threads → Threads
run [] t = t
run (e ∷ es) t = run es (act e t)
