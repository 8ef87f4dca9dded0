-- ===== src/Jobs/Startup.antt =====
-- JobsFeature.cpp: runJobs up to the point where it takes subscriptionLifecycleLock (what follows
-- is finish_startup of Recovery.antt), and the results on which it waits. What the other threads
-- do to the results between two tests of needStop is a list of completions.
pub mod Readiness
use aws_iot_device_client.Base.{
  ℕ, Bool, true, false, ◌&&◌, ◌||◌, List, [], ◌∷◌, Option, none, some, ◌==◌, if◌then◌else◌,
}
use aws_iot_device_client.Base.Int.{ℤ, is_zero}
use aws_iot_device_client.Jobs.Recovery.{
  Subscription, start_next_accepted, start_next_rejected, next_job_changed, update_job_accepted,
  update_job_rejected, subscription_mask, subscription_queue_failed, startup_subscription_cancelled,
}

-- The five StartupSubscriptionResults: the value that was set, if any.
abbrev pub Results : Type 0
Results = Subscription → Option ℤ

abbrev pub no_results : Results
no_results sub = none

abbrev pub same_subscription : Subscription → Subscription → Bool
same_subscription a b = subscription_mask a == subscription_mask b

-- StartupSubscriptionResult::complete, which call_once lets set the value the first time only.
abbrev pub complete_once : ℤ → Option ℤ → Option ℤ
complete_once io_error none = some io_error
complete_once io_error (some v) = some v

unfoldable pub complete : Subscription → ℤ → Results → Results
complete sub io_error r =
    λ other. if same_subscription other sub then complete_once io_error (r other) else r other

-- What another thread does: an acknowledgement, or cancelStartupSubscriptionWaits.
pub data Completion : Type 0 where
  acknowledged : Subscription → ℤ → Completion
  cancelled : Completion

unfoldable pub cancel_startup_subscription_waits : Results → Results
cancel_startup_subscription_waits r = complete update_job_rejected startup_subscription_cancelled (
    complete update_job_accepted startup_subscription_cancelled (
      complete next_job_changed startup_subscription_cancelled (
        complete start_next_rejected startup_subscription_cancelled
          (complete start_next_accepted startup_subscription_cancelled r))))

unfoldable pub receive : List Completion → Results → Results
receive [] r = r
receive (acknowledged sub io_error ∷ cs) r = receive cs (complete sub io_error r)
receive (cancelled ∷ cs) r = receive cs (cancel_startup_subscription_waits r)

-- One subscription request, and what it does when it cannot be queued.
unfoldable pub request : Bool → Subscription → Results → Results
request queued sub r = if queued then r else complete sub subscription_queue_failed r

-- The lambda waitForSubscriptionAcknowledgement; `none` at the deadline is its time-out.
abbrev pub is_acknowledged : Option ℤ → Bool
is_acknowledged none = false
is_acknowledged (some v) = is_zero v

abbrev pub all_acknowledged : Results → Bool
all_acknowledged r =
    is_acknowledged (r start_next_accepted)
    && (is_acknowledged (r start_next_rejected)
        && (is_acknowledged (r next_job_changed)
            && (is_acknowledged (r update_job_accepted)
                && is_acknowledged (r update_job_rejected))))

abbrev pub all_queued : (Subscription → Bool) → Bool
all_queued queued =
    queued start_next_accepted
    && (queued start_next_rejected
        && (queued next_job_changed && (queued update_job_accepted && queued update_job_rejected)))

-- The results at the deadline, where no test of needStop succeeds. `others i` is what happens
-- after the i-th test and before the next one; `others 5` lasts until the deadline.
unfoldable pub startup_results : (Subscription → Bool) → (ℕ → List Completion) → Results
startup_results queued others =
    let requested : ℕ → Subscription → Results → Results =
      λ i sub r. receive (others i) (request (queued sub) sub r) in
    let r1 = receive (others 0) no_results in
    let r2 =
      requested 1 start_next_rejected
        (request (queued start_next_accepted) start_next_accepted r1) in
    let r3 = requested 2 next_job_changed r2 in
    let r4 = requested 3 update_job_accepted r3 in
    let r5 = requested 4 update_job_rejected r4 in receive (others 5) r5

-- `stop i` is the i-th test of needStop. `none` is an early return, `some ready` the value of
-- startupSubscriptionsReady.
unfoldable pub run_jobs : (ℕ → Bool) → (Subscription → Bool) → (ℕ → List Completion) → Option Bool
run_jobs stop queued others =
    if stop 0 || (stop 1 || (stop 2 || (stop 3 || (stop 4 || stop 5))))
    then none
    else some
        (if all_queued queued then all_acknowledged (startup_results queued others) else false)
