-- ===== src/Tests/Recovery.antt =====
-- Runs of the subscription recovery and of the startup.
use aws_iot_device_client.Base.{
  ℕ, ◌≡◌, refl, Bool, true, false, not, ◌||◌, List, [], ◌∷◌, some, ◌==◌, if◌then◌else◌,
}
use aws_iot_device_client.Base.Int.{pos}
use aws_iot_device_client.Jobs.Recovery.{
  Subscription, publish_start_next, start_next_accepted, start_next_rejected, next_job_changed,
  update_job_accepted, update_job_rejected, all_subscriptions, initial, finish_startup,
}
use aws_iot_device_client.Jobs.Recovery.Machine.{
  Machine, Event, subscribed, acknowledged, startup_finished, proceed, locked, step, run, start,
}
use aws_iot_device_client.Jobs.Recovery.Invariant.{Inv, run-start-Inv}
use aws_iot_device_client.Jobs.Recovery.Threads.{Threads}
use aws_iot_device_client.Jobs.Recovery.Threads as Threads
use aws_iot_device_client.Jobs.Recovery.Verdict.{none_yet, complete, any_bad, verdict}
use aws_iot_device_client.Jobs.Recovery.Generation.{tally, decisions}
use aws_iot_device_client.Jobs.Recovery.Outcome.{generation_outcome}
use aws_iot_device_client.Jobs.Startup.{
  Completion, cancelled, run_jobs, all_queued, all_acknowledged,
}
use aws_iot_device_client.Jobs.Startup as Startup
use aws_iot_device_client.Jobs.Startup.Readiness.{run_jobs_lem}

-- The startup fails, so that all five are requested again; the third acknowledgement comes twice,
-- and the last one has an error.
abbrev answers : List Event
answers =
    subscribed true
    ∷ acknowledged 1 start_next_accepted (pos 0)
    ∷ subscribed true
    ∷ subscribed true
    ∷ subscribed true
    ∷ acknowledged 1 next_job_changed (pos 0)
    ∷ acknowledged 1 next_job_changed (pos 0)
    ∷ subscribed true
    ∷ acknowledged 1 start_next_rejected (pos 0)
    ∷ acknowledged 1 update_job_rejected (pos 0)
    ∷ acknowledged 1 update_job_accepted (pos 7)
    ∷ []

abbrev failed_startup : Event
failed_startup = startup_finished false

restarts : (step failed_startup start).0.resubscribing ≡ all_subscriptions
unfolding step locked proceed finish_startup start initial
restarts = refl

idle : start.resubscribing ≡ []
unfolding start
idle = refl

generation_outcome_example :
    let n = (step failed_startup start).0 in
    let b = tally n.recovery.generation all_subscriptions answers none_yet in
    (decisions (run answers n).1 ≡ verdict n.recovery.generation b)
    × ((run answers n).0.recovery.need_recovery ≡ (not (complete b) || any_bad b))
generation_outcome_example =
    generation_outcome start failed_startup answers idle restarts
      (tt, (tt, (tt, (tt, (tt, (tt, (tt, (tt, (tt, (tt, (tt, tt)))))))))))

run-start-Inv_example : Inv (run (failed_startup ∷ answers) start).0.recovery
run-start-Inv_example = run-start-Inv (failed_startup ∷ answers)

abbrev stopping : Machine
stopping = record {
  recovery = record {
    need_stop = true;
    jobs_client_ready = true;
    generation = 3;
    pending = 5;
    failed = false;
    completed_mask = 0;
    need_recovery = true;
  };
  resubscribing = all_subscriptions;
  resubscribe_generation = 3;
}

-- Threads that have decided on a poll and are about to ask for a retry, when the stop comes.
abbrev threads : Threads
threads = record {
  machine = stopping;
  retrying = 3 ∷ [];
  decided = publish_start_next ∷ [];
  carried = [];
  requests = [];
}

abbrev after_stop : List Threads.Event
after_stop =
    Threads.section (subscribed true)
    ∷ Threads.retry_requested 0
    ∷ Threads.carried_out 0
    ∷ Threads.section (subscribed false)
    ∷ []

abbrev never : ℕ → Bool
never i = false

abbrev every : Subscription → Bool
every sub = true

-- All acknowledge in time; then the feature is stopped, too late to matter.
abbrev in_time : ℕ → List Completion
in_time i =
    if i == 2
    then Startup.acknowledged start_next_accepted (pos 0) ∷ []
    else if i == 5
    then Startup.acknowledged next_job_changed (pos 0)
      ∷ Startup.acknowledged start_next_rejected (pos 0)
      ∷ Startup.acknowledged update_job_rejected (pos 0)
      ∷ Startup.acknowledged update_job_accepted (pos 0)
      ∷ cancelled
      ∷ []
    else []

run_jobs_example : run_jobs never every in_time ≡ some true
run_jobs_example = run_jobs_lem never every in_time
