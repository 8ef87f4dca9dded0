-- ===== src/Jobs/Startup/Readiness.antt =====
-- When the startup of the Jobs feature counts as ready.
use aws_iot_device_client.Base.{
  ℕ, ◌≡◌, Bool, true, false, ◌||◌, List, [], ◌∷◌, ◌++◌, Option, none, some, refl, sym, ◌∙◌, ap,
  arith, Bool-cases, inl, inr, if◌then◌else◌,
}
use aws_iot_device_client.Base.Int.{ℤ}
use aws_iot_device_client.Jobs.Recovery.{
  Subscription, start_next_accepted, start_next_rejected, next_job_changed, update_job_accepted,
  update_job_rejected, startup_subscription_cancelled,
}
use aws_iot_device_client.Jobs.Startup.{
  Results, no_results, same_subscription, complete_once, complete, Completion, acknowledged,
  cancelled, cancel_startup_subscription_waits, receive, request, all_acknowledged, all_queued,
  startup_results, run_jobs,
}

-- The first thing that is said to a subscription's result.
abbrev pub first : Subscription → List Completion → Option ℤ
first sub [] = none
first sub (acknowledged other io_error ∷ cs) =
    if same_subscription sub other then some io_error else first sub cs
first sub (cancelled ∷ cs) = some startup_subscription_cancelled

abbrev or_first : Option ℤ → Option ℤ → Option ℤ
or_first none w = w
or_first (some v) w = some v

cancel_lem :
    (sub : Subscription) (r : Results)
    → cancel_startup_subscription_waits r sub
      ≡ or_first (r sub) (some startup_subscription_cancelled)
unfolding cancel_startup_subscription_waits complete
cancel_lem start_next_accepted r = ground arith
cancel_lem start_next_rejected r = ground arith
cancel_lem next_job_changed r = ground arith
cancel_lem update_job_accepted r = ground arith
cancel_lem update_job_rejected r = ground arith

or_first-absorb : (o w : Option ℤ) (v : ℤ) → or_first (or_first o (some v)) w ≡ or_first o (some v)
or_first-absorb none w v = refl
or_first-absorb (some u) w v = refl

or_first-none : (o : Option ℤ) → or_first o none ≡ o
or_first-none none = refl
or_first-none (some v) = refl

once_lem :
    (b : Bool) (o w : Option ℤ) (io_error : ℤ)
    → or_first (if b then complete_once io_error o else o) w
      ≡ or_first o (if b then some io_error else w)
once_lem true none w io_error = refl
once_lem true (some v) w io_error = refl
once_lem false o w io_error = refl

unfold_ack :
    (sub other : Subscription) (io_error : ℤ) (r : Results) (w : Option ℤ)
    → or_first (complete other io_error r sub) w
      ≡ or_first (r sub) (if same_subscription sub other then some io_error else w)
unfolding complete
unfold_ack sub other io_error r w = once_lem (same_subscription sub other) (r sub) w io_error

receive_lem :
    (cs : List Completion) (r : Results) (sub : Subscription)
    → receive cs r sub ≡ or_first (r sub) (first sub cs)
unfolding receive
receive_lem [] r sub = sym (or_first-none (r sub))
receive_lem (acknowledged other io_error ∷ cs) r sub =
    receive_lem cs (complete other io_error r) sub
    ∙ (unfold_ack sub other io_error r (first sub cs))
receive_lem (cancelled ∷ cs) r sub =
    receive_lem cs (cancel_startup_subscription_waits r) sub
    ∙ (rw (cancel_lem sub r)
        (or_first-absorb (r sub) (first sub cs) startup_subscription_cancelled))

receive-append :
    (cs ds : List Completion) (r : Results) → receive (cs ++ ds) r ≡ receive ds (receive cs r)
unfolding receive
receive-append [] ds r = refl
receive-append (acknowledged other io_error ∷ cs) ds r =
    receive-append cs ds (complete other io_error r)
receive-append (cancelled ∷ cs) ds r = receive-append cs ds (cancel_startup_subscription_waits r)

-- Everything that the other threads do to the results, in order.
abbrev pub history : (ℕ → List Completion) → List Completion
history others = others 0 ++ (others 1 ++ (others 2 ++ (others 3 ++ (others 4 ++ others 5))))

abbrev pub stopped : (ℕ → Bool) → Bool
stopped stop = stop 0 || (stop 1 || (stop 2 || (stop 3 || (stop 4 || stop 5))))

request_lem : (b : Bool) (sub : Subscription) (r : Results) → b ≡ true → request b sub r ≡ r
unfolding request
request_lem b sub r h = ground (arith, h)

history_lem :
    (others : ℕ → List Completion) (r : Results)
    → receive (history others) r
      ≡ receive (others 5) (
          receive
            (others 4)
            (receive (others 3) (receive (others 2) (receive (others 1) (receive (others 0) r)))))
history_lem others r =
    receive-append (others 0) _ r
    ∙ receive-append (others 1) _ _
    ∙ receive-append (others 2) _ _
    ∙ receive-append (others 3) _ _
    ∙ receive-append (others 4) _ _

module _ (queued : Subscription → Bool) (others : ℕ → List Completion) where
  all_lem : all_queued queued ≡ true → (sub : Subscription) → queued sub ≡ true
  all_lem h start_next_accepted = ground (arith, h)
  all_lem h start_next_rejected = ground (arith, h)
  all_lem h next_job_changed = ground (arith, h)
  all_lem h update_job_accepted = ground (arith, h)
  all_lem h update_job_rejected = ground (arith, h)

  results_lem :
      all_queued queued ≡ true → startup_results queued others ≡ receive (history others) no_results
  unfolding startup_results
  results_lem h =
      let skip : (sub : Subscription) (r : Results) → request (queued sub) sub r ≡ r =
        λ sub r. request_lem (queued sub) sub r (all_lem h sub) in
      rw
        (
          skip start_next_accepted (receive (others 0) no_results),
          skip start_next_rejected _,
          skip next_job_changed _,
          skip update_job_accepted _,
          skip update_job_rejected _,
        )
        (sym (history_lem others no_results))

  first_lem :
      all_queued queued ≡ true
      → (sub : Subscription) → startup_results queued others sub ≡ first sub (history others)
  first_lem h sub = ap (λ r. r sub) (results_lem h) ∙ receive_lem (history others) no_results sub

-- Startup ends early where one of the tests of needStop succeeds. Otherwise it counts as ready
-- exactly when all five requests were queued and the first completion of each subscription, up to
-- the deadline, is an acknowledgement with code 0: a cancellation or an error that comes later, and
-- a second acknowledgement, change nothing.
pub run_jobs_lem :
    (stop : ℕ → Bool) (queued : Subscription → Bool) (others : ℕ → List Completion)
    → run_jobs stop queued others ≡ (
        if stopped stop
        then none
        else some (
            if all_queued queued
            then all_acknowledged (λ sub. first sub (history others))
            else false))
unfolding run_jobs
run_jobs_lem stop queued others = elim (Bool-cases (all_queued queued)) [
  | inl h ↦
      let f = first_lem queued others h in
      ground (
        arith,
        h,
        f start_next_accepted,
        f start_next_rejected,
        f next_job_changed,
        f update_job_accepted,
        f update_job_rejected,
      )
  | inr h ↦ ground (arith, h)
]
