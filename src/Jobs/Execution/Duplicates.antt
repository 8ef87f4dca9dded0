-- ===== src/Jobs/Execution/Duplicates.antt =====
-- Which of the notified jobs are started.
use aws_iot_device_client.Base.{
  ◌≡◌, Bool, true, false, not, ◌&&◌, List, [], ◌∷◌, Option, none, some, Text, text_eq, refl, sym,
  ap, arith, Bool-cases, Option-cases, inl, inr, All, ◌∙◌, if◌then◌else◌,
}
use aws_iot_device_client.Base.Int.{ℤ, is_zero, int_eq}
use aws_iot_device_client.Jobs.Execution.{
  JobExecutionData, Notifications, is_latest, try_start_job, received_handler,
}

abbrev Key : Type 0
Key = Text × ℤ

-- A message, and what the handler reads of the feature when it arrives.
pub record Note (D : Type 0) : Type 0 where
  pub execution : Option (JobExecutionData D)
  pub io_error : ℤ
  pub need_stop : Bool
  pub ready : Bool

abbrev both : Option Text → Option ℤ → Option Key
both none number = none
both (some id) none = none
both (some id) (some number) = some (id, number)

abbrev key : {D : Type 0} → Option (JobExecutionData D) → Option Key
key none = none
key (some job) = both job.job_id job.execution_number

abbrev pub has_key : {D : Type 0} → Note D → Bool
has_key n = elim n.execution [
  | none ↦ true
  | some job ↦ elim (both job.job_id job.execution_number) [ none ↦ false | some k ↦ true ]
]

abbrev pub cons_if : Bool → Option Key → List Key → List Key
cons_if b none ks = ks
cons_if b (some k) ks = if b then k ∷ ks else ks

-- The jobs that are started over a sequence of messages.
abbrev pub run : {D : Type 0} → List (Note D) → Notifications → Option (List Key × Notifications)
run [] s = some ([], s)
run (n ∷ ns) s = elim (received_handler n.execution n.io_error n.need_stop n.ready s) [
  | none ↦ none
  | some (starts, t) ↦ elim (run ns t) [
    | none ↦ none
    | some (ks, u) ↦ some (cons_if starts (key n.execution) ks, u)
  ]
]

-- The jobs that arrive while the feature runs and its subscriptions are ready.
abbrev pub arrivals : {D : Type 0} → List (Note D) → List Key
arrivals [] = []
arrivals (n ∷ ns) =
    cons_if (is_zero n.io_error && (not n.need_stop && n.ready)) (key n.execution) (arrivals ns)

abbrev same_key : Option Key → Key → Bool
same_key none k = false
same_key (some (id, number)) k = text_eq k.0 id && int_eq k.1 number

-- Each run of equal keys counts once, and one that continues `latest` does not count.
abbrev pub destutter : Option Key → List Key → List Key
destutter latest [] = []
destutter latest (k ∷ ks) =
    if same_key latest k then destutter latest ks else k ∷ destutter (some k) ks

abbrev pub latest_key : Notifications → Option Key
latest_key s = both s.latest_job_id s.latest_execution_number

is_latest_lem :
    (id : Text) (number : ℤ) (s : Notifications)
    → is_latest id number s ≡ same_key (latest_key s) (id, number)
is_latest_lem id number s = elim (Option-cases s.latest_job_id) [
  | inl gone ↦ ground (arith, gone)
  | inr (i, found) ↦ elim (Option-cases s.latest_execution_number) [
    | inl gone ↦ ground (arith, found, gone)
    | inr (n, known) ↦ ground (arith, found, known)
  ]
]

abbrev counts : ℤ → Bool → Bool → Bool
counts io_error need_stop ready = is_zero io_error && (not need_stop && ready)

abbrev begun : Text → ℤ → Notifications
begun id number = record {
  handling_job = true;
  latest_job_id = some id;
  latest_execution_number = some number;
}

module _ {D : Type 0} where
  ready_lem :
      (job : JobExecutionData D) (io_error : ℤ) (need_stop ready : Bool) (s : Notifications)
      → received_handler (some job) io_error need_stop ready s
        ≡ (if counts io_error need_stop ready then try_start_job job s else some (false, s))
  unfolding received_handler
  ready_lem job io_error need_stop ready s = ground arith

  try_start_lem :
      (job : JobExecutionData D) (id : Text) (number : ℤ) (s : Notifications)
      → job.job_id ≡ some id
      → job.execution_number ≡ some number
      → try_start_job job s ≡ (
          if same_key (latest_key s) (id, number)
          then some (false, s)
          else some (true, begun id number))
  unfolding try_start_job
  try_start_lem job id number s h k = ground (arith, h, k, is_latest_lem id number s)

  -- What one message does, by its key.
  abbrev Does : Option (JobExecutionData D) → ℤ → Bool → Bool → Notifications → List Key → Type 0
  Does ex io_error need_stop ready s ks =
      (starts : Bool) × ((t : Notifications) × ((received_handler ex io_error need_stop ready s
            ≡ some (starts, t))
          × (destutter (latest_key s) (cons_if (counts io_error need_stop ready) (key ex) ks)
              ≡ cons_if starts (key ex) (destutter (latest_key t) ks))))

  known_lem :
      (job : JobExecutionData D) (id : Text) (number : ℤ) (io_error : ℤ) (need_stop ready : Bool)
      (s : Notifications) (ks : List Key)
      → job.job_id ≡ some id
      → job.execution_number ≡ some number
      → Does (some job) io_error need_stop ready s ks
  known_lem job id number io_error need_stop ready s ks h k =
      elim (Bool-cases (counts io_error need_stop ready)) [
        | inl open_now ↦ elim (Bool-cases (same_key (latest_key s) (id, number))) [
          | inl same ↦ (
            false,
            (
              s,
              (
                ready_lem job io_error need_stop ready s
                    ∙ (rw open_now (try_start_lem job id number s h k ∙ (rw same refl))),
                rw (open_now, h, k) (rw same refl),
              ),
            ),
          )
          | inr fresh ↦ (
            true,
            (
              begun id number,
              (
                ready_lem job io_error need_stop ready s
                    ∙ (rw open_now (try_start_lem job id number s h k ∙ (rw fresh refl))),
                rw (open_now, h, k) (rw fresh refl),
              ),
            ),
          )
        ]
        | inr shut ↦ (
          false,
          (s, (ready_lem job io_error need_stop ready s ∙ (rw shut refl), rw (shut, h, k) refl)),
        )
      ]

  received_lem :
      (ex : Option (JobExecutionData D)) (io_error : ℤ) (need_stop ready : Bool) (s : Notifications)
      (ks : List Key)
      → has_key {D = D}
          (record { execution = ex; io_error = io_error; need_stop = need_stop; ready = ready })
        ≡ true
      → Does ex io_error need_stop ready s ks
  unfolding received_handler
  received_lem none io_error need_stop ready s ks h = (false, (s, (ground arith, refl)))
  received_lem (some job) io_error need_stop ready s ks h = elim (Option-cases job.job_id) [
    | inl gone ↦ absurd (ground (arith, gone, h))
    | inr (id, found) ↦ elim (Option-cases job.execution_number) [
      | inl gone ↦ absurd (ground (arith, found, gone, h))
      | inr (number, known) ↦ known_lem job id number io_error need_stop ready s ks found known
    ]
  ]

  run-cons :
      (n : Note D) (ns : List (Note D)) (s t u : Notifications) {starts : Bool} {ks : List Key}
      → received_handler n.execution n.io_error n.need_stop n.ready s ≡ some (starts, t)
      → run ns t ≡ some (ks, u)
      → run (n ∷ ns) s ≡ some (cons_if starts (key n.execution) ks, u)
  run-cons n ns s t u e g = ground (arith, e, g)

  -- Over any sequence of messages that give each job its id and its execution number, the jobs that
  -- are started are those that arrive without an error while the feature is not stopped and its
  -- subscriptions are ready, in order, and each run of messages about one execution of a job starts
  -- it once.
  pub run_lem :
      (ns : List (Note D)) (s : Notifications)
      → All (λ n. has_key n ≡ true) ns
      → (t : Notifications) × (run ns s ≡ some (destutter (latest_key s) (arrivals ns), t))
  run_lem [] s h = (s, refl)
  run_lem (n ∷ ns) s (now, later) =
      let (starts, (t, (e, f))) =
        received_lem n.execution n.io_error n.need_stop n.ready s (arrivals ns) now in
      let (u, g) = run_lem ns t later in
      (u, run-cons n ns s t u e g ∙ ap (λ l. some (l, u)) (sym f))
