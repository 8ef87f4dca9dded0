-- ===== src/Util/Retry/Limit.antt =====
-- What an exponential backoff with a retry limit does, up to its end.
use aws_iot_device_client.Base.{
  ℕ, zero, suc, ◌+◌, ◌-◌, ◌*◌, ◌≤◌, ◌<◌, ◌≡◌, refl, ap, ◌∙◌, subst, min, Bool, true, false, not,
  ◌&&◌, List, [], ◌∷◌, ◌++◌, Option, none, some, Bool-cases, ◌⊎◌, inl, inr, ltb, arith,
  if◌then◌else◌,
}
use aws_iot_device_client.Base.Int.{pos}
use aws_iot_device_client.Util.Retry.{
  ExponentialRetryConfig, Action, attempt, sleep, complete, load, may_retry, count_retry,
  next_backoff, Finished, prepend, retry_loop, exponential_backoff,
}
use aws_iot_device_client.Util.Retry.Schedule.{ended_lem, exhausted_lem}
use aws_iot_device_client.Util.Retry.Termination.{loop-Within}

-- The rest of a call with so many attempts left, and the delay that is due: attempts that fail,
-- each but the last of all followed by its delay, up to one that succeeds. It ends early, after a
-- delay, only if there is a stop flag.
abbrev pub Course : ℕ → Bool → ℕ → ℕ → List Action → Bool → Type 0
Course maximum stoppable left backoff [] successful =
    (successful ≡ false) × ((stoppable ≡ true) ⊎ (left ≡ 0))
Course maximum stoppable left backoff (attempt true ∷ rest) successful =
    (1 ≤ left) × (rest ≡ []) × (successful ≡ true)
Course maximum stoppable left backoff (attempt false ∷ []) successful =
    (left ≡ 1) × (successful ≡ false)
Course maximum stoppable left backoff (attempt false ∷ sleep d ∷ rest) successful =
    (2 ≤ left)
    × (d ≡ backoff)
    × Course maximum stoppable (left - 1) (min (backoff * 2) maximum) rest successful
Course maximum stoppable left backoff (attempt false ∷ _ ∷ rest) successful = ⊥
Course maximum stoppable left backoff (_ ∷ rest) successful = ⊥

abbrev pub has_flag : {S : Type 0} → Option (S → Bool) → Bool
has_flag none = false
has_flag (some flag) = true

load-has_flag :
    {S : Type 0} (flag : Option (S → Bool)) (w : S) → load flag w ≡ true → has_flag flag ≡ true
load-has_flag none w h = h
load-has_flag (some flag) w h = refl

next_backoff-min : (maximum backoff : ℕ) → next_backoff maximum backoff ≡ min (backoff * 2) maximum
next_backoff-min maximum backoff = elim (Bool-cases (ltb maximum (backoff * 2))) [
  | inl over ↦ ground (arith, over)
  | inr under ↦ ground (arith, under)
]

-- A round that is not entered, and one that is.
guarded_why :
    {S : Type 0} (b : Bool) (actions : List Action) (m : Option (Finished S)) (d : Finished S)
    {r : Finished S}
    → (if b then prepend actions m else some d) ≡ some r
    → ((b ≡ false) × (r.actions ≡ d.actions) × (r.successful ≡ d.successful))
      ⊎ ((b ≡ true)
          × (q : Finished S) × (m ≡ some q)
          × (r.actions ≡ actions ++ q.actions)
          × (r.successful ≡ q.successful))
guarded_why false actions m d e = inl (refl, ground arith, ground arith)
guarded_why true actions none d e = absurd (cc)
guarded_why true actions (some q) d e = inr (refl, q, refl, ground arith, ground arith)

why_not : (stop may : Bool) → (not stop && may) ≡ false → (stop ≡ true) ⊎ (may ≡ false)
why_not true may h = inl refl
why_not false may h = inr h

round-Course :
    (maximum : ℕ) (stoppable : Bool) (n retries backoff : ℕ) (ok may : Bool) (rest : List Action)
    (successful : Bool)
    → retries < n
    → may ≡ ltb (retries + 1) n
    → (ok ≡ true → (rest ≡ []) × (successful ≡ true))
    → (ok ≡ false → may ≡ false → (rest ≡ []) × (successful ≡ false))
    → (ok ≡ false
        → may ≡ true
        → Course maximum stoppable
            (n - (retries + 1))
            (next_backoff maximum backoff)
            rest
            successful)
    → Course maximum stoppable
        (n - retries)
        backoff
        (attempt ok ∷ ((if not ok && may then sleep backoff ∷ [] else []) ++ rest))
        successful
round-Course maximum stoppable n retries backoff true may rest successful h e won over again =
    let (e', s) = won refl in (omega (arith, h), e', s)
round-Course maximum stoppable n retries backoff false true rest successful h e won over again = (
  ground (arith, h, e),
  refl,
  rw (next_backoff-min maximum backoff, minus_one n retries) at again refl refl,
)
  where
    minus_one : (n retries : ℕ) → n - (retries + 1) ≡ n - retries - 1
    minus_one n retries = omega arith
round-Course maximum stoppable n retries backoff false false rest successful h e won over again =
    let (none_left, lost) = over refl refl in rw none_left (ground (arith, h, e), lost)

minus_zero :
    (n maximum : ℕ) (stoppable : Bool) (backoff : ℕ) (actions : List Action) (successful : Bool)
    → Course maximum stoppable (n - 0) backoff actions successful
    → Course maximum stoppable n backoff actions successful
minus_zero n maximum stoppable backoff actions successful h =
    subst (λ k. Course maximum stoppable k backoff actions successful) (all_left n) h
  where
    all_left : (n : ℕ) → n - 0 ≡ n
    all_left n = omega arith

module _ {S : Type 0} (retryable : S → Bool × S) (pass : ℕ → S → S)
    (config : ExponentialRetryConfig S) (n : ℕ) (finite : config.max_retries ≡ pos n) where
  may_lem : (retries : ℕ) → may_retry config.max_retries retries ≡ ltb retries n
  may_lem retries = rw finite refl

  count_lem : (retries : ℕ) → count_retry config.max_retries retries ≡ retries + 1
  count_lem retries = rw finite refl

  spent : (retries : ℕ) → may_retry config.max_retries retries ≡ false → n - retries ≡ 0
  spent retries h = ground (arith, may_lem retries, h)

  entered :
      (stop : Bool) (retries : ℕ)
      → (not stop && may_retry config.max_retries retries) ≡ true
      → retries < n
  entered true retries h = absurd (cc)
  entered false retries h = ground (arith, may_lem retries, h)

  ap_count :
      (retries b : ℕ) (actions : List Action) (s : Bool)
      → Course config.max_backoff_millis
          (has_flag config.need_stop_flag)
          (n - count_retry config.max_retries retries)
          b
          actions
          s
      → Course config.max_backoff_millis
          (has_flag config.need_stop_flag)
          (n - (retries + 1))
          b
          actions
          s
  ap_count retries b actions s h = rw (count_lem retries) at h

  loop-Course :
      (fuel : ℕ) (stop : Bool) (backoff retries : ℕ) (w : S) {r : Finished S}
      → (stop ≡ true → has_flag config.need_stop_flag ≡ true)
      → retry_loop retryable pass config fuel false stop backoff retries w ≡ some r
      → Course config.max_backoff_millis
          (has_flag config.need_stop_flag)
          (n - retries)
          backoff
          r.actions
          r.successful
  unfolding retry_loop
  loop-Course zero stop backoff retries w flagged e = absurd (cc)
  loop-Course (suc fuel) stop backoff retries w {r} flagged e =
      let may : Bool = may_retry config.max_retries (count_retry config.max_retries retries) in
      elim (guarded_why _
        (attempt (retryable w).0 ∷ (if not (retryable w).0 && may then sleep backoff ∷ [] else []))
        _ (record { world = w; successful = false; actions = [] }) e) [
          | inl (idle, none_left, lost) ↦
              rw (none_left, lost)
                (
                  refl,
                  elim (why_not _ _ idle) [
                    | inl stopped ↦ inl (flagged stopped)
                    | inr over ↦ inr (spent retries over)
                  ],
                )
          | inr (goes, q, f, a, b) ↦
              rw (a, b)
                (round-Course config.max_backoff_millis (has_flag config.need_stop_flag) n retries
                  backoff (retryable w).0 may q.actions q.successful (entered stop retries goes)
                  (may_lem _ ∙ ap (λ k. ltb k n) (count_lem retries))
                  (λ won. ended_lem retryable pass config fuel _ _ _ _ (rw won at f))
                  (λ lost over.
                    exhausted_lem retryable pass config fuel _ _ _ _ over (rw (lost, over) at f))
                  (λ lost again. ap_count retries _ _ _ (
                    loop-Course fuel _ _ _ _ (load-has_flag config.need_stop_flag _)
                      (rw (lost, again) at f))))
        ]

  -- With a retry limit n the call returns, and a fuel above n is enough. It runs its completion
  -- callback once, after everything else. Before that it makes attempts that fail, with a delay
  -- between two of them, up to one that succeeds, which it reports, or to the n-th, after which it
  -- reports the failure; only with a stop flag it may end earlier, before the first attempt or
  -- after a delay. The first delay is the starting one, each further one twice the one before, up
  -- to the maximum.
  pub backoff-Course :
      (fuel : ℕ) (on_complete : S → S) (w : S)
      → n < fuel
      → (r : Finished S) × (actions : List Action) × (exponential_backoff retryable pass config fuel
            on_complete w
          ≡ some r)
        × (r.actions ≡ actions ++ complete ∷ [])
        × Course config.max_backoff_millis
            (has_flag config.need_stop_flag)
            n
            config.starting_backoff_millis
            actions
            r.successful
  unfolding exponential_backoff
  backoff-Course fuel on_complete w h = elim (Bool-cases (load config.need_stop_flag w)) [
    | inl stopped ↦ (
      record { world = on_complete w; successful = false; actions = complete ∷ [] },
      [],
      rw stopped,
      refl,
      (refl, inl (load-has_flag config.need_stop_flag w stopped)),
    )
    | inr runs ↦
        let l =
          loop-Within retryable pass config n finite fuel false false config.starting_backoff_millis
            0 w (omega (arith, h)) in
        let q : Finished S = l.result in
        (
          record {
            world = on_complete q.world;
            successful = q.successful;
            actions = q.actions ++ complete ∷ [];
          },
          q.actions,
          rw (runs, l.found),
          refl,
          minus_zero n _ _ _ _ _ (
              loop-Course fuel false config.starting_backoff_millis 0 w (λ e. absurd (cc)) l.found),
        )
  ]
