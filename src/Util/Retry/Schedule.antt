-- ===== src/Util/Retry/Schedule.antt =====
-- What a finished exponential backoff has done: the attempts, and the delays between them.

use native.Mathlib.Nat.{pow-suc}
use aws_iot_device_client.Base.{
  ℕ, zero, suc, ◌*◌, ◌^◌, ◌≤◌, ◌<◌, ◌≡◌, refl, ◌∙◌, ap, subst, min, Bool, true, false, not, ◌&&◌,
  List, [], ◌∷◌, ◌++◌, Option, none, some, get_elem?, Option-cases, Bool-cases, ◌⊎◌, inl, inr, ltb,
  ltb→lt, arith, if◌then◌else◌,
}
use aws_iot_device_client.Util.Retry.{
  ExponentialRetryConfig, Action, attempt, sleep, complete, load, may_retry, count_retry,
  next_backoff, Finished, prepend, retry_loop, exponential_backoff,
}

-- Attempts that fail, each followed by the delay that is due, up to one that succeeds or after
-- which the loop gives up.
abbrev pub Attempts : ℕ → ℕ → List Action → Bool → Type 0
Attempts limit backoff [] successful = successful ≡ false
Attempts limit backoff (attempt true ∷ rest) successful = (rest ≡ []) × (successful ≡ true)
Attempts limit backoff (attempt false ∷ []) successful = successful ≡ false
Attempts limit backoff (attempt false ∷ sleep d ∷ rest) successful =
    (d ≡ backoff) × Attempts limit (next_backoff limit backoff) rest successful
Attempts limit backoff (attempt false ∷ _ ∷ rest) successful = ⊥
Attempts limit backoff (_ ∷ rest) successful = ⊥

abbrev pub delay : ℕ → ℕ → ℕ → ℕ
delay limit backoff zero = backoff
delay limit backoff (suc i) = delay limit (next_backoff limit backoff) i

abbrev pub sleeps : List Action → List ℕ
sleeps [] = []
sleeps (attempt ok ∷ actions) = sleeps actions
sleeps (sleep d ∷ actions) = d ∷ sleeps actions
sleeps (complete ∷ actions) = sleeps actions

-- The two ways in which a round that goes on can end well.
guarded_lem :
    {S : Type 0} (b : Bool) (actions : List Action) (m : Option (Finished S)) (d : Finished S)
    {r : Finished S}
    → (if b then prepend actions m else some d) ≡ some r
    → ((r.actions ≡ d.actions) × (r.successful ≡ d.successful))
      ⊎ ((q : Finished S) × (m ≡ some q)
          × (r.actions ≡ actions ++ q.actions)
          × (r.successful ≡ q.successful))
guarded_lem false actions m d e = ground arith
guarded_lem true actions none d e = absurd (cc)
guarded_lem true actions (some q) d e = inr (q, refl, ground arith, ground arith)

round_Attempts :
    (limit backoff : ℕ) (ok may : Bool) (rest : List Action) (successful : Bool)
    → (ok ≡ true → (rest ≡ []) × (successful ≡ true))
    → (ok ≡ false → may ≡ false → (rest ≡ []) × (successful ≡ false))
    → (ok ≡ false → may ≡ true → Attempts limit (next_backoff limit backoff) rest successful)
    → Attempts limit backoff
        (attempt ok ∷ ((if not ok && may then sleep backoff ∷ [] else []) ++ rest))
        successful
round_Attempts limit backoff true may rest successful won over again = won refl
round_Attempts limit backoff false true rest successful won over again = (refl, again refl refl)
round_Attempts limit backoff false false rest successful won over again =
    let (e, lost) = over refl refl in rw e lost

module _ {S : Type 0} (retryable : S → Bool × S) (pass : ℕ → S → S)
    (config : ExponentialRetryConfig S) where
  pub ended_lem :
      (fuel : ℕ) (stop : Bool) (backoff retries : ℕ) (w : S) {r : Finished S}
      → retry_loop retryable pass config fuel true stop backoff retries w ≡ some r
      → (r.actions ≡ []) × (r.successful ≡ true)
  unfolding retry_loop
  ended_lem zero stop backoff retries w e = absurd (cc)
  ended_lem (suc fuel) stop backoff retries w e = ground arith

  pub exhausted_lem :
      (fuel : ℕ) (stop : Bool) (backoff retries : ℕ) (w : S) {r : Finished S}
      → may_retry config.max_retries retries ≡ false
      → retry_loop retryable pass config fuel false stop backoff retries w ≡ some r
      → (r.actions ≡ []) × (r.successful ≡ false)
  unfolding retry_loop
  exhausted_lem zero stop backoff retries w h e = absurd (cc)
  exhausted_lem (suc fuel) stop backoff retries w h e = ground arith

  -- One round of the loop, and what the rounds after it leave.
  round_lem :
      (fuel : ℕ) (stop : Bool) (backoff retries : ℕ) (w : S) {r : Finished S}
      → retry_loop retryable pass config (suc fuel) false stop backoff retries w ≡ some r
      → let v = (retryable w).1 in
        let tried = count_retry config.max_retries retries in
        let again = not (retryable w).0 && may_retry config.max_retries tried in
        let u = if again then pass backoff v else v in
        let next = if again then next_backoff config.max_backoff_millis backoff else backoff in
        ((r.actions ≡ []) × (r.successful ≡ false))
        ⊎ ((q : Finished S) × (retry_loop retryable pass config fuel
                (retryable w).0
                (load config.need_stop_flag u)
                next
                tried
                u
              ≡ some q)
            × (r.actions
                ≡ attempt (retryable w).0
                  ∷ ((if again then sleep backoff ∷ [] else []) ++ q.actions))
            × (r.successful ≡ q.successful))
  unfolding retry_loop
  round_lem fuel stop backoff retries w {r} e =
      let may : Bool = may_retry config.max_retries (count_retry config.max_retries retries) in
      guarded_lem _
        (attempt (retryable w).0 ∷ (if not (retryable w).0 && may then sleep backoff ∷ [] else []))
        _ (record { world = w; successful = false; actions = [] }) e

  loop-Attempts :
      (fuel : ℕ) (stop : Bool) (backoff retries : ℕ) (w : S) {r : Finished S}
      → retry_loop retryable pass config fuel false stop backoff retries w ≡ some r
      → Attempts config.max_backoff_millis backoff r.actions r.successful
  loop-Attempts zero stop backoff retries w e = absurd (unfold retry_loop in cc)
  loop-Attempts (suc fuel) stop backoff retries w {r} e =
      elim (round_lem fuel stop backoff retries w e) [
        | inl (none', lost) ↦ rw (none', lost)
        | inr (q, f, a, b) ↦
            rw (a, b)
              (round_Attempts config.max_backoff_millis backoff (retryable w).0
                (may_retry config.max_retries (count_retry config.max_retries retries)) q.actions
                q.successful (λ won. ended_lem fuel _ _ _ _ (rw won at f))
                (λ lost over. exhausted_lem fuel _ _ _ _ over (rw (lost, over) at f))
                (λ lost again. loop-Attempts fuel _ _ _ _ (rw (lost, again) at f)))
      ]

  -- A call that returns has run its completion callback once, after everything else; before that
  -- it has made attempts that failed, with the delays that were due between them, up to the one
  -- whose success it reports, if any.
  pub backoff-Attempts :
      (fuel : ℕ) (on_complete : S → S) (w : S) {r : Finished S}
      → exponential_backoff retryable pass config fuel on_complete w ≡ some r
      → (actions : List Action) × (r.actions ≡ actions ++ complete ∷ [])
        × Attempts config.max_backoff_millis config.starting_backoff_millis actions r.successful
  unfolding exponential_backoff
  backoff-Attempts fuel on_complete w {r} e = elim (Bool-cases (load config.need_stop_flag w)) [
    | inl stopped ↦ ([], ground arith, ground arith)
    | inr runs ↦
        elim (Option-cases
          (retry_loop retryable pass config fuel false false config.starting_backoff_millis 0 w)) [
            | inl out ↦ absurd (ground (arith, out, runs))
            | inr (q, f) ↦
                let a = loop-Attempts fuel false config.starting_backoff_millis 0 w f in
                let b : q.successful ≡ r.successful = ground (arith, runs, f) in
                (q.actions, ground (arith, runs, f), rw b at a)
          ]
  ]

two_pow_pos : (i : ℕ) → 0 < 2 ^ i
two_pow_pos zero = omega arith
two_pow_pos (suc i) = omega (arith, two_pow_pos i, pow-suc 2 i)

le-mul : (n p : ℕ) → 0 < p → n ≤ n * p
le-mul n p h = grind arith

double_pow : (b i : ℕ) → b * 2 * 2 ^ i ≡ b * 2 ^ suc i
double_pow b i = omega (arith, ap (λ (t : ℕ). b * t) (pow-suc 2 i))

next_lem :
    (limit b p q : ℕ) → 0 < p → b * 2 * p ≡ q → min (next_backoff limit b * p) limit ≡ min q limit
next_lem limit b p q h e = elim (Bool-cases (ltb limit (b * 2))) [
  | inl over ↦
      rw over (omega (arith, le-mul limit p h, le-mul (b * 2) p h, ltb→lt limit (b * 2) over, e))
  | inr under ↦ rw (under, e)
]

next-le : (limit b : ℕ) → next_backoff limit b ≤ limit
next-le limit b = ground arith

-- The i-th delay, in closed form.
delay_lem :
    (limit backoff i : ℕ) → backoff ≤ limit → delay limit backoff i ≡ min (backoff * 2 ^ i) limit
delay_lem limit backoff zero h = omega arith
delay_lem limit backoff (suc i) h =
    delay_lem limit (next_backoff limit backoff) i (next-le limit backoff)
    ∙ next_lem limit backoff (2 ^ i) (backoff * 2 ^ suc i) (two_pow_pos i) (double_pow backoff i)

sleeps_nil : (rest : List Action) (i d : ℕ) → rest ≡ [] → get_elem? (sleeps rest) i ≡ some d → ⊥
sleeps_nil rest i d e f = absurd (no_elem (subst (λ l. get_elem? (sleeps l) i ≡ some d) e f))
  where
    no_elem : get_elem? {A = ℕ} [] i ≡ some d → ⊥
    no_elem h = cc

sleeps-delay :
    (limit backoff : ℕ) (actions : List Action) (successful : Bool) (i d : ℕ)
    → Attempts limit backoff actions successful
    → get_elem? (sleeps actions) i ≡ some d
    → d ≡ delay limit backoff i
sleeps-delay limit backoff [] successful i d a e = absurd (cc)
sleeps-delay limit backoff (attempt true ∷ rest) successful i d a e =
    absurd (sleeps_nil rest i d a.0 e)
sleeps-delay limit backoff (attempt false ∷ []) successful i d a e = absurd (cc)
sleeps-delay limit backoff (attempt false ∷ sleep b ∷ rest) successful zero d a e = ground arith
sleeps-delay limit backoff (attempt false ∷ sleep b ∷ rest) successful (suc i) d a e =
    sleeps-delay limit (next_backoff limit backoff) rest successful i d a.1 e
sleeps-delay limit backoff (attempt false ∷ attempt x ∷ rest) successful i d a e = absurd a
sleeps-delay limit backoff (attempt false ∷ complete ∷ rest) successful i d a e = absurd a
sleeps-delay limit backoff (sleep b ∷ rest) successful i d a e = absurd a
sleeps-delay limit backoff (complete ∷ rest) successful i d a e = absurd a

sleeps-complete : (actions : List Action) → sleeps (actions ++ complete ∷ []) ≡ sleeps actions
sleeps-complete [] = refl
sleeps-complete (attempt ok ∷ actions) = sleeps-complete actions
sleeps-complete (sleep d ∷ actions) = ap (◌∷◌ d) (sleeps-complete actions)
sleeps-complete (complete ∷ actions) = sleeps-complete actions

-- Where the starting delay is not above the maximum, the i-th sleep of a call lasts
-- min(start * 2 ^ i, maximum) milliseconds.
pub sleep_schedule :
    {S : Type 0} (retryable : S → Bool × S) (pass : ℕ → S → S) (config : ExponentialRetryConfig S)
    (fuel : ℕ) (on_complete : S → S) (w : S) (i d : ℕ) {r : Finished S}
    → config.starting_backoff_millis ≤ config.max_backoff_millis
    → exponential_backoff retryable pass config fuel on_complete w ≡ some r
    → get_elem? (sleeps r.actions) i ≡ some d
    → d ≡ min (config.starting_backoff_millis * 2 ^ i) config.max_backoff_millis
sleep_schedule retryable pass config fuel on_complete w i d {r} h e f =
    let (actions, shape, a) = backoff-Attempts retryable pass config fuel on_complete w e in
    sleeps-delay config.max_backoff_millis config.starting_backoff_millis actions r.successful i d a
      (rw (shape, sleeps-complete actions) at f)
    ∙ delay_lem config.max_backoff_millis config.starting_backoff_millis i h
