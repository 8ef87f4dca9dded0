-- ===== src/Util/Retry/Termination.antt =====
-- The exponential backoff returns: after `maxRetries` attempts at most, or, if that is negative,
-- once an attempt succeeds.
use aws_iot_device_client.Base.{
  ℕ, zero, suc, ◌+◌, ◌-◌, ◌≤◌, ◌<◌, ◌≡◌, refl, Bool, true, false, not, ◌&&◌, List, [], ◌∷◌, ◌++◌,
  Option, none, some, Bool-cases, ◌⊎◌, inl, inr, arith, if◌then◌else◌,
}
use aws_iot_device_client.Base.Int.{pos, negsuc}
use aws_iot_device_client.Util.Retry.{
  ExponentialRetryConfig, Action, attempt, sleep, complete, load, may_retry, count_retry,
  next_backoff, Finished, prepend, retry_loop, exponential_backoff,
}

abbrev pub attempts : List Action → ℕ
attempts [] = 0
attempts (attempt ok ∷ actions) = suc (attempts actions)
attempts (sleep d ∷ actions) = attempts actions
attempts (complete ∷ actions) = attempts actions

attempts-append : (xs ys : List Action) → attempts (xs ++ ys) ≡ attempts xs + attempts ys
attempts-append [] ys = omega arith
attempts-append (attempt ok ∷ xs) ys = omega (arith, attempts-append xs ys)
attempts-append (sleep d ∷ xs) ys = attempts-append xs ys
attempts-append (complete ∷ xs) ys = attempts-append xs ys

attempts_round :
    (ok b : Bool) (d : ℕ) (rest : List Action)
    → attempts ((attempt ok ∷ (if b then sleep d ∷ [] else [])) ++ rest) ≡ suc (attempts rest)
attempts_round ok true d rest = refl
attempts_round ok false d rest = refl

-- A finished loop with at most `n` attempts.
pub record Within {S : Type 0} (n : ℕ) (m : Option (Finished S)) : Type 0 where
  pub result : Finished S
  pub found : m ≡ some result
  pub bounded : attempts result.actions ≤ n

guarded-Within :
    {S : Type 0} (b g : Bool) (ok : Bool) (d n : ℕ) (m : Option (Finished S)) (r : Finished S)
    → r.actions ≡ []
    → (g ≡ true → (k : ℕ) × (n ≡ suc k) × Within k m)
    → Within n (if g then prepend (attempt ok ∷ (if b then sleep d ∷ [] else [])) m else some r)
guarded-Within b false ok d n m r e h = record {
  result = r;
  found = refl;
  bounded = ground (arith, e);
}
guarded-Within b true ok d n m r e h =
    let (k, p, w) = h refl in
    let actions = attempt ok ∷ (if b then sleep d ∷ [] else []) in
    record {
      result = record w.result { actions = actions ++ w.result.actions };
      found = rw w.found;
      bounded = omega (arith, attempts_round ok b d w.result.actions, p, w.bounded);
    }

module _ {S : Type 0} (retryable : S → Bool × S) (pass : ℕ → S → S)
    (config : ExponentialRetryConfig S) (n : ℕ) (finite : config.max_retries ≡ pos n) where
  budget :
      (g : Bool) (stop succ : Bool) (retries : ℕ)
      → (not succ && (not stop && may_retry config.max_retries retries)) ≡ true
      → (n - retries ≡ suc (n - count_retry config.max_retries retries))
  budget g stop succ retries h = rw finite (ground (arith, finite))

  pub loop-Within :
      (fuel : ℕ) (succ stop : Bool) (backoff retries : ℕ) (w : S)
      → n - retries < fuel
      → Within (n - retries) (retry_loop retryable pass config fuel succ stop backoff retries w)
  unfolding retry_loop
  loop-Within zero succ stop backoff retries w h = absurd (omega arith)
  loop-Within (suc fuel) succ stop backoff retries w h = guarded-Within _ _ _ _ _ _ _ refl λ g. (
    n - count_retry config.max_retries retries,
    budget true stop succ retries g,
    loop-Within fuel _ _ _ _ _ (omega (arith, budget true stop succ retries g)),
  )

  pub backoff-returns :
      (fuel : ℕ) (on_complete : S → S) (w : S)
      → n < fuel
      → (r : Finished S) × (exponential_backoff retryable pass config fuel on_complete w ≡ some r)
        × (attempts r.actions ≤ n)
  unfolding exponential_backoff
  backoff-returns fuel on_complete w h = elim (Bool-cases (load config.need_stop_flag w)) [
    | inl stopped ↦ (
      record { world = on_complete w; successful = false; actions = complete ∷ [] },
      rw stopped,
      omega arith,
    )
    | inr runs ↦
        let l = loop-Within fuel false false config.starting_backoff_millis 0 w (omega arith) in
        let q : Finished S = l.result in
        (
          record {
            world = on_complete q.world;
            successful = q.successful;
            actions = q.actions ++ complete ∷ [];
          },
          rw (runs, l.found),
          omega (arith, attempts-append q.actions (complete ∷ []), l.bounded),
        )
  ]

-- The attempt that succeeds is at most the `k`-th after this one, if none but the retried function
-- and the sleeps change the world.
abbrev pub SucceedsWithin : {S : Type 0} → (S → Bool × S) → (ℕ → S → S) → ℕ → ℕ → ℕ → S → Type 0
SucceedsWithin retryable pass limit zero backoff w = (retryable w).0 ≡ true
SucceedsWithin retryable pass limit (suc k) backoff w =
    ((retryable w).0 ≡ true)
    ⊎ SucceedsWithin retryable pass limit k (next_backoff limit backoff)
        (pass backoff (retryable w).1)

-- A finished loop that succeeded.
abbrev Succeeds : {S : Type 0} → Option (Finished S) → Type 0
Succeeds {S} m = (r : Finished S) × (m ≡ some r) × (r.successful ≡ true)

prepend-Succeeds :
    {S : Type 0} (actions : List Action) (m : Option (Finished S))
    → Succeeds m
    → Succeeds (prepend actions m)
prepend-Succeeds actions m (r, e, h) = (record r { actions = actions ++ r.actions }, rw e, h)

module _ {S : Type 0} (retryable : S → Bool × S) (pass : ℕ → S → S)
    (config : ExponentialRetryConfig S) (n : ℕ) (infinite : config.max_retries ≡ negsuc n)
    (no_flag : config.need_stop_flag ≡ none) where
  lost_round :
      (fuel backoff retries : ℕ) (w : S)
      → (retryable w).0 ≡ false
      → retry_loop retryable pass config (suc fuel) false false backoff retries w
        ≡ prepend (attempt false ∷ sleep backoff ∷ []) (
            retry_loop retryable pass config fuel false false
              (next_backoff config.max_backoff_millis backoff)
              retries
              (pass backoff (retryable w).1))
  unfolding retry_loop
  lost_round fuel backoff retries w lost = ground (arith, infinite, no_flag, lost)

  won_round :
      (fuel backoff retries : ℕ) (w : S)
      → (retryable w).0 ≡ true
      → Succeeds (retry_loop retryable pass config (suc (suc fuel)) false false backoff retries w)
  unfolding retry_loop
  won_round fuel backoff retries w won =
      rw (infinite, won) (prepend-Succeeds (attempt true ∷ []) _ (_, refl, refl))

  loop-Succeeds :
      (k backoff retries : ℕ) (w : S)
      → SucceedsWithin retryable pass config.max_backoff_millis k backoff w
      → Succeeds (retry_loop retryable pass config (suc (suc k)) false false backoff retries w)
  loop-Succeeds zero backoff retries w h = won_round zero backoff retries w h
  loop-Succeeds (suc k) backoff retries w h = elim (Bool-cases (retryable w).0) [
    | inl won ↦ won_round (suc k) backoff retries w won
    | inr lost ↦ elim h [
      | inl won ↦ won_round (suc k) backoff retries w won
      | inr later ↦ rw (lost_round (suc (suc k)) backoff retries w lost) (
          prepend-Succeeds (attempt false ∷ sleep backoff ∷ []) _ (
            loop-Succeeds k (next_backoff config.max_backoff_millis backoff) retries
              (pass backoff (retryable w).1) later))
    ]
  ]

  -- With a negative retry limit and no stop flag the call retries until the function succeeds: if
  -- it would at the k-th attempt after the first, the call returns true.
  pub backoff-succeeds :
      (k : ℕ) (on_complete : S → S) (w : S)
      → SucceedsWithin retryable pass config.max_backoff_millis k config.starting_backoff_millis w
      → (r : Finished S) × (exponential_backoff retryable pass config (suc (suc k)) on_complete w
          ≡ some r)
        × (r.successful ≡ true)
  unfolding exponential_backoff
  backoff-succeeds k on_complete w h =
      let (q, e, s) = loop-Succeeds k config.starting_backoff_millis 0 w h in
      (
        record {
          world = on_complete q.world;
          successful = q.successful;
          actions = q.actions ++ complete ∷ [];
        },
        ground (arith, no_flag, e),
        s,
      )
