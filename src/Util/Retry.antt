-- ===== src/Util/Retry.antt =====
-- util/Retry.cpp: Retry::exponentialBackoff. The world `S` is what the retried function, the sleep
-- and the other threads act on; the stop flag is read from it. The delays are `long` values, not
-- negative; doubling is exact, as it is in C++ below LONG_MAX / 2. A null callback is the identity.
pub mod Schedule
pub mod Termination
pub mod Limit
use aws_iot_device_client.Base.{
  ℕ, zero, suc, ◌+◌, ◌*◌, Bool, true, false, not, ◌&&◌, ◌||◌, List, [], ◌∷◌, ◌++◌, Option, none,
  some, ltb, if◌then◌else◌,
}
use aws_iot_device_client.Base.Int.{ℤ, pos, negsuc}

-- ExponentialRetryConfig.
pub record ExponentialRetryConfig (S : Type 0) : Type 0 where
  pub starting_backoff_millis : ℕ
  pub max_backoff_millis : ℕ
  pub max_retries : ℤ
  pub need_stop_flag : Option (S → Bool)

-- What the call does, in order.
pub data Action : Type 0 where
  attempt : Bool → Action
  sleep : ℕ → Action
  complete : Action

abbrev pub load : {S : Type 0} → Option (S → Bool) → S → Bool
load none w = false
load (some flag) w = flag w

-- `config.maxRetries < 0 || retriesSoFar < config.maxRetries`
abbrev pub may_retry : ℤ → ℕ → Bool
may_retry (negsuc n) retries = true
may_retry (pos n) retries = ltb retries n

abbrev pub count_retry : ℤ → ℕ → ℕ
count_retry (negsuc n) retries = retries
count_retry (pos n) retries = retries + 1

-- `backoffMillis * 2 > config.maxBackoffMillis ? config.maxBackoffMillis : backoffMillis * 2`
abbrev pub next_backoff : ℕ → ℕ → ℕ
next_backoff cap backoff = if ltb cap (backoff * 2) then cap else backoff * 2

-- What a finished loop leaves: the world, `successful`, and the actions.
pub record Finished (S : Type 0) : Type 0 where
  pub world : S
  pub successful : Bool
  pub actions : List Action

module _ {S : Type 0} where
  abbrev pub prepend : List Action → Option (Finished S) → Option (Finished S)
  prepend actions none = none
  prepend actions (some r) = some (record r { actions = actions ++ r.actions })

  module _ (retryable : S → Bool × S) (pass : ℕ → S → S) (config : ExponentialRetryConfig S) where
    -- The while loop; `none` means that the fuel ran out.
    unfoldable pub retry_loop : ℕ → Bool → Bool → ℕ → ℕ → S → Option (Finished S)
    retry_loop zero successful need_to_stop backoff retries w = none
    retry_loop (suc fuel) successful need_to_stop backoff retries w =
        let (ok, v) = retryable w in
        let tried = count_retry config.max_retries retries in
        let again = not ok && may_retry config.max_retries tried in
        let u = if again then pass backoff v else v in
        let next = if again then next_backoff config.max_backoff_millis backoff else backoff in
        let rest =
          prepend (attempt ok ∷ (if again then sleep backoff ∷ [] else []))
            (retry_loop fuel ok (load config.need_stop_flag u) next tried u) in
        if not successful && (not need_to_stop && may_retry config.max_retries retries)
        then rest
        else some (record { world = w; successful = successful; actions = [] })

    -- The call: the early return on the stop flag, the loop, and the completion callback.
    unfoldable pub exponential_backoff : ℕ → (S → S) → S → Option (Finished S)
    exponential_backoff fuel on_complete w =
        if load config.need_stop_flag w
        then some (record { world = on_complete w; successful = false; actions = complete ∷ [] })
        else elim (retry_loop fuel false false config.starting_backoff_millis 0 w) [
          | none ↦ none
          | some r ↦ some (record {
            world = on_complete r.world;
            successful = r.successful;
            actions = r.actions ++ complete ∷ [];
          })
        ]
