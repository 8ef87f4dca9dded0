-- ===== src/Jobs/StatusUpdates/Retries.antt =====
-- How often a status update is tried.
use aws_iot_device_client.Base.{ℕ, ◌≤◌, ◌≡◌, Bool, true, some, arith}
use aws_iot_device_client.Base.Int.{pos}
use aws_iot_device_client.Util.Retry.{Finished, exponential_backoff}
use aws_iot_device_client.Util.Retry.Termination.{attempts, backoff-returns}
use aws_iot_device_client.Jobs.StatusUpdates.{update_retry_config}

module _ {S : Type 0} (retryable : S → Bool × S) (pass : ℕ → S → S) (need_stop : S → Bool) where
  three : (w : S) → need_stop w ≡ true → (update_retry_config need_stop w).max_retries ≡ pos 3
  unfolding update_retry_config
  three w h = ground (arith, h)

  -- An update that begins while the feature stops is given up after at most three attempts.
  pub stopping_update :
      (on_complete : S → S) (w : S)
      → need_stop w ≡ true
      → (r : Finished S) × (exponential_backoff retryable pass
            (update_retry_config need_stop w)
            4
            on_complete
            w
          ≡ some r)
        × (attempts r.actions ≤ 3)
  stopping_update on_complete w h =
      backoff-returns retryable pass (update_retry_config need_stop w) 3 (three w h) 4 on_complete w
        (omega arith)
