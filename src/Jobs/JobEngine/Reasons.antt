-- ===== src/Jobs/JobEngine/Reasons.antt =====
-- The reason that is reported with a job's status.
use aws_iot_device_client.Base.{ℕ, ◌%◌, ◌<◌, ◌≡◌, not, ◌&&◌, ◌==◌, arith}
use aws_iot_device_client.Base.Int.{pos}
use aws_iot_device_client.Jobs.JobEngine.{Os}
use aws_iot_device_client.Jobs.JobEngine.Actions.{killed, get_reason}

-- The layout of a wait status on Linux, for the values that are not negative: the exit code above
-- the low byte, the signal in its low seven bits, 127 for a child that is stopped.
pub record LinuxLayout {W : Type 0} (os : Os W) : Type 0 where
  pub exited_bits : (n : ℕ) → os.wifexited (pos n) ≡ (n % 128 == 0)
  pub signaled_bits :
      (n : ℕ) → os.wifsignaled (pos n) ≡ (not (n % 128 == 0) && not (n % 128 == 127))
  pub signal_bits : (n : ℕ) → os.wtermsig (pos n) ≡ pos (n % 128)

-- JobsFeature::executeJob hands getReason the exit code of the failed step, not a wait status: for
-- an exit code from 1 to 126 the reason says that the job was killed by a signal of that number.
pub exit_code_reason :
    {W : Type 0} (os : Os W) (code : ℕ)
    → LinuxLayout os
    → 0 < code
    → code < 127
    → get_reason os (pos code) ≡ killed (pos code)
unfolding get_reason
exit_code_reason os code l h k =
    ground (arith, l.exited_bits code, l.signaled_bits code, l.signal_bits code)
