-- ===== src/Jobs/Recovery/Stopping.antt =====
-- What the recovery still does once `needStop` is set.
use mathlib.Core.List.{Perm}
use mathlib.Core.List.Perm
use aws_iot_device_client.Base.{◌+◌, ◌≤◌, ◌≡◌, true, List, ◌++◌, length}
use aws_iot_device_client.Jobs.Recovery.{Recovery}
use aws_iot_device_client.Jobs.Recovery.Machine.{Machine}
use aws_iot_device_client.Jobs.Recovery.Machine as Machine
use aws_iot_device_client.Jobs.Recovery.Threads.{Threads}

-- What a run after `needStop` does: nothing is decided, and at most the rest of a resubscription is
-- requested.
record Quiet (t u : Threads) : Type 0 where
  still : u.machine.recovery.need_stop ≡ true
  same : Perm (u.carried ++ u.decided) (t.carried ++ t.decided)
  budget :
      length u.requests + length u.machine.resubscribing
      ≤ length t.requests + length t.machine.resubscribing
