-- ===== src/Jobs/Execution.antt =====
-- JobsFeature.cpp: from the notification of a pending job to the last update of its status. The
-- updates are those that publishUpdateJobExecutionStatus is called for, in the order of the calls:
-- executeJob is called after the first of them, and the thread that it starts makes the last call
-- when the steps have run. The calls only start threads, which publish with retries of their own
-- (StatusUpdates): in which order the updates are published is not said.
pub mod Duplicates
pub mod Report
use aws_iot_device_client.Base.{
  Bool, true, false, not, ◌&&◌, List, [], ◌∷◌, Option, none, some, Text, text, text_eq,
  if◌then◌else◌,
}
use aws_iot_device_client.Base.Int.{ℤ, pos, is_zero, int_eq}
use aws_iot_device_client.Base.Json.{JsonApi}
use aws_iot_device_client.Jobs.LimitedStreamBuffer.{to_string}
use aws_iot_device_client.Jobs.JobDocument.{PlainJobDocument, empty_document, validate}
use aws_iot_device_client.Jobs.JobDocument.Load.{load_from_job_document}
use aws_iot_device_client.Jobs.JobEngine.{Os, new_engine}
use aws_iot_device_client.Jobs.JobEngine.Actions.{
  Progress, exec_steps, Reason, get_reason, reason_text,
}
use aws_iot_device_client.Jobs.StatusUpdates.{
  JobExecutionStatusInfo, JobStatus, in_progress, succeeded, failed, rejected,
}

-- The fields of JobExecutionData that are read; the document is `document`.
pub record JobExecutionData (D : Type 0) : Type 0 where
  pub job_id : Option Text
  pub execution_number : Option ℤ
  pub document : D

-- The JobId and the ExecutionNumber of latestJobsNotification, and handlingJob.
pub record Notifications : Type 0 where
  pub handling_job : Bool
  pub latest_job_id : Option Text
  pub latest_execution_number : Option ℤ

abbrev pub is_latest : Text → ℤ → Notifications → Bool
is_latest id number s = elim s.latest_job_id [
  | none ↦ false
  | some latest ↦ elim s.latest_execution_number [
    | none ↦ false
    | some latest_number ↦ text_eq id latest && int_eq number latest_number
  ]
]

module _ {D : Type 0} where
  -- Whether the job is to start; `none` where the job lacks its id or its number, whose `value()`
  -- is taken.
  unfoldable pub try_start_job : JobExecutionData D → Notifications → Option (Bool × Notifications)
  try_start_job job s = elim job.job_id [
    | none ↦ none
    | some id ↦ elim job.execution_number [
      | none ↦ none
      | some number ↦
          if is_latest id number s
          then some (false, s)
          else some (
            true,
            record {
              handling_job = true;
              latest_job_id = some id;
              latest_execution_number = some number;
            },
          )
    ]
  ]

  -- startNextPendingJobReceivedHandler and nextJobChangedHandler, which do the same: whether they
  -- go on to initJob. `ready` is `jobsClientReady && !subscriptionsNeedRecovery`.
  unfoldable pub received_handler :
      Option (JobExecutionData D) → ℤ → Bool → Bool → Notifications → Option (Bool × Notifications)
  received_handler execution io_error need_stop ready s =
      if not (is_zero io_error) then some (false, s) else elim execution [
        | none ↦ some (false, s)
        | some job ↦
            if need_stop
            then some (false, s)
            else if not ready
            then some (false, s)
            else try_start_job job s
      ]

abbrev pub has_value : Option Bool → Bool
has_value none = false
has_value (some b) = true

abbrev pub invalid_document : Text
invalid_document = text "Unable to execute job, invalid job document provided!"

abbrev pub status_only : JobStatus → JobExecutionStatusInfo
status_only s = record { status = s; reason = []; stdoutput = []; stderror = [] }

-- `print` is what an ostream makes of an int. `if (jobDocument.includeStdOut)` asks an Optional whether it has a
-- value.
unfoldable pub report :
    {W : Type 0} → Os W → (ℤ → Text) → PlainJobDocument → Progress W → JobExecutionStatusInfo
report os print d p = record {
  status = if is_zero p.status then succeeded else failed;
  reason = reason_text print (get_reason os p.status);
  stdoutput = if has_value d.include_std_out then to_string p.engine.stdout_stream else [];
  stderror = to_string p.engine.stderr_stream;
}

module _ {W : Type 0} (os : Os W) (print : ℤ → Text) (job_handler_dir : Text) where
  -- executeJob: the thread that it starts, run to its end, and the update that it asks for.
  unfoldable pub execute_job : PlainJobDocument → W → Option (JobExecutionStatusInfo × W)
  execute_job d w = elim (exec_steps os d job_handler_dir new_engine w) [
    | none ↦ none
    | some p ↦ some (report os print d p, p.world)
  ]

  -- initJob: the updates that are asked for until the thread of the job has ended.
  unfoldable pub init_job :
      (j : JsonApi) → JsonApi.View j → W → Option (List JobExecutionStatusInfo × W)
  init_job j view w =
      let d = load_from_job_document j view empty_document in
      elim (validate d) [
        | none ↦ none
        | some false ↦ some (record (status_only rejected) { reason = invalid_document } ∷ [], w)
        | some true ↦ elim (execute_job d w) [
          | none ↦ none
          | some (info, v) ↦ some (status_only in_progress ∷ info ∷ [], v)
        ]
      ]
