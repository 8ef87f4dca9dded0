-- ===== src/Jobs/StatusUpdates.antt =====
-- JobsFeature.cpp: the updates of a job execution's status, and the promises through which their
-- answers reach the thread that waits for them (EphemeralPromise.h). `updateJobExecutionPromises`
-- is an association list. A handler that throws is `none`.
pub mod Details
pub mod Answers
pub mod Lookup
pub mod Attempt
pub mod Retries
use aws_iot_device_client.Base.{
  ℕ, zero, suc, ◌+◌, ◌-◌, ◌*◌, Bool, true, false, not, ◌||◌, List, [], ◌∷◌, Option, none, some,
  Text, text_eq, is_empty, length, drop, ltb, leb, if◌then◌else◌,
}
use aws_iot_device_client.Base.Int.{ℤ, pos, negsuc, is_zero}
use aws_iot_device_client.Util.Retry.{ExponentialRetryConfig}
use aws_iot_device_client.Jobs.JobEngine.{until_nul}

-- Aws::Iotjobs::JobStatus, the values that the client sends.
pub data JobStatus : Type 0 where
  in_progress succeeded failed rejected : JobStatus

pub record JobExecutionStatusInfo : Type 0 where
  pub status : JobStatus
  pub reason : Text
  pub stdoutput : Text
  pub stderror : Text

abbrev pub max_status_detail_length : ℕ
max_status_detail_length = 1024

-- `substr(0, n)`.
abbrev pub prefix : ℕ → Text → Text
prefix zero s = []
prefix (suc n) [] = []
prefix (suc n) (c ∷ s) = c ∷ prefix n s

-- The entries of the map statusDetails; an absent key is `none`.
pub record StatusDetails : Type 0 where
  pub reason : Option Text
  pub stdout : Option Text
  pub stderr : Option Text

-- `substr(startPos, size())` with the startPos of the code, then `c_str()`.
unfoldable pub recent : Text → Option Text
recent s =
    let start =
      if ltb max_status_detail_length (length s) then length s - max_status_detail_length else 0 in
    if is_empty s then none else some (until_nul (drop start s))

-- publishUpdateJobExecutionStatus.
unfoldable pub status_details : JobExecutionStatusInfo → StatusDetails
unfolding recent
status_details info = record {
  reason =
      if is_empty info.reason
      then none
      else some (until_nul (prefix max_status_detail_length info.reason));
  stdout = recent info.stdoutput;
  stderr = recent info.stderror;
}

-- The retryConfig of publishUpdateJobExecutionStatusWithRetry.
unfoldable pub update_retry_config : {S : Type 0} → (S → Bool) → S → ExponentialRetryConfig S
update_retry_config need_stop w =
    if need_stop w
    then record {
      starting_backoff_millis = 10 * 1000;
      max_backoff_millis = 640 * 1000;
      max_retries = pos 3;
      need_stop_flag = none;
    }
    else record {
      starting_backoff_millis = 10 * 1000;
      max_backoff_millis = 640 * 1000;
      max_retries = negsuc 0;
      need_stop_flag = some need_stop;
    }

-- UpdateJobExecutionResponseType.
pub data UpdateResponse : Type 0 where
  accepted retryable_error non_retryable_error : UpdateResponse

-- An EphemeralPromise: the time in milliseconds, and the value that was set, if any.
pub record EphemeralPromise : Type 0 where
  pub ttl_millis : ℕ
  pub creation_time : ℕ
  pub value : Option UpdateResponse

abbrev pub is_expired : ℕ → EphemeralPromise → Bool
is_expired now p = leb (p.creation_time + p.ttl_millis) now

abbrev pub Promises : Type 0
Promises = List (Text × EphemeralPromise)

unfoldable pub find : Text → Promises → Option EphemeralPromise
find token [] = none
find token ((other, p) ∷ rest) = if text_eq token other then some p else find token rest

-- The loop that removes the promises leaked by earlier attempts.
unfoldable pub erase_expired : ℕ → Promises → Promises
erase_expired now [] = []
erase_expired now ((token, p) ∷ rest) =
    let kept = erase_expired now rest in if is_expired now p then kept else (token, p) ∷ kept

unfoldable pub erase : Text → Promises → Promises
erase token [] = []
erase token ((other, p) ∷ rest) =
    let kept = erase token rest in if text_eq token other then kept else (other, p) ∷ kept

-- `insert` leaves an entry that is there as it is.
unfoldable pub insert : Text → EphemeralPromise → Promises → Promises
insert token p ps = elim (find token ps) [ none ↦ (token, p) ∷ ps | some q ↦ ps ]

-- `set_value` of a promise throws when a value was set before.
unfoldable pub set_value : Text → UpdateResponse → Promises → Option Promises
set_value token v [] = none
set_value token v ((other, p) ∷ rest) =
    let later = set_value token v rest in
    if text_eq token other
    then elim p.value [ none ↦ some ((other, record p { value = some v }) ∷ rest) | some u ↦ none ]
    else elim later [ none ↦ none | some qs ↦ some ((other, p) ∷ qs) ]

-- updateJobExecutionStatusAcceptedHandler, on the response's ClientToken.
unfoldable pub accepted_handler : Option Text → ℤ → Promises → Option Promises
accepted_handler client_token io_error ps =
    if not (is_zero io_error) then some ps else elim client_token [
      | none ↦ some ps
      | some token ↦ elim (find token ps) [ none ↦ some ps | some p ↦ set_value token accepted ps ]
    ]

-- RejectedErrorCode, the two codes that the handler tells from the others.
pub data RejectedErrorCode : Type 0 where
  request_throttled internal_error other_code : RejectedErrorCode

pub record RejectedError : Type 0 where
  pub client_token : Option Text
  pub code : Option RejectedErrorCode

abbrev pub response_code : RejectedErrorCode → UpdateResponse
response_code request_throttled = retryable_error
response_code internal_error = retryable_error
response_code other_code = non_retryable_error

-- updateJobExecutionStatusRejectedHandler. After the warning about a token that is not in the map
-- the handler goes on: `at` throws there, as `set_value` does here on an absent token. `value()`
-- of an empty code is taken to fail, too.
unfoldable pub rejected_handler : Option RejectedError → ℤ → Promises → Option Promises
rejected_handler error io_error ps = if not (is_zero io_error) then some ps else elim error [
  | none ↦ some ps
  | some e ↦ elim e.client_token [
    | none ↦ some ps
    | some token ↦ elim e.code [ none ↦ none | some code ↦ set_value token (response_code code) ps ]
  ]
]

-- publishLambda up to the publication. `now` is the time on entry, `token` the random one.
unfoldable pub begin_attempt : ℕ → Text → Promises → Promises
begin_attempt now token ps =
    insert token (record { ttl_millis = 15 * 1000; creation_time = now; value = none })
      (erase_expired now ps)

abbrev pub is_finished : Option UpdateResponse → Bool
is_finished none = false
is_finished (some accepted) = true
is_finished (some retryable_error) = false
is_finished (some non_retryable_error) = true

-- publishLambda from the end of the wait, when the future is ready or ten seconds are over. The
-- future is that of the promise in the map; `none` where the entry has gone, as the future is
-- taken by `at`, which throws there, or stays without a value.
unfoldable pub end_attempt : Text → Promises → Option (Bool × Promises)
end_attempt token ps = elim (find token ps) [
  | none ↦ none
  | some p ↦ some (is_finished p.value, erase token ps)
]
