-- ===== src/Tests/Jobs.antt =====
-- Runs of the job document, the output buffer, the status updates and the reports.
use aws_iot_device_client.Base.{
  ℕ, ◌≡◌, ◌↔◌, refl, arith, true, false, not, ◌&&◌, List, [], ◌∷◌, Option, none, some, text,
  text_eq,
}
use aws_iot_device_client.Base.Int.{pos}
use aws_iot_device_client.Base.Json.{JsonApi}
use aws_iot_device_client.Jobs.LimitedStreamBuffer.{LimitedStreamBuffer, add_string, flatten}
use aws_iot_device_client.Jobs.LimitedStreamBuffer.Contents.{Inv, Added, add_string-Added}
use aws_iot_device_client.Jobs.JobDocument.{
  PlainJobDocument, JobAction, empty_action, empty_document, run_handler, run_command, validate,
}
use aws_iot_device_client.Jobs.JobDocument.Validity.{DocumentIsValid, validate_iff}
use aws_iot_device_client.Jobs.StatusUpdates.{
  JobExecutionStatusInfo, succeeded, status_details, Promises, find, insert, erase, erase_expired,
  set_value, accepted_handler, rejected_handler, request_throttled, begin_attempt, end_attempt,
}
use aws_iot_device_client.Jobs.StatusUpdates.Details.{Reports, status_details_lem}
use aws_iot_device_client.Jobs.StatusUpdates.Attempt.{
  Event, was_accepted, was_rejected, other_begun, run, attempt_lem,
}
use aws_iot_device_client.Jobs.Execution.{Notifications}
use aws_iot_device_client.Jobs.Execution.Duplicates as Duplicates
use aws_iot_device_client.Jobs.Execution.Duplicates.{Note, run_lem}

abbrev buffer : LimitedStreamBuffer
buffer = record { contents_size = 3; contents_size_limit = 4; buffer = text "ab" ∷ text "c" ∷ [] }

buffer-Inv : Inv buffer
unfolding flatten
buffer-Inv = record { counted = refl; within = omega arith; representable = omega arith }

add_string-Added_example : Added (text "xyz") buffer (add_string (text "xyz") buffer)
add_string-Added_example = add_string-Added (text "xyz") buffer buffer-Inv

abbrev lines : List (List ℕ)
lines = text "one" ∷ text "two" ∷ text "three" ∷ []

abbrev say : JobAction
say = record empty_action {
  name = text "say";
  type = run_command;
  command_input = some (record { command = text "echo" ∷ text "hello" ∷ [] });
}

abbrev document : PlainJobDocument
document = record empty_document { version = text "1.0"; steps = say ∷ [] }

validate_iff_example : (validate document ≡ some true) ↔ DocumentIsValid document
validate_iff_example = validate_iff document

-- A view in which every key but `input` and `version` has the text "runHandler".
abbrev view : JsonApi
view = record {
  View = ℕ;
  value_exists =
      λ v key. not (text_eq (text key) (text "input")) && not (text_eq (text key) (text "version"));
  get_json_object = λ v key. v;
  is_string = λ v. true;
  is_list_type = λ v. false;
  is_integer_type = λ v. false;
  get_string = λ v key. run_handler;
  get_bool = λ v key. false;
  get_integer = λ v key. pos 0;
  get_int64 = λ v key. pos 0;
  get_array = λ v key. [];
  as_array = λ v. [];
  as_string = λ v. [];
}

abbrev info : JobExecutionStatusInfo
info = record {
  status = succeeded;
  reason = text "Job exited with status: 0";
  stdoutput = text "hello";
  stderror = [];
}

status_details_lem_example :
    let d = status_details info in
    Reports 0 info.reason d.reason × Reports 0 info.stdoutput d.stdout × Reports 0 [] d.stderr
status_details_lem_example = status_details_lem info

no_promise : find (text "t") [] ≡ none
unfolding find
no_promise = refl

-- Another update begins, its rejection arrives, and then the acceptance of the first.
abbrev meanwhile : List Event
meanwhile =
    other_begun 2000 (text "u")
    ∷ was_rejected (some (record { client_token = some (text "u"); code = some request_throttled }))
        (pos 0)
    ∷ was_accepted (some (text "t")) (pos 0)
    ∷ []

abbrev or_empty : Option Promises → Promises
or_empty none = []
or_empty (some ps) = ps

abbrev left : Promises
left = or_empty (run meanwhile (begin_attempt 1000 (text "t") []))

nothing_thrown : run meanwhile (begin_attempt 1000 (text "t") []) ≡ some left
unfolding begin_attempt find insert erase_expired accepted_handler rejected_handler set_value
nothing_thrown = refl

attempt_lem_example : end_attempt (text "t") left ≡ some (true, erase (text "t") left)
attempt_lem_example =
    attempt_lem 1000 (text "t") meanwhile [] no_promise ((omega arith, refl), (tt, (tt, tt)))
      nothing_thrown

abbrev job : ℕ → Note ℕ
job n = record {
  execution =
      some (record { job_id = some (text "job"); execution_number = some (pos n); document = 0 });
  io_error = pos 0;
  need_stop = false;
  ready = true;
}

abbrev no_job : Notifications
no_job = record { handling_job = false; latest_job_id = none; latest_execution_number = none }

run_lem_example :
    (t : Notifications) × (Duplicates.run (job 1 ∷ job 1 ∷ job 2 ∷ []) no_job
      ≡ some ((text "job", pos 1) ∷ (text "job", pos 2) ∷ [], t))
run_lem_example = run_lem (job 1 ∷ job 1 ∷ job 2 ∷ []) no_job (refl, (refl, (refl, tt)))
