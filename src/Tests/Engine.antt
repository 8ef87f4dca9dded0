-- ===== src/Tests/Engine.antt =====
-- Runs of the job engine, on an operating system where each command fails with exit code 5.
use aws_iot_device_client.Base.{
  ℕ, ◌+◌, ◌/◌, ◌%◌, ◌≡◌, refl, true, false, not, ◌&&◌, List, [], ◌∷◌, Option, none, some, Text,
  text, text_eq, ◌==◌,
}
use aws_iot_device_client.Base.Int.{ℤ, pos, negsuc, is_zero}
use aws_iot_device_client.Base.Json.{JsonApi}
use aws_iot_device_client.Util.StringUtils.{sanitize}
use aws_iot_device_client.Jobs.LimitedStreamBuffer.{with_limit, add_string, evict}
use aws_iot_device_client.Jobs.JobDocument.{
  JobAction, PlainJobDocument, empty_action, empty_document, run_command, validate, validate_steps,
  validate_action, validate_handler_input,
}
use aws_iot_device_client.Jobs.JobDocument.Load.{
  load_from_job_document, load_old_schema, old_schema_action,
}
use aws_iot_device_client.Jobs.JobEngine.{
  Os, new_engine, process_line, process_lines, process_cmd_output, wait_for, collect, exec_cmd,
  exec_process, build_command, with_separator,
}
use aws_iot_device_client.Jobs.JobEngine.Actions.{
  Progress, handler_argv, settle_status, finish_action, exec_handler_action, verify_sudo_and_user,
  exec_shell_command, exec_command_action, exec_action, exec_each, exec_steps,
}
use aws_iot_device_client.Jobs.JobEngine.Reasons.{LinuxLayout}
use aws_iot_device_client.Jobs.JobEngine.Steps.{allowed_never_fails}
use aws_iot_device_client.Jobs.StatusUpdates.{JobExecutionStatusInfo}
use aws_iot_device_client.Jobs.Execution.{report, init_job, execute_job}

abbrev low : ℤ → ℕ
low (pos n) = n % 128
low (negsuc n) = 127

abbrev high : ℤ → ℕ
high (pos n) = n / 256 % 256
high (negsuc n) = 255

-- The world counts the processes.
abbrev os : Os ℕ
os = record {
  spawn = λ argv n. (
    some (record {
      out_lines = some [];
      err_lines = some (text "no such thing" ∷ []);
      statuses = pos 1280 ∷ [];
    }),
    n + 1,
  );
  fork = λ argv n. (some (pos 1280 ∷ []), n + 1);
  file_permissions = λ path n. 700;
  wifexited = λ s. low s == 0;
  wexitstatus = λ s. pos (high s);
  wifsignaled = λ s. not (low s == 0) && not (low s == 127);
  wtermsig = λ s. pos (low s);
  wifstopped = λ s. low s == 127;
  wstopsig = λ s. pos (high s);
}

os-LinuxLayout : LinuxLayout os
os-LinuxLayout = record {
  exited_bits = λ n. refl;
  signaled_bits = λ n. refl;
  signal_bits = λ n. refl;
}

abbrev allowed : JobAction
allowed = record empty_action {
  name = text "a";
  type = run_command;
  command_input = some (record { command = text "ls" ∷ [] });
  allow_std_err = some (pos 0);
}

abbrev plan : PlainJobDocument
plan = record empty_document { version = text "1.0"; steps = allowed ∷ allowed ∷ [] }

abbrev or_start : Option (Progress ℕ) → Progress ℕ
or_start none = record { status = pos 1; engine = new_engine; world = 0 }
or_start (some p) = p

abbrev outcome : Progress ℕ
outcome = or_start (exec_steps os plan [] new_engine 0)

plan_runs : exec_steps os plan [] new_engine 0 ≡ some outcome
unfolding exec_steps exec_each exec_action exec_command_action exec_shell_command
    verify_sudo_and_user exec_process exec_cmd collect wait_for process_cmd_output process_lines
    process_line finish_action settle_status add_string evict sanitize with_limit
plan_runs = refl

allowed_never_fails_example : is_zero outcome.status ≡ true
allowed_never_fails_example =
    allowed_never_fails os plan [] new_engine 0 outcome
      ((refl, (pos 0, refl)), ((refl, (pos 0, refl)), tt)) tt plan_runs

-- A document of the old schema, which has an operation and nothing else.
abbrev old : JsonApi
old = record {
  View = ℕ;
  value_exists = λ v key. text_eq (text key) (text "operation");
  get_json_object = λ v key. v;
  is_string = λ v. true;
  is_list_type = λ v. false;
  is_integer_type = λ v. false;
  get_string = λ v key. text "install";
  get_bool = λ v key. false;
  get_integer = λ v key. pos 0;
  get_int64 = λ v key. pos 0;
  get_array = λ v key. [];
  as_array = λ v. [];
  as_string = λ v. [];
}

abbrev print : ℤ → Text
print n = text "5"

abbrev or_nothing : Option (List JobExecutionStatusInfo × ℕ) → List JobExecutionStatusInfo × ℕ
or_nothing none = ([], 0)
or_nothing (some r) = r

abbrev handled : List JobExecutionStatusInfo × ℕ
handled = or_nothing (init_job os print (text "/handlers") old 0 0)

old_runs : init_job os print (text "/handlers") old 0 0 ≡ some (handled.0, handled.1)
unfolding init_job execute_job report exec_steps exec_each exec_action exec_handler_action
    handler_argv build_command with_separator exec_cmd collect wait_for process_cmd_output
    process_lines process_line finish_action settle_status add_string evict sanitize with_limit
    load_from_job_document load_old_schema old_schema_action validate validate_steps validate_action
    validate_handler_input
old_runs = refl
