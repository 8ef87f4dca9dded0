-- ===== src/Jobs/JobEngine.antt =====
-- jobs/JobEngine.cpp and JobEngine.h: the execution of a job document's steps. The operating
-- system is a parameter: what a spawned child writes and how it ends, the exit status of a probe,
-- the permissions of a file, and the macros of <sys/wait.h>. `none` is undefined behaviour (an
-- access to an empty Optional or past the end of a text) or a wait that never ends. The log lines
-- are left out, and with them the thread that writes them.
pub mod Actions
pub mod Argv
pub mod Steps
pub mod Reasons
use aws_iot_device_client.Base.{
  ℕ, zero, suc, ◌+◌, Bool, true, false, not, ◌&&◌, ◌||◌, List, [], ◌∷◌, ◌++◌, Option, none, some,
  Text, text, text_eq, is_empty, ltb, leb, ◌==◌, length, get_elem?, set, replicate, if◌then◌else◌,
}
use aws_iot_device_client.Base.Int.{ℤ, pos, negsuc, is_zero, int_eq, ◌≤?ℤ◌}
use aws_iot_device_client.Util.StringUtils.{sanitize}
use aws_iot_device_client.Jobs.LimitedStreamBuffer.{
  LimitedStreamBuffer, with_limit, default_size_limit, add_string,
}
use aws_iot_device_client.Jobs.JobDocument.{
  ActionHandlerInput, ActionCommandInput, JobAction, PlainJobDocument, run_handler, run_command,
}

pub record JobEngine : Type 0 where
  pub errors : ℕ  -- atomic_int
  pub stdout_stream : LimitedStreamBuffer
  pub stderr_stream : LimitedStreamBuffer

abbrev pub new_engine : JobEngine
new_engine = record {
  errors = 0;
  stdout_stream = with_limit default_size_limit;
  stderr_stream = with_limit default_size_limit;
}

abbrev pub max_log_lines : ℕ
max_log_lines = 1000

abbrev pub cmd_failure : ℤ
cmd_failure = pos 1

-- A command line: the child's argv, with the null pointer as `none`.
abbrev pub Argv : Type 0
Argv = List (Option Text)

-- A child process: the lines that fgets reads from its pipes, `none` where fdopen fails, and the
-- values that waitpid stores.
pub record Child : Type 0 where
  pub out_lines : Option (List Text)
  pub err_lines : Option (List Text)
  pub statuses : List ℤ

pub record Os (W : Type 0) : Type 0 where
  -- The pipes and vfork of exec_cmd; `none` where one fails.
  pub spawn : Argv → W → Option Child × W
  -- vfork of exec_process, and the values that waitpid stores.
  pub fork : Argv → W → Option (List ℤ) × W
  pub file_permissions : Text → W → ℕ
  pub wifexited : ℤ → Bool
  pub wexitstatus : ℤ → ℤ
  pub wifsignaled : ℤ → Bool
  pub wtermsig : ℤ → ℤ
  pub wifstopped : ℤ → Bool
  pub wstopsig : ℤ → ℤ

-- The text up to the first NUL, as `childOutput += buffer.data()` reads it.
abbrev pub until_nul : Text → Text
until_nul [] = []
until_nul (c ∷ s) = if c == 0 then [] else c ∷ until_nul s

-- One line: it is sanitized and buffered; its last byte is read, which an empty text has not.
unfoldable pub process_line : Bool → Text → JobEngine → Option JobEngine
process_line is_std_err line e =
    let output = sanitize (until_nul line) in
    if is_empty output
    then none
    else if is_std_err
    then elim (add_string output e.stderr_stream) [
      | none ↦ none
      | some b ↦ some (record e { stderr_stream = b; errors = e.errors + 1 })
    ]
    else elim (add_string output e.stdout_stream) [
      | none ↦ none
      | some b ↦ some (record e { stdout_stream = b })
    ]

-- The while loop of processCmdOutput; `count` is lineCount.
unfoldable pub process_lines : Bool → ℕ → List Text → JobEngine → Option JobEngine
process_lines is_std_err count [] e = some e
process_lines is_std_err count (line ∷ lines) e =
    if ltb max_log_lines count then some e else elim (process_line is_std_err line e) [
      | none ↦ none
      | some f ↦ process_lines is_std_err (count + 1) lines f
    ]

unfoldable pub process_cmd_output : Bool → Option (List Text) → JobEngine → Option JobEngine
process_cmd_output is_std_err none e = some e
process_cmd_output is_std_err (some lines) e = process_lines is_std_err 0 lines e

abbrev pub default_path_keyword : Text
default_path_keyword = text "default"

-- Permissions::JOB_HANDLER.
abbrev pub job_handler_permissions : ℕ
job_handler_permissions = 700

-- The result of buildCommand: a command, the exception that it throws, or undefined behaviour.
pub data Built : Type 0 where
  built : Text → Built
  thrown : Built
  fault : Built

-- The text with a separator at its end; `back()` of an empty text is undefined.
unfoldable pub with_separator : Text → Option Text
with_separator [] = none
with_separator (c ∷ []) = some (if c == 47 then c ∷ [] else c ∷ 47 ∷ [])
with_separator (c ∷ d ∷ s) = elim (with_separator (d ∷ s)) [ none ↦ none | some t ↦ some (c ∷ t) ]

abbrev pub prefixed : Option Text → Text → Built
prefixed none handler = fault
prefixed (some dir) handler = built (dir ++ handler)

-- The loops that fill argv from index `k` on.
unfoldable pub fill : ℕ → List Text → Argv → Argv
fill k [] argv = argv
fill k (s ∷ rest) argv = fill (suc k) rest (set argv k (some s))

module _ {W : Type 0} (os : Os W) where
  abbrev check_permissions : Built → W → Built
  check_permissions (built command) w =
      if os.file_permissions command w == job_handler_permissions then built command else thrown
  check_permissions thrown w = thrown
  check_permissions fault w = fault

  unfoldable pub build_command : Option Text → Text → Text → W → Built
  build_command none handler job_handler_dir w = built handler
  build_command (some path) handler job_handler_dir w =
      if text_eq default_path_keyword path
      then check_permissions (prefixed (with_separator job_handler_dir) handler) w
      else if not (is_empty path)
      then prefixed (with_separator path) handler
      else built handler

  -- The do-while loop: WEXITSTATUS of the first status that says that the child is gone.
  unfoldable pub wait_for : List ℤ → Option ℤ
  wait_for [] = none
  wait_for (status ∷ rest) =
      if os.wifexited status || os.wifsignaled status
      then some (os.wexitstatus status)
      else wait_for rest

  unfoldable pub collect : Child → JobEngine → Option (ℤ × JobEngine)
  collect c e = elim (process_cmd_output false c.out_lines e) [
    | none ↦ none
    | some f ↦ elim (process_cmd_output true c.err_lines f) [
      | none ↦ none
      | some g ↦ elim (wait_for c.statuses) [ none ↦ none | some code ↦ some (code, g) ]
    ]
  ]

  unfoldable pub exec_cmd : Argv → JobEngine → W → Option (ℤ × JobEngine × W)
  exec_cmd argv e w =
      let (spawned, v) = os.spawn argv w in
      elim spawned [
        | none ↦ some (cmd_failure, e, v)
        | some c ↦ elim (collect c e) [ none ↦ none | some (code, f) ↦ some (code, f, v) ]
      ]

  unfoldable pub exec_process : Argv → W → Option (ℤ × W)
  exec_process argv w =
      let (statuses, v) = os.fork argv w in
      elim statuses [
        | none ↦ some (cmd_failure, v)
        | some l ↦ elim (wait_for l) [ none ↦ none | some code ↦ some (code, v) ]
      ]
