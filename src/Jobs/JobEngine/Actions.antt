-- ===== src/Jobs/JobEngine/Actions.antt =====
-- jobs/JobEngine.cpp: the execution of one action and of the steps of a document.
use aws_iot_device_client.Base.{
  ℕ, ◌+◌, Bool, true, false, ◌&&◌, List, [], ◌∷◌, ◌++◌, Option, none, some, Text, text, text_eq,
  length, set, replicate, if◌then◌else◌,
}
use aws_iot_device_client.Base.Int.{ℤ, pos, is_zero, ◌≤?ℤ◌}
use aws_iot_device_client.Jobs.JobDocument.{
  ActionHandlerInput, JobAction, PlainJobDocument, run_handler, run_command,
}
use aws_iot_device_client.Jobs.JobEngine.{
  JobEngine, Os, Argv, built, thrown, fault, build_command, exec_cmd, exec_process, fill,
}

-- How far an execution has come: `executionStatus`, the engine and the world.
pub record Progress (W : Type 0) : Type 0 where
  pub status : ℤ
  pub engine : JobEngine
  pub world : W

abbrev pub args_or_empty : Option (List Text) → List Text
args_or_empty none = []
args_or_empty (some args) = args

abbrev pub empty_argv : ℕ → Argv
empty_argv n = replicate n none

-- exec_handlerScript: argv has the command, the user, the arguments and the null pointer.
unfoldable pub handler_argv : Text → Text → Option (List Text) → Argv
unfolding fill
handler_argv command user args =
    let arg_size = length (args_or_empty args) in
    let argv = set (set (empty_argv (arg_size + 3)) 0 (some command)) 1 (some user) in
    fill 2 (args_or_empty args) (set argv (arg_size + 2) none)

-- exec_shellCommand without sudo, and with it.
unfoldable pub plain_argv : List Text → Argv
unfolding fill
plain_argv command = fill 0 command (set (empty_argv (length command + 1)) (length command) none)

unfoldable pub sudo_argv : Text → List Text → Argv
unfolding fill
sudo_argv user command =
    let argv =
      set
        (set
          (set (set (empty_argv (length command + 5)) 0 (some (text "sudo"))) 1 (some (text "-u")))
          2 (some user))
        3 (some (text "-n")) in
    fill 4 command (set argv (length command + 4) none)

-- The end of exec_action: how the action's own status becomes the execution status.
unfoldable pub settle_status : JobAction → ℤ → ℤ → JobEngine → Option ℤ
settle_status a action_status status e = elim a.ignore_step_failure [
  | none ↦ none
  | some true ↦ some status
  | some false ↦ elim a.allow_std_err [
    | none ↦ some action_status
    | some allowed ↦
        some (if is_zero action_status && (allowed ≤?ℤ pos e.errors) then action_status else status)
  ]
]

unfoldable pub finish_action :
    {W : Type 0} → JobAction → ℤ → Option (ℤ × JobEngine × W) → Option (Progress W)
finish_action a status none = none
finish_action a status (some (code, f, v)) = elim (settle_status a code status f) [
  | none ↦ none
  | some s ↦ some (record { status = s; engine = f; world = v })
]

module _ {W : Type 0} (os : Os W) where
  -- `none` where the user, an Optional, is empty.
  unfoldable pub verify_sudo_and_user : Text → W → Option (Bool × W)
  verify_sudo_and_user user w =
      elim (exec_process os (some (text "id") ∷ some user ∷ none ∷ []) w) [
        | none ↦ none
        | some (first, v) ↦
            if is_zero first
            then elim (exec_process os
                (some (text "/bin/bash")
                  ∷ some (text "-c")
                  ∷ some (text "command -v sudo")
                  ∷ none
                  ∷ [])
                v) [ none ↦ none | some (second, u) ↦ some (is_zero second, u) ]
            else some (false, v)
      ]

  unfoldable pub exec_shell_command : Text → List Text → JobEngine → W → Option (ℤ × JobEngine × W)
  exec_shell_command user command e w = elim (verify_sudo_and_user user w) [
    | none ↦ none
    | some (verification, v) ↦
        exec_cmd os (if verification then sudo_argv user command else plain_argv command) e v
  ]

  unfoldable pub exec_handler_action :
      JobAction → ActionHandlerInput → Text → Progress W → Option (Progress W)
  exec_handler_action a i job_handler_dir p =
      elim (build_command os i.path i.handler job_handler_dir p.world) [
        | fault ↦ none
        | thrown ↦ elim a.ignore_step_failure [
          | none ↦ none
          | some ignored ↦ some (if ignored then p else record p { status = pos 1 })
        ]
        | built command ↦ elim a.run_as_user [
          | none ↦ none
          | some user ↦
              finish_action a p.status
                (exec_cmd os (handler_argv command user i.args) p.engine p.world)
        ]
      ]

  -- `command.front()` of an empty command is undefined.
  unfoldable pub exec_command_action : JobAction → List Text → Progress W → Option (Progress W)
  exec_command_action a [] p = none
  exec_command_action a (first ∷ rest) p = elim a.run_as_user [
    | none ↦ none
    | some user ↦ finish_action a p.status (exec_shell_command user (first ∷ rest) p.engine p.world)
  ]

  unfoldable pub exec_action : JobAction → Text → Progress W → Option (Progress W)
  exec_action a job_handler_dir p =
      if text_eq a.type run_handler
      then elim a.handler_input [ none ↦ none | some i ↦ exec_handler_action a i job_handler_dir p ]
      else if text_eq a.type run_command
      then elim a.command_input [ none ↦ none | some i ↦ exec_command_action a i.command p ]
      else some (record p { status = pos 1 })

  abbrev pub exec_final : Option JobAction → Text → Progress W → Option (Progress W)
  exec_final none job_handler_dir p = some p
  exec_final (some a) job_handler_dir p = exec_action a job_handler_dir p

  -- The loop over the steps, and the final step that follows if none of them failed.
  unfoldable pub exec_each :
      List JobAction → Option JobAction → Text → Progress W → Option (Progress W)
  exec_each [] final job_handler_dir p = exec_final final job_handler_dir p
  exec_each (a ∷ rest) final job_handler_dir p = elim (exec_action a job_handler_dir p) [
    | none ↦ none
    | some q ↦
        let onward = exec_each rest final job_handler_dir q in
        if is_zero q.status then onward else some q
  ]

  unfoldable pub exec_steps : PlainJobDocument → Text → JobEngine → W → Option (Progress W)
  exec_steps d job_handler_dir e w =
      exec_each d.steps d.final_step job_handler_dir
        (record { status = pos 0; engine = e; world = w })

-- getReason: what it says of the status, and below the text that says it.
pub data Reason : Type 0 where
  exited : ℤ → Reason
  killed : ℤ → Reason
  stopped : ℤ → Reason
  returned : ℤ → Reason

unfoldable pub get_reason : {W : Type 0} → Os W → ℤ → Reason
get_reason os status =
    if os.wifexited status
    then exited (os.wexitstatus status)
    else if os.wifsignaled status
    then killed (os.wtermsig status)
    else if os.wifstopped status
    then stopped (os.wstopsig status)
    else returned status

-- The text of a reason; `print` is what an ostream makes of an int.
unfoldable pub reason_text : (ℤ → Text) → Reason → Text
reason_text print (exited code) = text "Job exited with status: " ++ print code
reason_text print (killed signal) = text "Job killed by signal: " ++ print signal
reason_text print (stopped signal) = text "Job stopped by signal: " ++ print signal
reason_text print (returned status) = text "Job returned with status: " ++ print status
