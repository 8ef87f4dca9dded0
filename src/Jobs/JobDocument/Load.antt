-- ===== src/Jobs/JobDocument/Load.antt =====
-- The LoadFromJobDocument functions of jobs/JobDocument.cpp, over the JSON view of the AWS CRT.
use aws_iot_device_client.Base.{
  Bool, not, ◌&&◌, List, [], ◌∷◌, ◌++◌, map, none, some, Text, text, text_eq, is_empty, String,
  if◌then◌else◌,
}
use aws_iot_device_client.Base.Json.{JsonApi}
use aws_iot_device_client.Util.StringUtils.{
  parse_to_vector_string, split_string_by_comma, replace_all, trim_copy,
}
use aws_iot_device_client.Jobs.JobDocument.{
  ActionHandlerInput, ActionCommandInput, JobAction, JobCondition, PlainJobDocument, run_handler,
  run_command, old_schema_version, empty_action, empty_handler_input, empty_condition,
}

module _ (j : JsonApi) where
  open j use {
    View, value_exists, get_json_object, is_string, is_list_type, is_integer_type, get_string,
    get_integer, get_array,
  }

  -- `ValueExists(key) && GetJsonObject(key).IsString()`, and so for the other kinds.
  abbrev pub has_string : View → String → Bool
  has_string v key = value_exists v key && is_string (get_json_object v key)

  abbrev pub has_list : View → String → Bool
  has_list v key = value_exists v key && is_list_type (get_json_object v key)

  abbrev pub has_integer : View → String → Bool
  has_integer v key = value_exists v key && is_integer_type (get_json_object v key)

  unfoldable pub load_handler_input : View → ActionHandlerInput → ActionHandlerInput
  load_handler_input v i = record i {
    handler = if has_string v "handler" then get_string v "handler" else i.handler;
    args =
        if has_list v "args"
        then some (parse_to_vector_string j (get_json_object v "args"))
        else i.args;
    path = if has_string v "path" then some (get_string v "path") else i.path;
  }

  -- One token of the command: the escaped commas, then the white space at its ends.
  abbrev clean : Text → Text
  clean token =
      trim_copy (replace_all token (92 ∷ 44 ∷ []) (44 ∷ [])) (32 ∷ 9 ∷ 10 ∷ 11 ∷ 12 ∷ 13 ∷ [])

  unfoldable pub load_command_input : View → ActionCommandInput → ActionCommandInput
  load_command_input v i =
      let command_string = get_string v "command" in
      if value_exists v "command" && not (is_empty command_string)
      then record i { command = i.command ++ map clean (split_string_by_comma command_string) }
      else i

  -- The part of JobAction::LoadFromJobDocument that reads the input, by the type just loaded.
  unfoldable pub load_input : View → JobAction → JobAction
  unfolding load_handler_input load_command_input
  load_input v a =
      let input = get_json_object v "input" in
      if not (value_exists v "input")
      then a
      else if text_eq a.type run_handler
      then record a { handler_input = some (load_handler_input input empty_handler_input) }
      else if text_eq a.type run_command
      then record a { command_input = some (load_command_input input (record { command = [] })) }
      else a

  unfoldable pub load_action : View → JobAction → JobAction
  load_action v a =
      let named = record a {
        name = if has_string v "name" then get_string v "name" else a.name;
        type = if has_string v "type" then get_string v "type" else a.type;
      } in
      let b = load_input v named in
      record b {
        run_as_user =
            if has_string v "runAsUser" then some (get_string v "runAsUser") else b.run_as_user;
        allow_std_err =
            if has_integer v "allowStdErr"
            then some (get_integer v "allowStdErr")
            else b.allow_std_err;
        ignore_step_failure =
            if has_string v "ignoreStepFailure"
            then some (text_eq (get_string v "ignoreStepFailure") (text "true"))
            else b.ignore_step_failure;
      }

  unfoldable pub load_condition : View → JobCondition → JobCondition
  load_condition v c = record c {
    condition_key = if has_string v "key" then get_string v "key" else c.condition_key;
    condition_value =
        if has_list v "value"
        then parse_to_vector_string j (get_json_object v "value")
        else c.condition_value;
    type = if has_string v "type" then some (get_string v "type") else c.type;
  }

  -- The only step of a document of the old schema.
  unfoldable pub old_schema_action : View → JobAction
  old_schema_action v = record empty_action {
    name = get_string v "operation";
    type = run_handler;
    allow_std_err =
        if has_integer v "allowStdErr" then some (get_integer v "allowStdErr") else none;
    handler_input = some (record {
      handler = get_string v "operation";
      args =
          if has_list v "args"
          then some (parse_to_vector_string j (get_json_object v "args"))
          else none;
      path = if has_string v "path" then some (get_string v "path") else none;
    });
  }

  unfoldable pub load_old_schema : View → PlainJobDocument → PlainJobDocument
  load_old_schema v d =
      let e = record d { version = old_schema_version } in
      if has_string v "operation"
      then record e { steps = e.steps ++ old_schema_action v ∷ [] }
      else e

  -- The steps of the array that have an action.
  unfoldable pub load_steps : List View → List JobAction
  load_steps [] = []
  load_steps (v ∷ vs) =
      let rest = load_steps vs in
      if value_exists v "action"
      then load_action (get_json_object v "action") empty_action ∷ rest
      else rest

  unfoldable pub load_new_schema : View → PlainJobDocument → PlainJobDocument
  load_new_schema v d = record d {
    conditions =
        if has_list v "conditions"
        then some (map (λ c. load_condition c empty_condition) (get_array v "conditions"))
        else d.conditions;
    steps = if has_list v "steps" then d.steps ++ load_steps (get_array v "steps") else d.steps;
    final_step =
        if value_exists v "finalStep" && value_exists (get_json_object v "finalStep") "action"
        then some
            (load_action (get_json_object (get_json_object v "finalStep") "action") empty_action)
        else d.final_step;
  }

  unfoldable pub load_from_job_document : View → PlainJobDocument → PlainJobDocument
  load_from_job_document v d =
      let e = record d {
        version = if has_string v "version" then get_string v "version" else d.version;
        include_std_out =
            if has_string v "includeStdOut"
            then some (text_eq (get_string v "includeStdOut") (text "true"))
            else d.include_std_out;
      } in
      if is_empty e.version then load_old_schema v e else load_new_schema v e
