-- ===== src/Jobs/JobDocument.antt =====
-- jobs/JobDocument.cpp and JobDocument.h: job documents, their loading from JSON and their
-- validation. The log lines are left out. `none` as the result of a validation is the undefined
-- behaviour of `->` on an empty Optional.
pub mod Load
pub mod Validity
pub mod OldSchema
pub mod MissingInput
use aws_iot_device_client.Base.{
  ℕ, Bool, true, false, not, ◌&&◌, ◌||◌, List, [], ◌∷◌, Option, none, some, Text, text, text_eq,
  is_empty, any, leb, ◌==◌, if◌then◌else◌,
}
use aws_iot_device_client.Base.Int.{ℤ}

pub record ActionHandlerInput : Type 0 where
  pub handler : Text
  pub args : Option (List Text)
  pub path : Option Text

pub record ActionCommandInput : Type 0 where
  pub command : List Text

pub record JobAction : Type 0 where
  pub name : Text
  pub type : Text
  pub handler_input : Option ActionHandlerInput
  pub command_input : Option ActionCommandInput
  pub run_as_user : Option Text
  pub allow_std_err : Option ℤ
  pub ignore_step_failure : Option Bool

pub record JobCondition : Type 0 where
  pub condition_key : Text
  pub condition_value : List Text
  pub type : Option Text

pub record PlainJobDocument : Type 0 where
  pub version : Text
  pub include_std_out : Option Bool
  pub conditions : Option (List JobCondition)
  pub steps : List JobAction
  pub final_step : Option JobAction

-- ACTION_TYPE_RUN_HANDLER, ACTION_TYPE_RUN_COMMAND and OLD_SCHEMA_VERSION.
abbrev pub run_handler : Text
run_handler = text "runHandler"

abbrev pub run_command : Text
run_command = text "runCommand"

abbrev pub old_schema_version : Text
old_schema_version = text "0.0"

-- The objects as they are before anything is loaded.
abbrev pub empty_action : JobAction
empty_action = record {
  name = [];
  type = [];
  handler_input = none;
  command_input = none;
  run_as_user = some [];
  allow_std_err = none;
  ignore_step_failure = some false;
}

abbrev pub empty_handler_input : ActionHandlerInput
empty_handler_input = record { handler = []; args = none; path = none }

abbrev pub empty_condition : JobCondition
empty_condition = record {
  condition_key = [];
  condition_value = [];
  type = some (text "stringEqual");
}

abbrev pub empty_document : PlainJobDocument
empty_document = record {
  version = [];
  include_std_out = some false;
  conditions = none;
  steps = [];
  final_step = none;
}

-- JobCondition::Validate.
unfoldable pub validate_condition : JobCondition → Bool
validate_condition c = if is_empty c.condition_key then false else not (is_empty c.condition_value)

-- ActionHandlerInput::Validate.
unfoldable pub validate_handler_input : ActionHandlerInput → Bool
validate_handler_input i = not (is_empty i.handler)

-- std::isspace in the C locale.
abbrev pub is_space : ℕ → Bool
is_space c = c == 32 || (leb 9 c && leb c 13)

abbrev validate_command : List Text → Bool
validate_command [] = false
validate_command (first ∷ rest) = not (any is_space first)

-- ActionCommandInput::Validate.
unfoldable pub validate_command_input : ActionCommandInput → Bool
validate_command_input i = validate_command i.command

abbrev deref {ℓ} : {A : Type ℓ} → (A → Bool) → Option A → Option Bool
deref validate none = none
deref validate (some a) = some (validate a)

-- JobAction::Validate.
unfoldable pub validate_action : JobAction → Option Bool
validate_action a =
    if is_empty a.name
    then some false
    else if is_empty a.type
    then some false
    else if not (text_eq a.type run_handler || text_eq a.type run_command)
    then some false
    else if text_eq a.type run_handler
    then deref validate_handler_input a.handler_input
    else deref validate_command_input a.command_input

-- The loop over the steps: the first that is invalid ends it.
unfoldable pub validate_steps : List JobAction → Option Bool
validate_steps [] = some true
validate_steps (a ∷ rest) = elim (validate_action a) [
  | none ↦ none
  | some ok ↦ elim ok [ true ↦ validate_steps rest | false ↦ some false ]
]

unfoldable pub validate_conditions : List JobCondition → Bool
validate_conditions [] = true
validate_conditions (c ∷ rest) = elim (validate_condition c) [
  | true ↦ validate_conditions rest
  | false ↦ false
]

abbrev conditions_ok : Option (List JobCondition) → Bool
conditions_ok none = true
conditions_ok (some cs) = validate_conditions cs

abbrev final_ok : Option JobAction → Option Bool
final_ok none = some true
final_ok (some a) = validate_action a

abbrev steps_ok : List JobAction → Option JobAction → Option Bool
steps_ok [] final = some false
steps_ok (a ∷ rest) final = elim (validate_steps (a ∷ rest)) [
  | none ↦ none
  | some ok ↦ elim ok [ true ↦ final_ok final | false ↦ some false ]
]

-- PlainJobDocument::Validate.
unfoldable pub validate : PlainJobDocument → Option Bool
validate d =
    if is_empty d.version
    then some false
    else if not (conditions_ok d.conditions)
    then some false
    else steps_ok d.steps d.final_step
