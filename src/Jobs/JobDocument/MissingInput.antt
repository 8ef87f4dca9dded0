-- ===== src/Jobs/JobDocument/MissingInput.antt =====
-- Actions without an input: the validation reads an Optional that is empty.
use aws_iot_device_client.Base.{◌≡◌, ◌≢◌, ◌⊎◌, inl, inr, true, false, [], none, is_empty_iff, arith}
use aws_iot_device_client.Base.Json.{JsonApi}
use aws_iot_device_client.Jobs.JobDocument.{empty_action, run_handler, run_command, validate_action}
use aws_iot_device_client.Jobs.JobDocument.Load.{has_string, load_action, load_input}

-- An action of a document of the new schema that has a name and a supported type and no `input`
-- is not rejected: JobAction::Validate applies `->` to an empty Optional.
pub missing_input_faults :
    (j : JsonApi) (v : JsonApi.View j)
    → has_string j v "name" ≡ true
    → j.get_string v "name" ≢ []
    → has_string j v "type" ≡ true
    → (j.get_string v "type" ≡ run_handler) ⊎ (j.get_string v "type" ≡ run_command)
    → j.value_exists v "input" ≡ false
    → validate_action (load_action j v empty_action) ≡ none
unfolding load_action load_input validate_action
missing_input_faults j v n m t (inl e) i = ground (arith, is_empty_iff (j.get_string v "name"))
missing_input_faults j v n m t (inr e) i = ground (arith, is_empty_iff (j.get_string v "name"))
