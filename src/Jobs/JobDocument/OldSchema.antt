-- ===== src/Jobs/JobDocument/OldSchema.antt =====
-- Documents without a version: the old schema.
use aws_iot_device_client.Base.{
  ◌≡◌, false, not, ◌&&◌, [], ◌∷◌, some, is_empty, arith, if◌then◌else◌,
}
use aws_iot_device_client.Base.Json.{JsonApi}
use aws_iot_device_client.Jobs.JobDocument.{
  empty_document, old_schema_version, validate, validate_steps, validate_action,
  validate_handler_input,
}
use aws_iot_device_client.Jobs.JobDocument.Load.{
  has_string, old_schema_action, load_old_schema, load_from_job_document,
}

module _ (j : JsonApi) (v : JsonApi.View j) where
  old_action_lem :
      validate_action (old_schema_action j v) ≡ some (not (is_empty (j.get_string v "operation")))
  unfolding validate_action old_schema_action validate_handler_input
  old_action_lem = ground arith

  -- A document with no version that is a text is read by the old schema, and Validate then
  -- neither fails on an empty Optional nor accepts it, unless its operation is a text that is not
  -- empty; it has that one step, which runs a handler of that name.
  pub old_schema_lem :
      has_string j v "version" ≡ false
      → let d = load_from_job_document j v empty_document in
        (d.version ≡ old_schema_version)
        × (d.steps ≡ (if has_string j v "operation" then old_schema_action j v ∷ [] else []))
        × (validate d
            ≡ some (has_string j v "operation" && not (is_empty (j.get_string v "operation"))))
  unfolding load_from_job_document load_old_schema validate validate_steps
  old_schema_lem h = ground (arith, old_action_lem)
