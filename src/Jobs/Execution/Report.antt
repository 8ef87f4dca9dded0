-- ===== src/Jobs/Execution/Report.antt =====
-- What is reported of a job.

use aws_iot_device_client.Base.{◌≡◌, Text, arith}
use aws_iot_device_client.Base.Int.{ℤ}
use aws_iot_device_client.Base.Json.{JsonApi}
use aws_iot_device_client.Jobs.LimitedStreamBuffer.{to_string}
use aws_iot_device_client.Jobs.JobDocument.{empty_document}
use aws_iot_device_client.Jobs.JobDocument.Load.{
  load_from_job_document, load_old_schema, load_new_schema,
}
use aws_iot_device_client.Jobs.JobEngine.{Os}
use aws_iot_device_client.Jobs.JobEngine.Actions.{Progress}
use aws_iot_device_client.Jobs.Execution.{report}

-- A document that initJob has loaded has a value for includeStdOut, be it the `false` of the
-- member's initializer: the report of its job has the standard output whatever the document says.
pub stdout_always :
    {W : Type 0} (os : Os W) (print : ℤ → Text) (j : JsonApi) (view : JsonApi.View j)
    (p : Progress W)
    → (report os print (load_from_job_document j view empty_document) p).stdoutput
      ≡ to_string p.engine.stdout_stream
unfolding report load_from_job_document load_old_schema load_new_schema
stdout_always os print j view p = ground arith
