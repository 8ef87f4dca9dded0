-- ===== src/Config/Jobs.antt =====
-- config/Config.cpp: PlainConfig::Jobs.
use aws_iot_device_client.Base.{Bool, true, [], Text, text, or_else}
use aws_iot_device_client.Base.Json.{JsonApi, JsonWriter, bool, string}
use aws_iot_device_client.Util.FileUtils.{FileSystem, extract_expanded_path}
use aws_iot_device_client.Config.CommandLine.{CliArgs, find}
use aws_iot_device_client.Config.LogConfig.{json_string}
use aws_iot_device_client.Config.Json.{json_bool, cli_flag}

pub record Jobs : Type 0 where
  pub enabled : Bool
  pub handler_dir : Text

unfoldable pub default_jobs : Jobs
default_jobs = record { enabled = true; handler_dir = [] }

-- LoadFromJson.
unfoldable pub load_from_json : FileSystem → (api : JsonApi) → api.View → Jobs → Jobs
load_from_json fs api json c = record c {
  enabled = json_bool api json "enabled" c.enabled;
  handler_dir =
      or_else (json_string api json "handler-directory") (λ s. extract_expanded_path fs s)
        c.handler_dir;
}

-- LoadFromCliArgs.
unfoldable pub load_from_cli_args : FileSystem → CliArgs → Jobs → Jobs
load_from_cli_args fs args c = record c {
  enabled = cli_flag args "--enable-jobs" c.enabled;
  handler_dir =
      or_else (find (text "--jobs-handler-dir") args) (λ s. extract_expanded_path fs s)
        c.handler_dir;
}

-- SerializeToObject.
unfoldable pub serialize_to_object : {api : JsonApi} → JsonWriter api → Jobs → api.View
serialize_to_object w c =
    let o = w.put w.empty "enabled" (bool c.enabled) in
    w.put o "handler-directory" (string c.handler_dir)
