-- ===== src/Config/DeviceDefender.antt =====
-- config/Config.cpp: PlainConfig::DeviceDefender. `stoi` is that of the C++ library, none where it
-- throws: the load fails, or the exception leaves it and Config::init returns false.
use aws_iot_device_client.Base.{Bool, true, false, not, ◌||◌, Option, Text, text, or_else}
use aws_iot_device_client.Base.Int.{ℤ, pos, ◌≤?ℤ◌}
use aws_iot_device_client.Base.Json.{JsonApi, JsonWriter, bool, integer}
use aws_iot_device_client.Config.CommandLine.{CliArgs, find}
use aws_iot_device_client.Config.Json.{json_bool, json_integer, cli_flag}

pub record DeviceDefender : Type 0 where
  pub enabled : Bool
  pub interval : ℤ

unfoldable pub default_device_defender : DeviceDefender
default_device_defender = record { enabled = false; interval = pos 300 }

-- LoadFromJson.
unfoldable pub load_from_json : (api : JsonApi) → api.View → DeviceDefender → DeviceDefender
load_from_json api json c = record c {
  enabled = json_bool api json "enabled" c.enabled;
  interval = json_integer api json "interval" c.interval;
}

-- LoadFromCliArgs.
unfoldable pub load_from_cli_args :
    (Text → Option ℤ) → CliArgs → DeviceDefender → DeviceDefender × Bool
load_from_cli_args stoi args c =
    let d = record c { enabled = cli_flag args "--enable-device-defender" c.enabled } in
    or_else (find (text "--device-defender-interval") args)
      (λ s. or_else (stoi s) (λ n. (record d { interval = n }, true)) (d, false)) (d, true)

-- Validate.
unfoldable pub validate : DeviceDefender → Bool
validate c = not c.enabled || not (c.interval ≤?ℤ pos 0)

-- SerializeToObject.
unfoldable pub serialize_to_object : {api : JsonApi} → JsonWriter api → DeviceDefender → api.View
serialize_to_object w c =
    let o = w.put w.empty "enabled" (bool c.enabled) in w.put o "interval" (integer c.interval)
