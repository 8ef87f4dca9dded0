-- ===== src/Config/ConfigShadow.antt =====
-- config/Config.cpp: PlainConfig::ConfigShadow.
use aws_iot_device_client.Base.{Bool, false}
use aws_iot_device_client.Base.Json.{JsonApi, JsonWriter, bool}
use aws_iot_device_client.Config.CommandLine.{CliArgs}
use aws_iot_device_client.Config.Json.{json_bool, cli_flag}

pub record ConfigShadow : Type 0 where
  pub enabled : Bool

unfoldable pub default_config_shadow : ConfigShadow
default_config_shadow = record { enabled = false }

-- LoadFromJson.
unfoldable pub load_from_json : (api : JsonApi) → api.View → ConfigShadow → ConfigShadow
load_from_json api json c = record { enabled = json_bool api json "enabled" c.enabled }

-- LoadFromCliArgs.
unfoldable pub load_from_cli_args : CliArgs → ConfigShadow → ConfigShadow
load_from_cli_args args c = record { enabled = cli_flag args "--enable-config-shadow" c.enabled }

-- SerializeToObject.
unfoldable pub serialize_to_object : {api : JsonApi} → JsonWriter api → ConfigShadow → api.View
serialize_to_object w c = w.put w.empty "enabled" (bool c.enabled)
