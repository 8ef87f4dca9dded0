-- ===== src/Config/FleetProvisioning.antt =====
-- config/Config.cpp: PlainConfig::FleetProvisioning, and the settings that the provisioning stores,
-- PlainConfig::FleetProvisioningRuntimeConfig, in the child.
pub mod Runtime
use aws_iot_device_client.Base.{
  Bool, true, false, not, ◌&&◌, ◌||◌, Option, none, some, Text, text, is_empty, or_else,
  if◌then◌else◌,
}
use aws_iot_device_client.Base.Json.{JsonApi, JsonWriter, JsonItem, bool, put_optional}
use aws_iot_device_client.Util.FileUtils.{FileSystem, is_valid_file_path}
use aws_iot_device_client.Config.CommandLine.{CliArgs}
use aws_iot_device_client.Config.LogConfig.{json_string}
use aws_iot_device_client.Config.Tunneling.{is_given}
use aws_iot_device_client.Config.Json.{json_bool, cli_flag, cli_text, cli_path, json_path, or_old}

pub record FleetProvisioning : Type 0 where
  pub enabled : Bool
  pub template_name : Option Text
  pub template_parameters : Option Text
  pub csr_file : Option Text
  pub device_key : Option Text

unfoldable pub default_fleet_provisioning : FleetProvisioning
default_fleet_provisioning = record {
  enabled = false;
  template_name = none;
  template_parameters = none;
  csr_file = none;
  device_key = none;
}

-- LoadFromJson.
unfoldable pub load_from_json :
    FileSystem → (api : JsonApi) → api.View → FleetProvisioning → FleetProvisioning
load_from_json fs api json c =
    let enabled = json_bool api json "enabled" c.enabled in
    if enabled
    then record {
      enabled = enabled;
      template_name = or_old (json_string api json "template-name") c.template_name;
      template_parameters =
          or_old (json_string api json "template-parameters") c.template_parameters;
      csr_file = json_path fs api json "csr-file" c.csr_file;
      device_key = json_path fs api json "device-key" c.device_key;
    }
    else record c { enabled = enabled }

-- LoadFromCliArgs.
unfoldable pub load_from_cli_args : FileSystem → CliArgs → FleetProvisioning → FleetProvisioning
load_from_cli_args fs args c = record {
  enabled = cli_flag args "--enable-fleet-provisioning" c.enabled;
  template_name = cli_text args "--fleet-provisioning-template-name" c.template_name;
  template_parameters =
      cli_text args "--fleet-provisioning-template-parameters" c.template_parameters;
  csr_file = cli_path fs args "--csr-file" c.csr_file;
  device_key = cli_path fs args "--device-key" c.device_key;
}

-- A file that is named is there.
abbrev pub found : FileSystem → Option Text → Bool
found fs path = or_else path (λ p. is_empty p || is_valid_file_path fs p) true

-- Validate.
unfoldable pub validate : FileSystem → FleetProvisioning → Bool
validate fs c =
    not c.enabled || (is_given c.template_name && (found fs c.csr_file && found fs c.device_key))

-- SerializeToObject.
unfoldable pub serialize_to_object : {api : JsonApi} → JsonWriter api → FleetProvisioning → api.View
serialize_to_object w c =
    let o0 = w.put w.empty "enabled" (bool c.enabled) in
    let o1 = put_optional w o0 "template-name" c.template_name in
    let o2 = put_optional w o1 "template-parameters" c.template_parameters in
    let o3 = put_optional w o2 "csr-file" c.csr_file in put_optional w o3 "device-key" c.device_key
