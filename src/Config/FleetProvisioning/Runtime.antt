-- ===== src/Config/FleetProvisioning/Runtime.antt =====
-- config/Config.cpp: PlainConfig::FleetProvisioningRuntimeConfig, which a provisioning stores.
use aws_iot_device_client.Base.{Bool, false, ◌&&◌, Option, none, Text, if◌then◌else◌}
use aws_iot_device_client.Base.Json.{JsonApi, JsonWriter, bool, put_optional}
use aws_iot_device_client.Util.FileUtils.{FileSystem}
use aws_iot_device_client.Config.Tunneling.{is_given}
use aws_iot_device_client.Config.Json.{json_bool, json_path, json_text}

pub record RuntimeConfig : Type 0 where
  pub completed_fleet_provisioning : Bool
  pub cert : Option Text
  pub key : Option Text
  pub thing_name : Option Text

unfoldable pub default_runtime_config : RuntimeConfig
default_runtime_config = record {
  completed_fleet_provisioning = false;
  cert = none;
  key = none;
  thing_name = none;
}

-- LoadFromJson.
unfoldable pub load_from_json :
    FileSystem → (api : JsonApi) → api.View → RuntimeConfig → RuntimeConfig
load_from_json fs api json c =
    let completed = json_bool api json "completed-fp" c.completed_fleet_provisioning in
    if completed
    then record {
      completed_fleet_provisioning = completed;
      cert = json_path fs api json "cert" c.cert;
      key = json_path fs api json "key" c.key;
      thing_name = json_text api json "thing-name" c.thing_name;
    }
    else record c { completed_fleet_provisioning = completed }

-- Validate.
unfoldable pub validate : RuntimeConfig → Bool
validate c =
    c.completed_fleet_provisioning && (is_given c.cert && (is_given c.key && is_given c.thing_name))

-- SerializeToObject.
unfoldable pub serialize_to_object : {api : JsonApi} → JsonWriter api → RuntimeConfig → api.View
serialize_to_object w c =
    let o0 = w.put w.empty "completed-fp" (bool c.completed_fleet_provisioning) in
    let o1 = put_optional w o0 "cert" c.cert in
    let o2 = put_optional w o1 "key" c.key in put_optional w o2 "thing-name" c.thing_name
