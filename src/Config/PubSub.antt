-- ===== src/Config/PubSub.antt =====
-- config/Config.cpp: PlainConfig::PubSub.
use aws_iot_device_client.Base.{Bool, false, not, ◌&&◌, ◌||◌, Option, none, Text, if◌then◌else◌}
use aws_iot_device_client.Base.Json.{JsonApi, JsonWriter, bool, put_optional}
use aws_iot_device_client.Util.FileUtils.{FileSystem}
use aws_iot_device_client.Config.CommandLine.{CliArgs}
use aws_iot_device_client.Config.LogConfig.{json_string}
use aws_iot_device_client.Config.Tunneling.{is_given}
use aws_iot_device_client.Config.Json.{json_bool, cli_flag, cli_text, cli_path, json_path, or_old}

pub record PubSub : Type 0 where
  pub enabled : Bool
  pub publish_topic : Option Text
  pub publish_file : Option Text
  pub subscribe_topic : Option Text
  pub subscribe_file : Option Text
  pub publish_on_change : Bool

unfoldable pub default_pub_sub : PubSub
default_pub_sub = record {
  enabled = false;
  publish_topic = none;
  publish_file = none;
  subscribe_topic = none;
  subscribe_file = none;
  publish_on_change = false;
}

-- LoadFromJson.
unfoldable pub load_from_json : FileSystem → (api : JsonApi) → api.View → PubSub → PubSub
load_from_json fs api json c =
    let enabled = json_bool api json "enabled" c.enabled in
    let on_change = json_bool api json "publish-on-change" c.publish_on_change in
    if enabled
    then record {
      enabled = enabled;
      publish_topic = or_old (json_string api json "publish-topic") c.publish_topic;
      publish_file = or_old (json_string api json "publish-file") c.publish_file;
      subscribe_topic = or_old (json_string api json "subscribe-topic") c.subscribe_topic;
      subscribe_file = json_path fs api json "subscribe-file" c.subscribe_file;
      publish_on_change = on_change;
    }
    else record c { enabled = enabled; publish_on_change = on_change }

-- LoadFromCliArgs.
unfoldable pub load_from_cli_args : FileSystem → CliArgs → PubSub → PubSub
load_from_cli_args fs args c = record c {
  enabled = cli_flag args "--enable-pub-sub" c.enabled;
  publish_topic = cli_text args "--publish-topic" c.publish_topic;
  publish_file = cli_text args "--publish-file" c.publish_file;
  subscribe_topic = cli_text args "--subscribe-topic" c.subscribe_topic;
  subscribe_file = cli_path fs args "--subscribe-file" c.subscribe_file;
}

-- Validate.
unfoldable pub validate : PubSub → Bool
validate c = not c.enabled || (is_given c.publish_topic && is_given c.subscribe_topic)

-- SerializeToObject.
unfoldable pub serialize_to_object : {api : JsonApi} → JsonWriter api → PubSub → api.View
serialize_to_object w c =
    let o0 = w.put w.empty "enabled" (bool c.enabled) in
    let o1 = put_optional w o0 "publish-topic" c.publish_topic in
    let o2 = put_optional w o1 "publish-file" c.publish_file in
    let o3 = put_optional w o2 "subscribe-topic" c.subscribe_topic in
    put_optional w o3 "subscribe-file" c.subscribe_file
