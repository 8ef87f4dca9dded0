-- ===== src/Config/SensorPublish.antt =====
-- config/Config.cpp: PlainConfig::SensorPublish, with util/MqttUtils.cpp. `to_string` and the
-- regular expressions are those of the C++ library: `compiles` tells whether std::regex takes a
-- pattern, `after_reserved` is the rest of a topic after a match of PREFIX_OF_RESERVED_TOPIC.
-- AWS_ADDRESS_MAX_LEN of the AWS CRT is `address_max_len`.
pub mod Requirements
pub mod Validity
use aws_iot_device_client.Base.{
  ℕ, ◌+◌, suc, Bool, true, false, not, ◌&&◌, ◌||◌, List, [], ◌∷◌, ◌++◌, Option, none, some, Text,
  text, is_empty, or_else, if◌then◌else◌, leb, ltb, length, map,
}
use aws_iot_device_client.Base.Int.{ℤ, pos, ◌≤?ℤ◌}
use aws_iot_device_client.Base.Json.{
  JsonApi, JsonWriter, JsonItem, bool, int64, array, put_optional,
}
use aws_iot_device_client.Util.FileUtils.{
  FileSystem, extract_parent_directory, file_exists, validate_file_permissions,
}
use aws_iot_device_client.Config.Tunneling.{is_given}
use aws_iot_device_client.Config.Json.{json_bool, json_int64, json_text}

-- The Optionals that have a value from the start keep one.
pub record SensorSettings : Type 0 where
  pub enabled : Bool
  pub name : Option Text
  pub addr : Option Text
  pub addr_poll_sec : ℤ
  pub buffer_time_ms : ℤ
  pub buffer_size : ℤ
  pub buffer_capacity : ℤ
  pub eom_delimiter : Option Text
  pub mqtt_topic : Option Text
  pub mqtt_dead_letter_topic : Option Text
  pub mqtt_heartbeat_topic : Option Text
  pub heartbeat_time_sec : ℤ

unfoldable pub default_sensor_settings : SensorSettings
default_sensor_settings = record {
  enabled = true;
  name = none;
  addr = none;
  addr_poll_sec = pos 10;
  buffer_time_ms = pos 0;
  buffer_size = pos 0;
  buffer_capacity = pos 128000;
  eom_delimiter = none;
  mqtt_topic = none;
  mqtt_dead_letter_topic = none;
  mqtt_heartbeat_topic = none;
  heartbeat_time_sec = pos 300;
}

pub record SensorPublish : Type 0 where
  pub enabled : Bool
  pub settings : List SensorSettings

unfoldable pub default_sensor_publish : SensorPublish
default_sensor_publish = record { enabled = false; settings = [] }

-- One entry of the array in LoadFromJson, with its number.
unfoldable pub load_sensor : (ℕ → Text) → (api : JsonApi) → api.View → ℕ → SensorSettings
unfolding default_sensor_settings
load_sensor to_string api entry entry_id =
    let d = default_sensor_settings in
    record {
      enabled = json_bool api entry "enabled" d.enabled;
      name = json_text api entry "name" (some (to_string entry_id));
      addr = json_text api entry "addr" d.addr;
      addr_poll_sec = json_int64 api entry "addr_poll_sec" d.addr_poll_sec;
      buffer_time_ms = json_int64 api entry "buffer_time_ms" d.buffer_time_ms;
      buffer_size = json_int64 api entry "buffer_size" d.buffer_size;
      buffer_capacity = json_int64 api entry "buffer_capacity" d.buffer_capacity;
      eom_delimiter = json_text api entry "eom_delimiter" d.eom_delimiter;
      mqtt_topic = json_text api entry "mqtt_topic" d.mqtt_topic;
      mqtt_dead_letter_topic =
          json_text api entry "mqtt_dead_letter_topic" d.mqtt_dead_letter_topic;
      mqtt_heartbeat_topic = json_text api entry "mqtt_heartbeat_topic" d.mqtt_heartbeat_topic;
      heartbeat_time_sec = json_int64 api entry "heartbeat_time_sec" d.heartbeat_time_sec;
    }

unfoldable pub load_sensors :
    (ℕ → Text) → (api : JsonApi) → List api.View → ℕ → SensorPublish → SensorPublish
load_sensors to_string api [] entry_id c = c
load_sensors to_string api (entry ∷ entries) entry_id c =
    let s = load_sensor to_string api entry entry_id in
    load_sensors to_string api entries (entry_id + 1)
      (record { enabled = s.enabled || c.enabled; settings = c.settings ++ (s ∷ []) })

-- LoadFromJson.
unfoldable pub load_from_json :
    (ℕ → Text) → (api : JsonApi) → api.View → SensorPublish → SensorPublish
unfolding load_sensors
load_from_json to_string api json c =
    if api.value_exists json "sensors" && api.is_list_type (api.get_json_object json "sensors")
    then load_sensors to_string api (api.get_array json "sensors") 1 c
    else c

-- What the check asks of the world outside.
pub record SensorChecks : Type 0 where
  pub files : FileSystem
  pub compiles : Text → Bool
  pub after_reserved : Text → Option Text
  pub address_max_len : ℕ

-- MqttUtils::ValidateAwsIotMqttTopicName.
unfoldable pub validate_topic_name : (Text → Option Text) → Text → Bool
validate_topic_name after_reserved topic =
    leb (length (or_else (after_reserved topic) (λ rest. rest) topic)) 256

module _ (k : SensorChecks) where
  -- The socket at its path, or a directory for it.
  unfoldable pub addr_permitted : Text → Bool
  addr_permitted addr =
      if file_exists k.files addr
      then validate_file_permissions k.files addr 660 true
      else validate_file_permissions k.files (extract_parent_directory addr) 700 true

  abbrev pub optional_topic : Option Text → Bool
  optional_topic topic =
      or_else topic (λ t. is_empty t || validate_topic_name k.after_reserved t) true

  -- The checks of an enabled sensor in Validate that need no address and no topic.
  abbrev pub settings_valid : SensorSettings → Bool
  settings_valid s =
      optional_topic s.mqtt_dead_letter_topic
      && (optional_topic s.mqtt_heartbeat_topic
          && (or_else s.eom_delimiter (λ d. not (is_empty d) && k.compiles d) false
              && ((pos 0 ≤?ℤ s.addr_poll_sec)
                  && ((pos 0 ≤?ℤ s.buffer_time_ms)
                      && ((pos 0 ≤?ℤ s.buffer_size)
                          && ((pos 0 ≤?ℤ s.heartbeat_time_sec)
                              && (pos 1024 ≤?ℤ s.buffer_capacity)))))))

  -- The body of the loop of Validate for an enabled sensor; none is the use of an empty Optional.
  unfoldable pub validate_sensor : SensorSettings → Option SensorSettings
  unfolding addr_permitted validate_topic_name
  validate_sensor s =
      or_else s.addr
        (λ addr.
          or_else s.mqtt_topic
            (λ topic. some (record s {
              enabled =
                  addr_permitted addr
                  && (leb (length addr + 1) k.address_max_len
                      && (not (is_empty topic)
                          && (validate_topic_name k.after_reserved topic && settings_valid s)));
            }))
            none)
        none

  -- A round of the loop: the sensor, and whether one is valid.
  abbrev pub round :
      Option SensorSettings
      → Option (List SensorSettings × Bool)
      → Option (List SensorSettings × Bool)
  round (some t) (some (ts, valid)) = some ((t ∷ ts), (t.enabled || valid))
  round (some t) none = none
  round none rest = none

  abbrev pub validate_one : SensorSettings → Option SensorSettings
  validate_one s = if s.enabled then validate_sensor s else some s

  unfoldable pub validate_sensors : List SensorSettings → Option (List SensorSettings × Bool)
  validate_sensors [] = some ([], false)
  validate_sensors (s ∷ settings) = round (validate_one s) (validate_sensors settings)

  abbrev pub disable : SensorSettings → SensorSettings
  disable s = record s { enabled = false }

  -- Validate; MAX_SENSOR_SIZE is 10.
  unfoldable pub validate : SensorPublish → Option (SensorPublish × Bool)
  unfolding validate_sensors
  validate c =
      if is_empty c.settings
      then some (c, true)
      else if ltb 10 (length c.settings)
      then some (record c { settings = map disable c.settings }, false)
      else or_else (validate_sensors c.settings) (λ r. some (record c { settings = r.0 }, r.1)) none

-- SerializeToObject.
unfoldable pub serialize_sensor : {api : JsonApi} → JsonWriter api → SensorSettings → api.View
serialize_sensor w s =
    let o0 = put_optional w w.empty "name" s.name in
    let o1 = w.put o0 "enabled" (bool s.enabled) in
    let o2 = put_optional w o1 "addr" s.addr in
    let o3 = w.put o2 "addr_poll_sec" (int64 s.addr_poll_sec) in
    let o4 = w.put o3 "buffer_time_ms" (int64 s.buffer_time_ms) in
    let o5 = w.put o4 "buffer_size" (int64 s.buffer_size) in
    let o6 = w.put o5 "buffer_capacity" (int64 s.buffer_capacity) in
    let o7 = put_optional w o6 "eom_delimiter" s.eom_delimiter in
    let o8 = put_optional w o7 "mqtt_topic" s.mqtt_topic in
    let o9 = put_optional w o8 "mqtt_dead_letter_topic" s.mqtt_dead_letter_topic in
    let o10 = put_optional w o9 "mqtt_heartbeat_topic" s.mqtt_heartbeat_topic in
    w.put o10 "heartbeat_time_sec" (int64 s.heartbeat_time_sec)

unfoldable pub serialize_to_object : {api : JsonApi} → JsonWriter api → SensorPublish → api.View
unfolding serialize_sensor
serialize_to_object w c = w.put w.empty "sensors" (array (map (serialize_sensor w) c.settings))
