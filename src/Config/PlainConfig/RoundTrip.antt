-- ===== src/Config/PlainConfig/RoundTrip.antt =====
-- The whole configuration, read back from what SerializeToObject writes.
use aws_iot_device_client.Base.{
  ◌≡◌, arith, Bool, true, false, ◌||◌, [], Option, none, some, Text, String, if◌then◌else◌,
}
use aws_iot_device_client.Base.Json.{JsonApi, JsonWriter, key_eq, object}
use aws_iot_device_client.Config.Json.{json_text}
use aws_iot_device_client.Config.LogConfig.{json_string, SdkLogLevel}
use aws_iot_device_client.Config.LogConfig.Loading.{sdk_name}
use aws_iot_device_client.Config.Json.Laws.{written, exists-put, exists-put_optional, exists-empty}
use aws_iot_device_client.Config.SensorPublish as SensorPublish
use aws_iot_device_client.Config.PlainConfig.State.{
  PlainConfig, Outside, load_from_json, default_config,
}
use aws_iot_device_client.Config.PlainConfig.Serializing.{serialize_to_object, put_enabled}
use aws_iot_device_client.Config.PlainConfig.Reloads.{Reloads}

module _ {api : JsonApi} (w : JsonWriter api) (o : api.View) (j k : String) (v : api.View) where
  get_json_object-put :
      api.get_json_object (w.put o j (object v)) k
      ≡ (if key_eq j k then v else api.get_json_object o k)
  get_json_object-put = w.object_put o j k v

  exists-put_enabled :
      (b : Bool)
      → api.value_exists (put_enabled w o j b v) k
        ≡ (if key_eq j k then b || api.value_exists o k else api.value_exists o k)
  exists-put_enabled true = rw (w.exists_put o j k (object v)) (ground arith)
  exists-put_enabled false = ground arith

  get_json_object-put_enabled :
      (b : Bool)
      → api.get_json_object (put_enabled w o j b v) k ≡ (
          if key_eq j k
          then (if b then v else api.get_json_object o k)
          else api.get_json_object o k)
  get_json_object-put_enabled true = rw (w.object_put o j k v) (ground arith)
  get_json_object-put_enabled false = ground arith

  json_text-put_enabled :
      (b : Bool) (old : Option Text)
      → json_text api (put_enabled w o j b v) k old ≡ (
          if key_eq j k
          then (if b then some [] else json_text api o k old)
          else json_text api o k old)
  json_text-put_enabled true old =
      rw (w.exists_put o j k (object v), w.string_put o j k (object v)) (ground arith)
  json_text-put_enabled false old = ground arith

  json_string-put_enabled :
      (b : Bool)
      → json_string api (put_enabled w o j b v) k
        ≡ (if key_eq j k then (if b then none else json_string api o k) else json_string api o k)
  json_string-put_enabled true =
      rw (w.exists_put o j k (object v), w.string_put o j k (object v)) (ground arith)
  json_string-put_enabled false = ground arith

ruleset texts = (written, json_text-put_enabled, json_string-put_enabled)

ruleset objects = (
  get_json_object-put, get_json_object-put_enabled, exists-put_enabled, exists-put,
  exists-put_optional, exists-empty,
)

module _ (out : Outside) {api : JsonApi} (w : JsonWriter api) (level_to_string : SdkLogLevel → Text)
    (names : (l : SdkLogLevel) → level_to_string l ≡ sdk_name l) (c : PlainConfig)
    (h : Reloads out c) where
  abbrev reloaded : PlainConfig
  reloaded = load_from_json out api (serialize_to_object w level_to_string c) default_config
