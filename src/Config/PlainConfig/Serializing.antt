-- ===== src/Config/PlainConfig/Serializing.antt =====
-- config/Config.cpp: PlainConfig::SerializeToObject.
use aws_iot_device_client.Base.{String, Bool, Text, if◌then◌else◌}
use aws_iot_device_client.Base.Json.{JsonApi, JsonWriter, object, put_optional}
use aws_iot_device_client.Config.LogConfig as LogConfig
use aws_iot_device_client.Config.Tunneling as Tunneling
use aws_iot_device_client.Config.Jobs as Jobs
use aws_iot_device_client.Config.DeviceDefender as DeviceDefender
use aws_iot_device_client.Config.ConfigShadow as ConfigShadow
use aws_iot_device_client.Config.FleetProvisioning as FleetProvisioning
use aws_iot_device_client.Config.FleetProvisioning.Runtime as Runtime
use aws_iot_device_client.Config.PubSub as PubSub
use aws_iot_device_client.Config.SampleShadow as SampleShadow
use aws_iot_device_client.Config.SecureElement as SecureElement
use aws_iot_device_client.Config.SensorPublish as SensorPublish
use aws_iot_device_client.Config.PlainConfig.State.{PlainConfig}

module _ {api : JsonApi} (w : JsonWriter api) where
  abbrev pub put_object : api.View → String → api.View → api.View
  put_object o key v = w.put o key (object v)

  -- An object that is written only if a feature is enabled.
  abbrev pub put_enabled : api.View → String → Bool → api.View → api.View
  put_enabled o key enabled v = if enabled then put_object o key v else o

  -- The first five members.
  abbrev pub put_identity : PlainConfig → api.View
  put_identity c =
      let o1 = put_optional w w.empty "endpoint" c.endpoint in
      let o2 = put_optional w o1 "cert" c.cert in
      let o3 = put_optional w o2 "key" c.key in
      let o4 = put_optional w o3 "root-ca" c.root_ca in put_optional w o4 "thing-name" c.thing_name

  -- SerializeToObject, on a new object.
  unfoldable pub serialize_to_object : (LogConfig.SdkLogLevel → Text) → PlainConfig → api.View
  serialize_to_object level_to_string c =
      let o1 =
        put_object (put_identity c) "logging"
          (LogConfig.serialize_to_object level_to_string w c.log_config) in
      let o2 = put_object o1 "jobs" (Jobs.serialize_to_object w c.jobs) in
      let o3 = put_object o2 "tunneling" (Tunneling.serialize_to_object w c.tunneling) in
      let o4 =
        put_object o3 "device-defender" (DeviceDefender.serialize_to_object w c.device_defender) in
      let o5 =
        put_object o4 "fleet-provisioning"
          (FleetProvisioning.serialize_to_object w c.fleet_provisioning) in
      let o6 =
        put_enabled o5 "runtime-config" c.fleet_provisioning.enabled
          (Runtime.serialize_to_object w c.fleet_provisioning_runtime_config) in
      let samples = put_object w.empty "pub-sub" (PubSub.serialize_to_object w c.pub_sub) in
      let o7 = put_object o6 "samples" samples in
      let o8 = put_object o7 "config-shadow" (ConfigShadow.serialize_to_object w c.config_shadow) in
      let o9 = put_object o8 "sample-shadow" (SampleShadow.serialize_to_object w c.sample_shadow) in
      let o10 =
        put_object o9 "secure-element" (SecureElement.serialize_to_object w c.secure_element) in
      put_enabled o10 "sensor-publish" c.sensor_publish.enabled
        (SensorPublish.serialize_to_object w c.sensor_publish)
