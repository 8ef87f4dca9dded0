-- ===== src/Shadow/ConfigShadow.antt =====
-- shadow/ConfigShadow.cpp: the settings that the shadow of the configuration reports, and those
-- that it changes.
pub mod Reset
use aws_iot_device_client.Base.{Bool, true, false, ◌&&◌, String, text, if◌then◌else◌}
use aws_iot_device_client.Base.Json.{JsonApi, JsonWriter, JsonItem}
use aws_iot_device_client.Util.FileUtils.{FileSystem}
use aws_iot_device_client.Config.Tunneling as Tunneling
use aws_iot_device_client.Config.Jobs as Jobs
use aws_iot_device_client.Config.DeviceDefender as DeviceDefender
use aws_iot_device_client.Config.PubSub as PubSub
use aws_iot_device_client.Config.SampleShadow as SampleShadow
use aws_iot_device_client.Config.PlainConfig.{PlainConfig}
use aws_iot_device_client.Config.PlainConfig.Serializing.{put_object}

-- loadFeatureConfigIntoJsonObject.
unfoldable pub load_feature_config_into_json_object :
    {api : JsonApi} → JsonWriter api → PlainConfig → api.View → api.View
load_feature_config_into_json_object w c o =
    let o1 = put_object w o "tunneling" (Tunneling.serialize_to_object w c.tunneling) in
    let o2 = put_object w o1 "jobs" (Jobs.serialize_to_object w c.jobs) in
    let o3 =
      put_object w o2 "device-defender" (DeviceDefender.serialize_to_object w c.device_defender) in
    let samples = put_object w w.empty "pub-sub" (PubSub.serialize_to_object w c.pub_sub) in
    let o4 = put_object w o3 "samples" samples in
    put_object w o4 "sample-shadow" (SampleShadow.serialize_to_object w c.sample_shadow)

-- A section that both documents have is replaced by the desired one, if that is valid.
abbrev pub update_section {ℓ} :
    {A : Type ℓ} (api : JsonApi)
    → (delta desired : api.View) → String
    → (api.View → A)
    → (A → Bool)
    → A
    → A
update_section api delta desired key load valid old =
    let loaded = load (api.get_json_object desired key) in
    if api.value_exists desired key && api.value_exists delta key
    then (if valid loaded then loaded else old)
    else old

-- resetClientConfigWithJSON. Jobs::Validate accepts all; pub-sub is read whether it is there or not.
unfoldable pub reset_client_config_with_json :
    FileSystem → (api : JsonApi) → (delta desired : api.View) → PlainConfig → PlainConfig
reset_client_config_with_json fs api delta desired c = record c {
  jobs =
      update_section api delta desired "jobs" (λ v. Jobs.load_from_json fs api v Jobs.default_jobs)
        (λ j. true) c.jobs;
  tunneling =
      update_section api delta desired "tunneling"
        (λ v. Tunneling.load_from_json api v Tunneling.default_tunneling) Tunneling.validate
        c.tunneling;
  device_defender =
      update_section api delta desired "device-defender"
        (λ v. DeviceDefender.load_from_json api v DeviceDefender.default_device_defender)
        DeviceDefender.validate c.device_defender;
  pub_sub =
      update_section api delta desired "samples"
        (λ v. PubSub.load_from_json fs api (api.get_json_object v "pub-sub") PubSub.default_pub_sub)
        PubSub.validate c.pub_sub;
  sample_shadow =
      update_section api delta desired "sample-shadow"
        (λ v. SampleShadow.load_from_json fs api v SampleShadow.default_sample_shadow)
        (SampleShadow.validate fs) c.sample_shadow;
}
