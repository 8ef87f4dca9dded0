-- ===== src/Config/PlainConfig/Checking.antt =====
-- config/Config.cpp: PlainConfig::Validate.
use aws_iot_device_client.Base.{
  ℕ, ◌*◌, ◌%◌, ◌^◌, Bool, true, false, not, ◌&&◌, ◌||◌, Option, none, some, Text, is_empty, or_else,
  if◌then◌else◌, ltb, leb, ◌==◌,
}
use aws_iot_device_client.Util.FileUtils.{
  FileSystem, extract_parent_directory, file_exists, is_valid_file_path, validate_file_permissions,
}
use aws_iot_device_client.Config.Tunneling as Tunneling
use aws_iot_device_client.Config.Tunneling.{is_given}
use aws_iot_device_client.Config.DeviceDefender as DeviceDefender
use aws_iot_device_client.Config.FleetProvisioning as FleetProvisioning
use aws_iot_device_client.Config.PubSub as PubSub
use aws_iot_device_client.Config.SampleShadow as SampleShadow
use aws_iot_device_client.Config.SecureElement as SecureElement
use aws_iot_device_client.Config.SensorPublish as SensorPublish
use aws_iot_device_client.Config.PlainConfig.State.{PlainConfig, Outside, files}

-- The first two checks of Validate; the product is an uint32_t.
unfoldable pub mqtt_valid : ℕ → ℕ → Bool
mqtt_valid keep_alive_seconds ping_timeout_ms =
    if not (keep_alive_seconds == 0) && (ltb keep_alive_seconds 30 || ltb 1200 keep_alive_seconds)
    then false
    else let effective_keep_alive_seconds =
        if keep_alive_seconds == 0 then 1200 else keep_alive_seconds in
      let effective_ping_timeout_ms = if ping_timeout_ms == 0 then 3000 else ping_timeout_ms in
      not (leb ((effective_keep_alive_seconds * 1000) % 2 ^ 32) effective_ping_timeout_ms)

-- The checks of the root certificate, the endpoint, the certificate, the key and the name.
unfoldable pub root_ca_valid : FileSystem → Option Text → Bool
root_ca_valid fs root_ca =
    or_else root_ca
      (λ s.
        not (not (is_empty s) && file_exists fs s)
        || (validate_file_permissions fs (extract_parent_directory s) 700 true
            && validate_file_permissions fs s 644 true))
      true

abbrev pub file_given : FileSystem → Option Text → Bool
file_given fs path = or_else path (λ s. not (is_empty s) && is_valid_file_path fs s) false

unfoldable pub identity_valid : FileSystem → PlainConfig → Bool
identity_valid fs c =
    is_given c.endpoint
    && (file_given fs c.cert
        && ((c.secure_element.enabled || file_given fs c.key) && is_given c.thing_name))

unfoldable pub sections_valid : FileSystem → PlainConfig → Bool
sections_valid fs c =
    DeviceDefender.validate c.device_defender
    && (Tunneling.validate c.tunneling
        && (FleetProvisioning.validate fs c.fleet_provisioning
            && (PubSub.validate c.pub_sub
                && (SampleShadow.validate fs c.sample_shadow
                    && SecureElement.validate c.secure_element))))

-- Validate; none is the use of an empty Optional.
unfoldable pub validate : Outside → PlainConfig → Option (PlainConfig × Bool)
validate o c =
    let fs = files o in
    if mqtt_valid c.mqtt_keep_alive_seconds c.mqtt_ping_timeout_ms
      && (root_ca_valid fs c.root_ca && (identity_valid fs c && sections_valid fs c))
    then or_else (SensorPublish.validate o.checks c.sensor_publish)
        (λ r. some (record c { sensor_publish = r.0 }, r.1)) none
    else some (c, false)
