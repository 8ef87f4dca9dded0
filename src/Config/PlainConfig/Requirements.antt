-- ===== src/Config/PlainConfig/Requirements.antt =====
-- What a configuration has to meet.
pub mod Checks
use aws_iot_device_client.Base.{
  ℕ, zero, suc, ◌*◌, ◌≤◌, ◌<◌, ◌≡◌, ◌≢◌, ◌⊎◌, ◌↔◌, ◌∙◌, sym, ap, ap₂, refl, inl, inr, arith, Bool,
  true, false, not, ◌&&◌, ◌||◌, Option, none, some, Option-cases, Bool-cases, Text, is_empty,
  or_else, if◌then◌else◌, ltb, leb, [], ◌∷◌,
}
use aws_iot_device_client.Base.Int.{ℤ, pos, negsuc, ◌≤?ℤ◌}
use aws_iot_device_client.Util.FileUtils.{
  FileSystem, validate_file_permissions, get_file_size, is_valid_file_path, file_exists,
  extract_parent_directory,
}
use aws_iot_device_client.Util.FileUtils.Permissions.{Permitted, validate_file_permissions_iff}
use aws_iot_device_client.Config.Requirements.{both, AtLeast}
use aws_iot_device_client.Config.SensorPublish as SensorPublish
use aws_iot_device_client.Config.Tunneling.{is_given}
use aws_iot_device_client.Config.Tunneling as Tunneling
use aws_iot_device_client.Config.DeviceDefender as DeviceDefender
use aws_iot_device_client.Config.FleetProvisioning as FleetProvisioning
use aws_iot_device_client.Config.PubSub as PubSub
use aws_iot_device_client.Config.SampleShadow as SampleShadow
use aws_iot_device_client.Config.SecureElement as SecureElement
use aws_iot_device_client.Config.FleetProvisioning.{found}
use aws_iot_device_client.Config.SampleShadow.{usable}
use aws_iot_device_client.Config.PlainConfig.Checking.{
  mqtt_valid, root_ca_valid, identity_valid, sections_valid, file_given, validate,
}
use aws_iot_device_client.Config.PlainConfig.State.{PlainConfig, Outside, files}

-- The period and the timeout that the client works with, in milliseconds, where 0 stands for the
-- default of the AWS CRT.
abbrev pub keep_alive_ms : ℕ → ℕ
keep_alive_ms seconds = if ltb 0 seconds then seconds * 1000 else 1200000

abbrev pub timeout_ms : ℕ → ℕ
timeout_ms ms = if ltb 0 ms then ms else 3000

abbrev pub MqttFits : ℕ → ℕ → Type 0
MqttFits seconds ms =
    ((seconds ≡ 0) ⊎ ((30 ≤ seconds) × (seconds ≤ 1200))) × (timeout_ms ms < keep_alive_ms seconds)

-- An optional text that is there and not empty.
abbrev pub Filled : Option Text → Type 0
Filled none = ⊥
Filled (some s) = is_empty s ≡ false

module _ (fs : FileSystem) where
  -- The path of a file that is there.
  abbrev pub FileGiven : Option Text → Type 0
  FileGiven none = ⊥
  FileGiven (some s) = (is_empty s ≡ false) × (is_valid_file_path fs s ≡ true)

  -- A path that is not empty is that of a file.
  abbrev pub Found : Option Text → Type 0
  Found none = Unit {0}
  Found (some s) = (is_empty s ≡ true) ⊎ (is_valid_file_path fs s ≡ true)

  -- The root certificate, where it exists, and its directory have their permissions.
  abbrev pub RootCaFits : Option Text → Type 0
  RootCaFits none = Unit {0}
  RootCaFits (some s) =
      ((is_empty s ≡ true) ⊎ (file_exists fs s ≡ false))
      ⊎ (Permitted fs (extract_parent_directory s) 700 true × Permitted fs s 644 true)

  -- A file of the shadow sample, with its permissions.
  abbrev pub Usable : Text → Type 0
  Usable s = (is_valid_file_path fs s ≡ true) × Permitted fs s 600 true

  abbrev pub InputFits : Option Text → Type 0
  InputFits none = Unit {0}
  InputFits (some s) = (is_empty s ≡ true) ⊎ (Usable s × (get_file_size fs s ≤ 8192))

  abbrev pub OutputFits : Option Text → Type 0
  OutputFits none = Unit {0}
  OutputFits (some s) = (is_empty s ≡ true) ⊎ Usable s

-- A feature that is disabled, or whose settings fit.
abbrev pub OffOr : Bool → Type 0 → Type 0
OffOr enabled P = (enabled ≡ false) ⊎ P

-- A port is there, and is one.
abbrev pub PortFits : Option ℕ → Type 0
PortFits none = ⊥
PortFits (some port) = (1 ≤ port) × (port ≤ 65535)

-- The tunnels wait for notifications, or one tunnel is stated in full.
abbrev pub TunnelingFits : Tunneling.Tunneling → Type 0
TunnelingFits t = OffOr t.enabled (
    (t.subscribe_notification ≡ true)
    ⊎ (Filled t.destination_access_token × (Filled t.region × PortFits t.port)))

-- The requirements on a configuration.
pub record Acceptable (o : Outside) (c : PlainConfig) : Type 0 where
  pub mqtt : MqttFits c.mqtt_keep_alive_seconds c.mqtt_ping_timeout_ms
  pub root_ca : RootCaFits (files o) c.root_ca
  pub endpoint : Filled c.endpoint
  pub cert : FileGiven (files o) c.cert
  pub key : (c.secure_element.enabled ≡ true) ⊎ FileGiven (files o) c.key
  pub thing_name : Filled c.thing_name
  pub device_defender : OffOr c.device_defender.enabled (AtLeast 1 c.device_defender.interval)
  pub tunneling : TunnelingFits c.tunneling
  pub fleet_provisioning : OffOr c.fleet_provisioning.enabled (
      Filled c.fleet_provisioning.template_name
      × (Found (files o) c.fleet_provisioning.csr_file
          × Found (files o) c.fleet_provisioning.device_key))
  pub pub_sub :
      OffOr c.pub_sub.enabled (Filled c.pub_sub.publish_topic × Filled c.pub_sub.subscribe_topic)
  pub sample_shadow : OffOr c.sample_shadow.enabled (
      Filled c.sample_shadow.shadow_name
      × (InputFits (files o) c.sample_shadow.shadow_input_file
          × OutputFits (files o) c.sample_shadow.shadow_output_file))
  pub secure_element :
      OffOr c.secure_element.enabled
        (Filled c.secure_element.pkcs11_lib × Filled c.secure_element.secure_element_pin)
