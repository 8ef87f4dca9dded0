-- ===== src/Config/PlainConfig/Reloads.antt =====
-- The configurations that can be read back.
use aws_iot_device_client.Base.{◌≡◌, Bool, true, false, Option, none, some, Text, text}
use aws_iot_device_client.Base.Json.{IsInt}
use aws_iot_device_client.Util.FileUtils.{FileSystem, file_exists}
use aws_iot_device_client.Config.Json.Laws.{Reads}
use aws_iot_device_client.Config.RoundTrip.{Kept, ReadsPath, NoNul, IfEnabled, SlotReads}
use aws_iot_device_client.Config.RoundTrip.Logging.{LogReads}
use aws_iot_device_client.Config.Tunneling as Tunneling
use aws_iot_device_client.Config.HttpProxy as HttpProxy
use aws_iot_device_client.Config.FleetProvisioning.Runtime as Runtime
use aws_iot_device_client.Config.SensorPublish as SensorPublish
use aws_iot_device_client.Config.PlainConfig.State.{PlainConfig, Outside, files}

-- A root certificate, the file of which is there.
abbrev pub RootCaReads : FileSystem → Option Text → Type 0
RootCaReads fs none = Unit {0}
RootCaReads fs (some s) = ReadsPath fs (some s) × (file_exists fs s ≡ true)

-- The settings of a finished provisioning, which are written only if provisioning is enabled.
abbrev pub RuntimeReads : FileSystem → Bool → Runtime.RuntimeConfig → Type 0
RuntimeReads fs true r =
    IfEnabled r.completed_fleet_provisioning (ReadsPath fs r.cert) r.cert
    × IfEnabled r.completed_fleet_provisioning (ReadsPath fs r.key) r.key
    × IfEnabled r.completed_fleet_provisioning (NoNul r.thing_name) r.thing_name
RuntimeReads fs false r = r ≡ Runtime.default_runtime_config

-- A configuration that can be read back: it states nothing that is not written, and what is read
-- only where a feature is enabled is not stated where it is disabled.
pub record Reloads (o : Outside) (c : PlainConfig) : Type 0 where
  pub endpoint : NoNul c.endpoint
  pub cert : ReadsPath (files o) c.cert
  pub key : ReadsPath (files o) c.key
  pub root_ca : RootCaReads (files o) c.root_ca
  pub thing_name : NoNul c.thing_name
  pub keep_alive : c.mqtt_keep_alive_seconds ≡ 0
  pub ping_timeout : c.mqtt_ping_timeout_ms ≡ 0
  pub lock_file_path : c.lock_file_path ≡ text "/run/lock/"
  pub logging : LogReads (files o) c.log_config
  pub handler_dir : Kept (files o) c.jobs.handler_dir
  pub tunneling : c.tunneling ≡ record Tunneling.default_tunneling { enabled = c.tunneling.enabled }
  pub interval : IsInt c.device_defender.interval
  pub template_name :
      IfEnabled c.fleet_provisioning.enabled
        (Reads c.fleet_provisioning.template_name)
        c.fleet_provisioning.template_name
  pub template_parameters :
      IfEnabled c.fleet_provisioning.enabled
        (Reads c.fleet_provisioning.template_parameters)
        c.fleet_provisioning.template_parameters
  pub csr_file :
      IfEnabled c.fleet_provisioning.enabled
        (ReadsPath (files o) c.fleet_provisioning.csr_file)
        c.fleet_provisioning.csr_file
  pub device_key :
      IfEnabled c.fleet_provisioning.enabled
        (ReadsPath (files o) c.fleet_provisioning.device_key)
        c.fleet_provisioning.device_key
  pub runtime :
      RuntimeReads (files o) c.fleet_provisioning.enabled c.fleet_provisioning_runtime_config
  pub http_proxy : c.http_proxy_config ≡ HttpProxy.default_http_proxy_config
  pub publish_topic :
      IfEnabled c.pub_sub.enabled (Reads c.pub_sub.publish_topic) c.pub_sub.publish_topic
  pub publish_file :
      IfEnabled c.pub_sub.enabled (Reads c.pub_sub.publish_file) c.pub_sub.publish_file
  pub subscribe_topic :
      IfEnabled c.pub_sub.enabled (Reads c.pub_sub.subscribe_topic) c.pub_sub.subscribe_topic
  pub subscribe_file :
      IfEnabled c.pub_sub.enabled
        (ReadsPath (files o) c.pub_sub.subscribe_file)
        c.pub_sub.subscribe_file
  pub publish_on_change : c.pub_sub.publish_on_change ≡ false
  pub shadow_name :
      IfEnabled c.sample_shadow.enabled
        (Reads c.sample_shadow.shadow_name)
        c.sample_shadow.shadow_name
  pub input_file :
      IfEnabled c.sample_shadow.enabled
        (ReadsPath (files o) c.sample_shadow.shadow_input_file)
        c.sample_shadow.shadow_input_file
  pub output_file :
      IfEnabled c.sample_shadow.enabled
        (ReadsPath (files o) c.sample_shadow.shadow_output_file)
        c.sample_shadow.shadow_output_file
  pub pkcs11_lib :
      IfEnabled c.secure_element.enabled
        (ReadsPath (files o) c.secure_element.pkcs11_lib)
        c.secure_element.pkcs11_lib
  pub pin :
      IfEnabled c.secure_element.enabled
        (Reads c.secure_element.secure_element_pin)
        c.secure_element.secure_element_pin
  pub key_label :
      IfEnabled c.secure_element.enabled
        (Reads c.secure_element.secure_element_key_label)
        c.secure_element.secure_element_key_label
  pub token_label :
      IfEnabled c.secure_element.enabled
        (Reads c.secure_element.secure_element_token_label)
        c.secure_element.secure_element_token_label
  pub slot : SlotReads c.secure_element.enabled c.secure_element.secure_element_slot_id
  pub sensors : c.sensor_publish ≡ SensorPublish.default_sensor_publish
