-- ===== src/Config/Init/Identity.antt =====
-- The settings that identify the client, and the command line.
use aws_iot_device_client.Base.{◌≡◌, refl, inl, inr, Bool, true, false, Option, Option-cases, Text}
use aws_iot_device_client.Util.FileUtils.{extract_expanded_path}
use aws_iot_device_client.Config.Json.{cli_text, cli_path}
use aws_iot_device_client.Config.CommandLine.{CliArgs}
use aws_iot_device_client.Config.LogConfig as LogConfig
use aws_iot_device_client.Config.Tunneling as Tunneling
use aws_iot_device_client.Config.Jobs as Jobs
use aws_iot_device_client.Config.DeviceDefender as DeviceDefender
use aws_iot_device_client.Config.FleetProvisioning as FleetProvisioning
use aws_iot_device_client.Config.PubSub as PubSub
use aws_iot_device_client.Config.SampleShadow as SampleShadow
use aws_iot_device_client.Config.ConfigShadow as ConfigShadow
use aws_iot_device_client.Config.SecureElement as SecureElement
use aws_iot_device_client.Config.HttpProxy as HttpProxy
use aws_iot_device_client.Config.PlainConfig.{
  PlainConfig, load_shadows, load_features, load_secure_element, Outside, files, load_from_cli_args,
  load_sections_from_cli_args, then_load, parse_unsigned_cli_value,
}

-- The settings that identify the client.
abbrev pub Identity : Type 0
Identity = Option Text × Option Text × Option Text × Option Text

abbrev pub identity : PlainConfig → Identity
identity c = (c.endpoint, c.cert, c.key, c.thing_name)

-- The settings that a load of sections leaves alone.
abbrev Kept : PlainConfig → PlainConfig → Type 0
Kept c d = identity d ≡ identity c

then_load-Kept :
    {A : Type 0} (c : PlainConfig) (p : A × Bool) (keep : A → PlainConfig)
    (next : A → PlainConfig × Bool)
    → ((a : A) → Kept c (keep a))
    → ((a : A) → Kept c (next a).0)
    → Kept c (then_load p keep next).0
then_load-Kept c (a, true) keep next k n = n a
then_load-Kept c (a, false) keep next k n = k a

module _ (o : Outside) (args : CliArgs) where
  secure_element-Kept : (c : PlainConfig) → Kept c (load_secure_element o args c).0
  secure_element-Kept c =
      then_load-Kept c (SecureElement.load_from_cli_args o.stoul (files o) args c.secure_element) _
        (λ e. (
          record c {
            secure_element = e;
            http_proxy_config = HttpProxy.load_from_cli_args (files o) args c.http_proxy_config;
          },
          true,
        ))
        (λ e. refl) (λ e. refl)

  shadows-Kept : (c : PlainConfig) → Kept c (load_shadows o args c).0
  shadows-Kept c =
      then_load-Kept c (SampleShadow.load_from_cli_args (files o) o.creation args c.sample_shadow) _
        (λ s. load_secure_element o args (record c {
          sample_shadow = s;
          config_shadow = ConfigShadow.load_from_cli_args args c.config_shadow;
        }))
        (λ s. refl) (λ s. secure_element-Kept _)

  features-Kept : (c : PlainConfig) → Kept c (load_features o args c).0
  features-Kept c =
      then_load-Kept c (DeviceDefender.load_from_cli_args o.stoi args c.device_defender) _
        (λ d. load_shadows o args (record c {
          device_defender = d;
          fleet_provisioning =
              FleetProvisioning.load_from_cli_args (files o) args c.fleet_provisioning;
          pub_sub = PubSub.load_from_cli_args (files o) args c.pub_sub;
        }))
        (λ d. refl) (λ d. shadows-Kept _)

  sections-Kept : (c : PlainConfig) → Kept c (load_sections_from_cli_args o args c).0
  unfolding load_sections_from_cli_args
  sections-Kept c =
      then_load-Kept c
        (LogConfig.load_from_cli_args (extract_expanded_path (files o)) args c.log_config) _
        (λ l. load_features o args (record c {
          tunneling = Tunneling.load_from_cli_args args c.tunneling;
          log_config = l;
          jobs = Jobs.load_from_cli_args (files o) args c.jobs;
        }))
        (λ l. refl) (λ l. features-Kept _)

  -- The identity that the command line gives, for what it leaves out that of a configuration.
  abbrev pub given_identity : PlainConfig → Identity
  given_identity c = (
    cli_text args "--endpoint" c.endpoint,
    cli_path (files o) args "--cert" c.cert,
    cli_path (files o) args "--key" c.key,
    cli_text args "--thing-name" c.thing_name,
  )

  pub cli-identity : (c : PlainConfig) → identity (load_from_cli_args o args c).0 ≡ given_identity c
  unfolding load_from_cli_args
  cli-identity c =
      elim (Option-cases (
        parse_unsigned_cli_value o.stoull args "--mqtt-keep-alive-seconds" 65535
          c.mqtt_keep_alive_seconds)) [
            | inl e ↦ rw e refl
            | inr (n, e) ↦
                rw e
                  (elim (Option-cases (
                    parse_unsigned_cli_value o.stoull args "--mqtt-ping-timeout-ms" 4294967295
                      c.mqtt_ping_timeout_ms)) [
                        | inl f ↦ rw f refl
                        | inr (m, f) ↦ rw f (sections-Kept _)
                      ])
          ]
