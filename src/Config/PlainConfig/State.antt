-- ===== src/Config/PlainConfig/State.antt =====
-- config/Config.cpp: PlainConfig::LoadFromJson, LoadFromCliArgs and LoadFromEnvironment.
use aws_iot_device_client.Base.{
  ℕ, Bool, true, false, not, ◌&&◌, ◌||◌, [], ◌∷◌, ◌++◌, Option, none, some, Text, text, String,
  is_empty, or_else, if◌then◌else◌, ltb, ◌==◌, length,
}
use aws_iot_device_client.Base.Int.{ℤ}
use aws_iot_device_client.Base.Json.{JsonApi}
use aws_iot_device_client.Util.FileUtils.{
  FileSystem, extract_expanded_path, file_exists, is_valid_file_path,
}
use aws_iot_device_client.Config.Json.{json_text, json_path, cli_text, cli_path}
use aws_iot_device_client.Config.CommandLine.{CliArgs, find}
use aws_iot_device_client.Config.LogConfig as LogConfig
use aws_iot_device_client.Config.LogConfig.{json_string}
use aws_iot_device_client.Config.Tunneling as Tunneling
use aws_iot_device_client.Config.Tunneling.{is_given}
use aws_iot_device_client.Config.HttpProxy as HttpProxy
use aws_iot_device_client.Config.Jobs as Jobs
use aws_iot_device_client.Config.DeviceDefender as DeviceDefender
use aws_iot_device_client.Config.ConfigShadow as ConfigShadow
use aws_iot_device_client.Config.FleetProvisioning as FleetProvisioning
use aws_iot_device_client.Config.FleetProvisioning.Runtime as Runtime
use aws_iot_device_client.Config.PubSub as PubSub
use aws_iot_device_client.Config.SampleShadow as SampleShadow
use aws_iot_device_client.Config.SecureElement as SecureElement
use aws_iot_device_client.Config.SensorPublish as SensorPublish

pub record PlainConfig : Type 0 where
  pub endpoint : Option Text
  pub cert : Option Text
  pub key : Option Text
  pub root_ca : Option Text
  pub thing_name : Option Text
  pub mqtt_keep_alive_seconds : ℕ
  pub mqtt_ping_timeout_ms : ℕ
  pub lock_file_path : Text
  pub log_config : LogConfig.LogConfig
  pub jobs : Jobs.Jobs
  pub tunneling : Tunneling.Tunneling
  pub device_defender : DeviceDefender.DeviceDefender
  pub fleet_provisioning : FleetProvisioning.FleetProvisioning
  pub fleet_provisioning_runtime_config : Runtime.RuntimeConfig
  pub http_proxy_config : HttpProxy.HttpProxyConfig
  pub pub_sub : PubSub.PubSub
  pub sample_shadow : SampleShadow.SampleShadow
  pub config_shadow : ConfigShadow.ConfigShadow
  pub secure_element : SecureElement.SecureElement
  pub sensor_publish : SensorPublish.SensorPublish

unfoldable pub default_config : PlainConfig
default_config = record {
  endpoint = none;
  cert = none;
  key = none;
  root_ca = none;
  thing_name = none;
  mqtt_keep_alive_seconds = 0;
  mqtt_ping_timeout_ms = 0;
  lock_file_path = text "/run/lock/";
  log_config = LogConfig.default_log_config;
  jobs = Jobs.default_jobs;
  tunneling = Tunneling.default_tunneling;
  device_defender = DeviceDefender.default_device_defender;
  fleet_provisioning = FleetProvisioning.default_fleet_provisioning;
  fleet_provisioning_runtime_config = Runtime.default_runtime_config;
  http_proxy_config = HttpProxy.default_http_proxy_config;
  pub_sub = PubSub.default_pub_sub;
  sample_shadow = SampleShadow.default_sample_shadow;
  config_shadow = ConfigShadow.default_config_shadow;
  secure_element = SecureElement.default_secure_element;
  sensor_publish = SensorPublish.default_sensor_publish;
}

-- What the configuration asks of the world outside: files, the conversions of the C++ library, none
-- where they throw (`stoull` with the number of characters that it read), and the making of the
-- default output file.
pub record Outside : Type 0 where
  pub checks : SensorPublish.SensorChecks
  pub stoi : Text → Option ℤ
  pub stoul : Text → Option ℕ
  pub stoull : Text → Option (ℕ × ℕ)
  pub to_string : ℕ → Text
  pub creation : SampleShadow.Creation

abbrev pub files : Outside → FileSystem
files o = o.checks.files

abbrev pub starts_with_minus : Text → Bool
starts_with_minus [] = false
starts_with_minus (c ∷ s) = c == 45

-- ParseUnsignedCliValue, for a target of the given greatest value; none is the return of false.
unfoldable pub parse_unsigned_cli_value :
    (Text → Option (ℕ × ℕ)) → CliArgs → String → ℕ → ℕ → Option ℕ
parse_unsigned_cli_value stoull args flag greatest target =
    or_else (find (text flag) args)
      (λ s.
        or_else (stoull s)
          (λ r.
            if is_empty s || (starts_with_minus s || (not (r.1 == length s) || ltb greatest r.0))
            then none
            else some r.0)
          none)
      (some target)

-- A section of the file, loaded into a new one.
abbrev pub section {ℓ} : {A : Type ℓ} → (api : JsonApi) → api.View → String → A → (api.View → A) → A
section api json key old load =
    if api.value_exists json key then load (api.get_json_object json key) else old

-- LoadFromJson.
unfoldable pub load_from_json : Outside → (api : JsonApi) → api.View → PlainConfig → PlainConfig
load_from_json o api json c =
    let fs = files o in
    record c {
      endpoint = json_text api json "endpoint" c.endpoint;
      cert = json_path fs api json "cert" c.cert;
      key = json_path fs api json "key" c.key;
      root_ca =
          or_else (json_string api json "root-ca")
            (λ s.
              let path = extract_expanded_path fs s in
              if file_exists fs path then some path else c.root_ca)
            c.root_ca;
      thing_name = json_text api json "thing-name" c.thing_name;
      jobs = section api json "jobs" c.jobs (λ v. Jobs.load_from_json fs api v Jobs.default_jobs);
      tunneling =
          section api json "tunneling" c.tunneling
            (λ v. Tunneling.load_from_json api v Tunneling.default_tunneling);
      device_defender =
          section api json "device-defender" c.device_defender
            (λ v. DeviceDefender.load_from_json api v DeviceDefender.default_device_defender);
      fleet_provisioning = section api json "fleet-provisioning" c.fleet_provisioning (λ v.
          FleetProvisioning.load_from_json fs api v FleetProvisioning.default_fleet_provisioning);
      fleet_provisioning_runtime_config =
          section api json "runtime-config" c.fleet_provisioning_runtime_config
            (λ v. Runtime.load_from_json fs api v Runtime.default_runtime_config);
      log_config = section api json "logging" c.log_config (λ v.
          (LogConfig.load_from_json (extract_expanded_path fs) api v
            LogConfig.default_log_config).0);
      pub_sub = section api json "samples" c.pub_sub (λ samples.
          section api samples "pub-sub" c.pub_sub
            (λ v. PubSub.load_from_json fs api v PubSub.default_pub_sub));
      sample_shadow =
          section api json "sample-shadow" c.sample_shadow
            (λ v. SampleShadow.load_from_json fs api v SampleShadow.default_sample_shadow);
      config_shadow =
          section api json "config-shadow" c.config_shadow
            (λ v. ConfigShadow.load_from_json api v ConfigShadow.default_config_shadow);
      secure_element =
          section api json "secure-element" c.secure_element
            (λ v. SecureElement.load_from_json fs api v SecureElement.default_secure_element);
      sensor_publish = section api json "sensor-publish" c.sensor_publish (λ v.
          SensorPublish.load_from_json o.to_string api v SensorPublish.default_sensor_publish);
    }

-- The next part of a load, unless the part before it failed.
abbrev pub then_load {ℓ κ} :
    {A : Type ℓ} {B : Type κ} → A × Bool → (A → B) → (A → B × Bool) → B × Bool
then_load (a, true) keep next = next a
then_load (a, false) keep next = (keep a, false)

-- LoadFromCliArgs, from the secure element on, and so on, up to all sections.
abbrev pub load_secure_element : Outside → CliArgs → PlainConfig → PlainConfig × Bool
load_secure_element o args c =
    then_load (SecureElement.load_from_cli_args o.stoul (files o) args c.secure_element)
      (λ e. record c { secure_element = e })
      (λ e. (
        record c {
          secure_element = e;
          http_proxy_config = HttpProxy.load_from_cli_args (files o) args c.http_proxy_config;
        },
        true,
      ))

abbrev pub load_shadows : Outside → CliArgs → PlainConfig → PlainConfig × Bool
load_shadows o args c =
    then_load (SampleShadow.load_from_cli_args (files o) o.creation args c.sample_shadow)
      (λ s. record c { sample_shadow = s })
      (λ s. load_secure_element o args (record c {
        sample_shadow = s;
        config_shadow = ConfigShadow.load_from_cli_args args c.config_shadow;
      }))

abbrev pub load_features : Outside → CliArgs → PlainConfig → PlainConfig × Bool
load_features o args c =
    then_load (DeviceDefender.load_from_cli_args o.stoi args c.device_defender)
      (λ d. record c { device_defender = d })
      (λ d. load_shadows o args (record c {
        device_defender = d;
        fleet_provisioning =
            FleetProvisioning.load_from_cli_args (files o) args c.fleet_provisioning;
        pub_sub = PubSub.load_from_cli_args (files o) args c.pub_sub;
      }))

unfoldable pub load_sections_from_cli_args : Outside → CliArgs → PlainConfig → PlainConfig × Bool
load_sections_from_cli_args o args c =
    let t = Tunneling.load_from_cli_args args c.tunneling in
    then_load (LogConfig.load_from_cli_args (extract_expanded_path (files o)) args c.log_config)
      (λ l. record c { tunneling = t; log_config = l })
      (λ l. load_features o args (record c {
        tunneling = t;
        log_config = l;
        jobs = Jobs.load_from_cli_args (files o) args c.jobs;
      }))

-- LoadFromCliArgs; an uint16_t and an uint32_t are parsed.
unfoldable pub load_from_cli_args : Outside → CliArgs → PlainConfig → PlainConfig × Bool
load_from_cli_args o args c =
    let fs = files o in
    let c1 = record c {
      endpoint = cli_text args "--endpoint" c.endpoint;
      cert = cli_path fs args "--cert" c.cert;
      key = cli_path fs args "--key" c.key;
      root_ca =
          or_else (find (text "--root-ca") args)
            (λ s.
              let path = extract_expanded_path fs s in
              if is_valid_file_path fs path then some path else c.root_ca)
            c.root_ca;
      thing_name = cli_text args "--thing-name" c.thing_name;
    } in
    or_else
      (parse_unsigned_cli_value o.stoull args "--mqtt-keep-alive-seconds" 65535
        c.mqtt_keep_alive_seconds)
      (λ keep_alive.
        let c2 = record c1 { mqtt_keep_alive_seconds = keep_alive } in
        or_else
          (parse_unsigned_cli_value o.stoull args "--mqtt-ping-timeout-ms" 4294967295
            c.mqtt_ping_timeout_ms)
          (λ timeout.
            load_sections_from_cli_args o args (record c2 { mqtt_ping_timeout_ms = timeout }))
          (c2, false))
      (c1, false)

abbrev pub ends_with_slash : Text → Bool
ends_with_slash [] = false
ends_with_slash (c ∷ []) = c == 47
ends_with_slash (c ∷ d ∷ s) = ends_with_slash (d ∷ s)

-- LoadFromEnvironment, with the values of LOCK_FILE_PATH and AWSIOT_TUNNEL_ACCESS_TOKEN.
unfoldable pub load_from_environment :
    FileSystem → Option Text → Option Text → PlainConfig → PlainConfig
load_from_environment fs lock_file_path access_token c = record c {
  lock_file_path =
      or_else lock_file_path
        (λ s.
          let path = extract_expanded_path fs s in
          if not (is_empty path) && not (ends_with_slash path) then path ++ (47 ∷ []) else path)
        c.lock_file_path;
  tunneling = Tunneling.load_from_environment access_token c.tunneling;
}
