-- ===== src/Tests/Starting.antt =====
-- Starts of the client, and a shadow document.
use aws_iot_device_client.Base.{
  ◌≡◌, refl, arith, true, false, ◌||◌, [], ◌∷◌, none, some, text, text_eq, or_else, if◌then◌else◌,
}
use aws_iot_device_client.Base.Json.{bool, string, object}
use aws_iot_device_client.Util.FileUtils.{
  file_exists, extract_expanded_path, is_valid_file_path, get_file_size, validate_file_permissions,
}
use aws_iot_device_client.Config.CommandLine.{CliArgs}
use aws_iot_device_client.Config.FleetProvisioning.Runtime as Runtime
use aws_iot_device_client.Config.LogConfig as LogConfig
use aws_iot_device_client.Config.Tunneling as Tunneling
use aws_iot_device_client.Config.HttpProxy as HttpProxy
use aws_iot_device_client.Config.Jobs as Jobs
use aws_iot_device_client.Config.DeviceDefender as DeviceDefender
use aws_iot_device_client.Config.FleetProvisioning as FleetProvisioning
use aws_iot_device_client.Config.PubSub as PubSub
use aws_iot_device_client.Config.SampleShadow as SampleShadow
use aws_iot_device_client.Config.SecureElement as SecureElement
use aws_iot_device_client.Config.SensorPublish as SensorPublish
use aws_iot_device_client.Config.PlainConfig as Plain
use aws_iot_device_client.Config.PlainConfig.{
  PlainConfig, Outside, default_config, files, parse_unsigned_cli_value,
  load_sections_from_cli_args, load_from_environment, mqtt_valid, root_ca_valid, identity_valid,
  sections_valid,
}
use aws_iot_device_client.Config.PlainConfig.Requirements.{Acceptable}
use aws_iot_device_client.Config.Init.{
  Surroundings, init, read_config_file, load_and_finish, finish, store_runtime_config,
  parse_config_file, check_proxy, load_file, default_runtime_config_file,
}
use aws_iot_device_client.Config.Init.Identity.{identity, given_identity}
use aws_iot_device_client.Config.Init.Sources.{init_cli_first}
use aws_iot_device_client.Config.Init.Provisioned.{RuntimeFile, init_runtime_first}
use aws_iot_device_client.Shadow.ConfigShadow.{reset_client_config_with_json}
use aws_iot_device_client.Shadow.ConfigShadow.Reset.{reset-Acceptable}
use aws_iot_device_client.Tests.Documents.{documents, Document, with_member, nothing}
use aws_iot_device_client.Tests.Settings.{disk, sensor_checks, outside}

abbrev arguments : CliArgs
arguments =
    (text "--endpoint", text "host")
    ∷ (text "--cert", text "cert.pem")
    ∷ (text "--key", text "key.pem")
    ∷ (text "--thing-name", text "thing")
    ∷ []

abbrev surroundings : Surroundings documents
surroundings = record {
  outside = outside;
  read = λ p. none;
  parse = λ t. none;
  inet_pton = λ t. none;
  lock_file_path = none;
  access_token = none;
}

abbrev started : PlainConfig
started = or_else (init surroundings arguments default_config) (λ r. r.0) default_config

no_runtime : file_exists disk (extract_expanded_path disk default_runtime_config_file) ≡ false
unfolding file_exists extract_expanded_path
no_runtime = refl

-- The file of a finished provisioning, and a disk that has it.
abbrev provisioning : Document
provisioning =
    let r = with_member nothing "completed-fp" (bool true) in
    let r1 = with_member r "cert" (string (text "cert.pem")) in
    let r2 = with_member r1 "key" (string (text "key.pem")) in
    let r3 = with_member r2 "thing-name" (string (text "made")) in
    with_member nothing "runtime-config" (object r3)

abbrev provisioned_surroundings : Surroundings documents
provisioned_surroundings = record surroundings {
  outside = record outside {
    checks = record sensor_checks {
      files = record disk { opens = λ p. disk.opens p || text_eq p default_runtime_config_file };
    };
  };
  read = λ p. if text_eq p default_runtime_config_file then some (text "file") else none;
  parse = λ t. some provisioning;
}

abbrev provisioned_start : PlainConfig
provisioned_start =
    or_else (init provisioned_surroundings arguments default_config) (λ r. r.0) default_config

starts :
    (init surroundings arguments default_config ≡ some (started, true))
    × (init provisioned_surroundings arguments default_config ≡ some (provisioned_start, true))
unfolding init read_config_file file_exists load_and_finish Plain.load_from_cli_args
    parse_unsigned_cli_value load_sections_from_cli_args LogConfig.load_from_cli_args
    DeviceDefender.load_from_cli_args SampleShadow.load_from_cli_args default_config
    SampleShadow.default_sample_shadow SecureElement.load_from_cli_args finish store_runtime_config
    parse_config_file load_from_environment HttpProxy.load_from_cli_args check_proxy Plain.validate
    mqtt_valid root_ca_valid identity_valid sections_valid is_valid_file_path
    DeviceDefender.validate DeviceDefender.default_device_defender Tunneling.load_from_cli_args
    Tunneling.load_from_environment Tunneling.validate Tunneling.default_tunneling
    FleetProvisioning.validate FleetProvisioning.default_fleet_provisioning
    FleetProvisioning.load_from_cli_args PubSub.validate PubSub.load_from_cli_args
    PubSub.default_pub_sub SampleShadow.validate SecureElement.validate
    SecureElement.default_secure_element SensorPublish.validate SensorPublish.default_sensor_publish
    extract_expanded_path LogConfig.default_log_config Jobs.default_jobs Jobs.load_from_cli_args
    load_file Plain.load_from_json Runtime.load_from_json Runtime.validate
    Runtime.default_runtime_config get_file_size validate_file_permissions
starts = (refl, refl)

init_cli_first_example :
    Acceptable outside started
    × (identity started
        ≡ given_identity outside arguments
            (read_config_file surroundings arguments default_config).0)
init_cli_first_example =
    init_cli_first surroundings arguments default_config started no_runtime (starts.0)

provisioning_file : RuntimeFile provisioned_surroundings provisioning (text "file")
unfolding file_exists extract_expanded_path get_file_size Runtime.load_from_json Runtime.validate
    Runtime.default_runtime_config
provisioning_file = record {
  there = refl;
  small = omega arith;
  opened = refl;
  parsed = refl;
  stated = refl;
  valid = refl;
}

abbrev made : Runtime.RuntimeConfig
made =
    Runtime.load_from_json disk documents (documents.get_json_object provisioning "runtime-config")
      Runtime.default_runtime_config

init_runtime_first_example :
    Acceptable provisioned_surroundings.outside provisioned_start
    × ((provisioned_start.cert ≡ made.cert)
        × ((provisioned_start.key ≡ made.key) × (provisioned_start.thing_name ≡ made.thing_name)))
unfolding Runtime.load_from_json extract_expanded_path
init_runtime_first_example =
    init_runtime_first provisioned_surroundings provisioning (text "file") provisioning_file
      arguments default_config provisioned_start (starts.1)

-- A document that disables the jobs.
abbrev jobs_off : Document
jobs_off = with_member nothing "jobs" (object (with_member nothing "enabled" (bool false)))

started_Acceptable : Acceptable outside started
started_Acceptable =
    (init_cli_first surroundings arguments default_config started no_runtime (starts.0)).0

reset-Acceptable_example :
    let r = reset_client_config_with_json disk documents jobs_off jobs_off started in
    Acceptable outside r
    × (r ≡ record started {
      jobs = r.jobs;
      tunneling = r.tunneling;
      device_defender = r.device_defender;
      pub_sub = r.pub_sub;
      sample_shadow = r.sample_shadow;
    })
reset-Acceptable_example =
    reset-Acceptable outside documents jobs_off jobs_off started started_Acceptable
