-- ===== src/Config/Init.antt =====
-- config/Config.cpp: Config::init and the reading of the configuration files. The checks of
-- permissions in ParseConfigFile only log.
pub mod Identity
pub mod Sources
pub mod Provisioned
use aws_iot_device_client.Base.{
  ℕ, Bool, true, false, not, ◌&&◌, Option, none, some, Text, text, or_else, if◌then◌else◌, ltb,
}
use aws_iot_device_client.Base.Json.{JsonApi}
use aws_iot_device_client.Jobs.JobEngine.{until_nul}
use aws_iot_device_client.Util.FileUtils.{extract_expanded_path, file_exists, get_file_size}
use aws_iot_device_client.Config.CommandLine.{CliArgs, find}
use aws_iot_device_client.Config.HttpProxy as HttpProxy
use aws_iot_device_client.Config.FleetProvisioning.Runtime as Runtime
use aws_iot_device_client.Config.PlainConfig.{
  PlainConfig, Outside, files, load_from_json, load_from_cli_args, load_from_environment, validate,
}

-- What init asks besides: the contents of a file, none where it cannot be opened; the parser of the
-- JSON library, none where it fails; inet_pton; and the variables LOCK_FILE_PATH and
-- AWSIOT_TUNNEL_ACCESS_TOKEN of the environment.
pub record Surroundings (api : JsonApi) : Type 0 where
  pub outside : Outside
  pub read : Text → Option Text
  pub parse : Text → Option api.View
  pub inet_pton : Text → Option ℕ
  pub lock_file_path : Option Text
  pub access_token : Option Text

pub data ConfigFileType : Type 0 where
  device_client_essential_config : ConfigFileType
  fleet_provisioning_runtime_config : ConfigFileType
  http_proxy_config : ConfigFileType

abbrev pub default_config_file : Text
default_config_file = text "~/.aws-iot-device-client/aws-iot-device-client.conf"

abbrev pub default_runtime_config_file : Text
default_runtime_config_file = text "~/.aws-iot-device-client/aws-iot-device-client-runtime.conf"

module _ {api : JsonApi} (s : Surroundings api) where
  -- The load at the end of ParseConfigFile.
  unfoldable pub load_file : ConfigFileType → api.View → PlainConfig → PlainConfig
  load_file device_client_essential_config v c = load_from_json s.outside api v c
  load_file fleet_provisioning_runtime_config v c = load_from_json s.outside api v c
  load_file http_proxy_config v c = record c {
    http_proxy_config = (HttpProxy.load_from_json s.outside.stoi api v c.http_proxy_config).0;
  }

  -- ParseConfigFile; MAX_CONFIG_SIZE is 5000.
  unfoldable pub parse_config_file : Text → ConfigFileType → PlainConfig → PlainConfig × Bool
  parse_config_file file type c =
      let fs = files s.outside in
      let expanded_path = extract_expanded_path fs file in
      if not (file_exists fs expanded_path)
      then (c, false)
      else if ltb 5000 (get_file_size fs file)
      then (c, false)
      else or_else (s.read expanded_path)
          (λ contents.
            or_else (s.parse (until_nul contents)) (λ v. (load_file type v c, true)) (c, false))
          (c, false)

  -- ValidateAndStoreRuntimeConfig, where the runtime file was read.
  unfoldable pub store_runtime_config : PlainConfig × Bool → PlainConfig
  store_runtime_config (c, parsed) =
      let r = c.fleet_provisioning_runtime_config in
      if parsed && Runtime.validate r
      then record c { cert = r.cert; key = r.key; thing_name = r.thing_name }
      else c

  -- init, after the proxy file.
  unfoldable pub check_proxy : PlainConfig × Bool → Option (PlainConfig × Bool)
  check_proxy (c, parsed) =
      if parsed
        && (c.http_proxy_config.http_proxy_enabled
            && not (HttpProxy.validate s.inet_pton c.http_proxy_config))
      then some (c, false)
      else validate s.outside c

  -- init, from the runtime file on.
  unfoldable pub finish : PlainConfig → Option (PlainConfig × Bool)
  finish c =
      let d =
        store_runtime_config
          (parse_config_file default_runtime_config_file fleet_provisioning_runtime_config c) in
      or_else d.http_proxy_config.proxy_config_path
        (λ path. check_proxy (parse_config_file path http_proxy_config d)) none

  -- What follows a step that may return false.
  abbrev pub then_do :
      PlainConfig × Bool → (PlainConfig → Option (PlainConfig × Bool)) → Option (PlainConfig × Bool)
  then_do (c, true) next = next c
  then_do (c, false) next = some (c, false)

  -- init, from the command line on.
  unfoldable pub load_and_finish : CliArgs → PlainConfig → Option (PlainConfig × Bool)
  load_and_finish args c =
      then_do (load_from_cli_args s.outside args c)
        (λ d. finish (load_from_environment (files s.outside) s.lock_file_path s.access_token d))

  -- The configuration file, if one is to be read.
  unfoldable pub read_config_file : CliArgs → PlainConfig → PlainConfig × Bool
  read_config_file args c =
      let fs = files s.outside in
      or_else (find (text "--config-file") args)
        (λ filename.
          if file_exists fs filename
          then parse_config_file filename device_client_essential_config c
          else (c, false))
        (if file_exists fs default_config_file
          then parse_config_file default_config_file device_client_essential_config c
          else (c, true))

  -- init; none is the use of an empty Optional.
  unfoldable pub init : CliArgs → PlainConfig → Option (PlainConfig × Bool)
  init args c = then_do (read_config_file args c) (load_and_finish args)
