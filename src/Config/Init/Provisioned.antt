-- ===== src/Config/Init/Provisioned.antt =====
-- The start after a finished fleet provisioning.
use aws_iot_device_client.Base.{◌≤◌, ◌≡◌, ◌∙◌, ap, refl, true, false, some, Text, arith, ltb}
use aws_iot_device_client.Base.Json.{JsonApi}
use aws_iot_device_client.Jobs.JobEngine.{until_nul}
use aws_iot_device_client.Util.FileUtils.{extract_expanded_path, file_exists, get_file_size}
use aws_iot_device_client.Config.CommandLine.{CliArgs}
use aws_iot_device_client.Config.FleetProvisioning.Runtime as Runtime
use aws_iot_device_client.Config.PlainConfig.{PlainConfig, files, load_from_json}
use aws_iot_device_client.Config.PlainConfig.Requirements.{Acceptable}
use aws_iot_device_client.Config.Init.{
  Surroundings, fleet_provisioning_runtime_config, load_file, parse_config_file,
  store_runtime_config, init, default_runtime_config_file,
}
use aws_iot_device_client.Config.Init.Identity.{Identity, identity}
use aws_iot_device_client.Config.Init.Sources.{provisioned, loaded, with_environment, init_inv}

module _ {api : JsonApi} (s : Surroundings api) where
  open s use {outside}

  -- The file of a finished provisioning is there, is not too large, and holds a document, the
  -- section of which has valid settings when it is loaded by itself.
  pub record RuntimeFile (document : api.View) (contents : Text) : Type 0 where
    pub there :
        file_exists
          (files outside)
          (extract_expanded_path (files outside) default_runtime_config_file)
        ≡ true
    pub small : get_file_size (files outside) default_runtime_config_file ≤ 5000
    pub opened :
        s.read (extract_expanded_path (files outside) default_runtime_config_file) ≡ some contents
    pub parsed : s.parse (until_nul contents) ≡ some document
    pub stated : api.value_exists document "runtime-config" ≡ true
    pub valid :
        Runtime.validate (
          Runtime.load_from_json
            (files outside)
            api
            (api.get_json_object document "runtime-config")
            Runtime.default_runtime_config)
        ≡ true

  module _ (document : api.View) (contents : Text) (file : RuntimeFile document contents) where
    abbrev settings : Runtime.RuntimeConfig
    settings =
        Runtime.load_from_json (files outside) api (api.get_json_object document "runtime-config")
          Runtime.default_runtime_config

    file_loads :
        (c : PlainConfig)
        → parse_config_file s default_runtime_config_file fleet_provisioning_runtime_config c
          ≡ (load_from_json outside api document c, true)
    unfolding parse_config_file load_file
    file_loads c = rw (file.there, small_enough, file.opened, file.parsed) refl
      where
        small_enough : ltb 5000 (get_file_size (files outside) default_runtime_config_file) ≡ false
        small_enough = ground (arith, file.small)

    section_loads :
        (c : PlainConfig)
        → (load_from_json outside api document c).fleet_provisioning_runtime_config ≡ settings
    unfolding load_from_json
    section_loads c = rw (file.stated) refl

    provisioned-identity :
        (c : PlainConfig)
        → identity (provisioned s c) ≡ (
          (load_from_json outside api document c).endpoint,
          settings.cert,
          settings.key,
          settings.thing_name,
        )
    unfolding store_runtime_config
    provisioned-identity c = rw (file_loads c, section_loads c, file.valid) refl

    -- A start that init accepts, with a configuration d, where there is a file of a finished
    -- provisioning of at most 5000 bytes with a document whose section "runtime-config" has valid
    -- settings: d is acceptable, and its certificate, key and thing name are those of that section,
    -- whatever the command line, the environment and the configuration file state.
    pub init_runtime_first :
        (args : CliArgs) (c d : PlainConfig)
        → init s args c ≡ some (d, true)
        → let r =
            Runtime.load_from_json
              (files outside)
              api
              (api.get_json_object document "runtime-config")
              Runtime.default_runtime_config in
          Acceptable outside d
          × ((d.cert ≡ r.cert) × ((d.key ≡ r.key) × (d.thing_name ≡ r.thing_name)))
    init_runtime_first args c d h =
        let (a, e) = init_inv s args c d h in
        let f = e ∙ provisioned-identity (with_environment s (loaded s args c)) in
        (
          a,
          (
            ap (λ (x : Identity). x.1) f,
            (ap (λ (x : Identity). x.2) f, ap (λ (x : Identity). x.3) f),
          ),
        )
