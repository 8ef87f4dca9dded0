-- ===== src/Config/Init/Sources.antt =====
-- Where the settings of the client come from.
use aws_iot_device_client.Base.{
  ◌≡◌, ◌⊎◌, ◌∙◌, sym, ap, subst, refl, inl, inr, Bool, true, false, not, ◌&&◌, Option, none, some,
  Option-cases, Bool-cases, Text, or_else, ltb,
}
use aws_iot_device_client.Base.Json.{JsonApi}
use aws_iot_device_client.Jobs.JobEngine.{until_nul}
use aws_iot_device_client.Util.FileUtils.{extract_expanded_path, file_exists, get_file_size}
use aws_iot_device_client.Config.CommandLine.{CliArgs}
use aws_iot_device_client.Config.SensorPublish as SensorPublish
use aws_iot_device_client.Config.HttpProxy as HttpProxy
use aws_iot_device_client.Config.PlainConfig.{
  PlainConfig, Outside, files, load_from_cli_args, load_from_environment,
}
use aws_iot_device_client.Config.PlainConfig.Requirements.{Acceptable}
use aws_iot_device_client.Config.PlainConfig.Acceptance.{validate-Acceptable}
use aws_iot_device_client.Config.Init.{
  Surroundings, ConfigFileType, fleet_provisioning_runtime_config, http_proxy_config, load_file,
  parse_config_file, store_runtime_config, check_proxy, finish, then_do, load_and_finish,
  read_config_file, init, default_runtime_config_file,
}
use aws_iot_device_client.Config.Init.Identity.{identity, given_identity, cli-identity}

false-true :
    {A : Type 0} (a d : A) → ◌≡◌ {A = Option (A × Bool)} (some (a, false)) (some (d, true)) → ⊥
false-true {A} a d h = let e = ap (λ o. or_else o (λ (r : A × Bool). r.1) true) h in cc

none-some : {A : Type 0} (d : A) → ◌≡◌ {A = Option A} none (some d) → ⊥
none-some d h = cc

module _ {api : JsonApi} (s : Surroundings api) where
  open s use {outside}

  then_do_inv :
      (p : PlainConfig × Bool) (next : PlainConfig → Option (PlainConfig × Bool)) (d : PlainConfig)
      → then_do s p next ≡ some (d, true)
      → (p.1 ≡ true) × (next p.0 ≡ some (d, true))
  then_do_inv (c, true) next d h = (refl, h)
  then_do_inv (c, false) next d h = absurd (false-true _ _ h)

  -- A file leaves the configuration as it is, or it is parsed and loaded.
  parsed :
      (file : Text) (type : ConfigFileType) (c : PlainConfig)
      → (parse_config_file s file type c ≡ (c, false))
        ⊎ ((v : api.View) × (parse_config_file s file type c ≡ (load_file s type v c, true)))
  unfolding parse_config_file
  parsed file type c =
      let path = extract_expanded_path (files outside) file in
      elim (Bool-cases (file_exists (files outside) path)) [
        | inr gone ↦ inl (rw gone refl)
        | inl there ↦ elim (Bool-cases (ltb 5000 (get_file_size (files outside) file))) [
          | inl large ↦ inl (rw (there, large) refl)
          | inr small ↦ elim (Option-cases (s.read path)) [
            | inl closed ↦ inl (rw (there, small, closed) refl)
            | inr (contents, opened) ↦ elim (Option-cases (s.parse (until_nul contents))) [
              | inl bad ↦ inl (rw (there, small, opened, bad) refl)
              | inr (v, good) ↦ inr (v, rw (there, small, opened, good) refl)
            ]
          ]
        ]
      ]

  proxy_file :
      (path : Text) (c : PlainConfig)
      → identity (parse_config_file s path http_proxy_config c).0 ≡ identity c
  unfolding load_file
  proxy_file path c = elim (parsed path http_proxy_config c) [
    | inl e ↦ ap (λ (r : PlainConfig × Bool). identity r.0) e
    | inr (v, e) ↦ ap (λ (r : PlainConfig × Bool). identity r.0) e
  ]

  moved-Acceptable :
      (o : Outside) (c : PlainConfig) (sensors : SensorPublish.SensorPublish)
      → Acceptable o c
      → Acceptable o (record c { sensor_publish = sensors })
  moved-Acceptable o c sensors a = record {
    mqtt = a.mqtt;
    root_ca = a.root_ca;
    endpoint = a.endpoint;
    cert = a.cert;
    key = a.key;
    thing_name = a.thing_name;
    device_defender = a.device_defender;
    tunneling = a.tunneling;
    fleet_provisioning = a.fleet_provisioning;
    pub_sub = a.pub_sub;
    sample_shadow = a.sample_shadow;
    secure_element = a.secure_element;
  }

  check_inv :
      (p : PlainConfig × Bool) (d : PlainConfig)
      → check_proxy s p ≡ some (d, true)
      → Acceptable outside d × (identity d ≡ identity p.0)
  unfolding check_proxy
  check_inv p d h =
      elim (Bool-cases (
        p.1
        && (p.0.http_proxy_config.http_proxy_enabled
            && not (HttpProxy.validate s.inet_pton p.0.http_proxy_config)))) [
              | inl bad ↦ absurd (false-true _ _ (rw bad at h))
              | inr fine ↦
                  let (a, (v, e)) = (validate-Acceptable outside p.0 d).0 (rw fine at h) in
                  (
                    subst (Acceptable outside) (sym e)
                        (moved-Acceptable outside p.0 d.sensor_publish a),
                    ap identity e,
                  )
            ]

  -- The configuration after the runtime file.
  abbrev pub provisioned : PlainConfig → PlainConfig
  provisioned c =
      store_runtime_config s
        (parse_config_file s default_runtime_config_file fleet_provisioning_runtime_config c)

  finish_inv :
      (c d : PlainConfig)
      → finish s c ≡ some (d, true)
      → Acceptable outside d × (identity d ≡ identity (provisioned c))
  unfolding finish store_runtime_config
  finish_inv c d h = elim (Option-cases (provisioned c).http_proxy_config.proxy_config_path) [
    | inl gone ↦ absurd (none-some _ (rw gone at h))
    | inr (path, named) ↦
        let (a, e) =
          check_inv (parse_config_file s path http_proxy_config (provisioned c)) d
            (rw named at h) in
        (a, e ∙ proxy_file path (provisioned c))
  ]

  -- The configuration after the file and the command line.
  abbrev pub loaded : CliArgs → PlainConfig → PlainConfig
  loaded args c = (load_from_cli_args outside args (read_config_file s args c).0).0

  abbrev pub with_environment : PlainConfig → PlainConfig
  with_environment = load_from_environment (files outside) s.lock_file_path s.access_token

  pub init_inv :
      (args : CliArgs) (c d : PlainConfig)
      → init s args c ≡ some (d, true)
      → Acceptable outside d
        × (identity d ≡ identity (provisioned (with_environment (loaded args c))))
  unfolding init load_and_finish
  init_inv args c d h =
      let (r, rest) = then_do_inv (read_config_file s args c) (load_and_finish s args) d h in
      let (l, last) =
        then_do_inv (load_from_cli_args outside args (read_config_file s args c).0)
          (λ x. finish s (with_environment x)) d rest in
      finish_inv (with_environment (loaded args c)) d last

  no_runtime_file :
      (c : PlainConfig)
      → file_exists
          (files outside)
          (extract_expanded_path (files outside) default_runtime_config_file)
        ≡ false
      → identity (provisioned c) ≡ identity c
  unfolding parse_config_file store_runtime_config
  no_runtime_file c gone = rw gone refl

  -- A start that init accepts, with a configuration d, where there is no file of a finished
  -- provisioning: d is acceptable, and its endpoint, certificate, key and thing name are those of
  -- the command line, where it gives them, and otherwise those of the configuration file.
  pub init_cli_first :
      (args : CliArgs) (c d : PlainConfig)
      → file_exists
          (files outside)
          (extract_expanded_path (files outside) default_runtime_config_file)
        ≡ false
      → init s args c ≡ some (d, true)
      → Acceptable outside d
        × (identity d ≡ given_identity outside args (read_config_file s args c).0)
  unfolding load_from_environment
  init_cli_first args c d gone h =
      let (a, e) = init_inv args c d h in
      (
        a,
        e
            ∙ no_runtime_file (with_environment (loaded args c)) gone
            ∙ cli-identity outside args (read_config_file s args c).0,
      )
