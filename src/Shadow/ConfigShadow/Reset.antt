-- ===== src/Shadow/ConfigShadow/Reset.antt =====
-- What a document of the shadow can do to the configuration.
use aws_iot_device_client.Base.{◌≡◌, refl, inl, inr, Bool, true, false, ◌&&◌, String, Bool-cases}
use aws_iot_device_client.Base.Json.{JsonApi}
use aws_iot_device_client.Config.Tunneling as Tunneling
use aws_iot_device_client.Config.DeviceDefender as DeviceDefender
use aws_iot_device_client.Config.PubSub as PubSub
use aws_iot_device_client.Config.SampleShadow as SampleShadow
use aws_iot_device_client.Config.PlainConfig.{
  PlainConfig, Outside, files, mqtt_valid, root_ca_valid, sections_valid, identity_valid,
}
use aws_iot_device_client.Config.PlainConfig.Requirements.{Acceptable}
use aws_iot_device_client.Config.PlainConfig.Acceptance.{accepted, accepted_iff}
use aws_iot_device_client.Shadow.ConfigShadow.{update_section, reset_client_config_with_json}

update_section-valid :
    {A : Type 0} (api : JsonApi) (delta desired : api.View) (key : String) (load : api.View → A)
    (valid : A → Bool) (old : A)
    → valid old ≡ true
    → valid (update_section api delta desired key load valid old) ≡ true
update_section-valid api delta desired key load valid old h =
    elim (Bool-cases (api.value_exists desired key && api.value_exists delta key)) [
      | inr absent ↦ rw absent h
      | inl present ↦ elim (Bool-cases (valid (load (api.get_json_object desired key)))) [
        | inl good ↦ rw (present, good) good
        | inr bad ↦ rw (present, bad) h
      ]
    ]

split : (a b : Bool) → (a && b) ≡ true → (a ≡ true) × (b ≡ true)
split true b h = (refl, h)
split false b h = absurd (cc)

join : (a b : Bool) → a ≡ true → b ≡ true → (a && b) ≡ true
join true b e h = h
join false b e h = absurd (cc)

module _ (o : Outside) (api : JsonApi) (delta desired : api.View) (c : PlainConfig) where
  abbrev reset : PlainConfig
  reset = reset_client_config_with_json (files o) api delta desired c

  reset-sections : sections_valid (files o) c ≡ true → sections_valid (files o) reset ≡ true
  unfolding sections_valid reset_client_config_with_json
  reset-sections h =
      let (d, h1) = split _ _ h in
      let (t, h2) = split _ _ h1 in
      let (f, h3) = split _ _ h2 in
      let (p, h4) = split _ _ h3 in
      let (s, e) = split _ _ h4 in
      join _ _
        (update_section-valid api delta desired "device-defender"
          (λ v. DeviceDefender.load_from_json api v DeviceDefender.default_device_defender)
          DeviceDefender.validate c.device_defender d)
        (join _ _
          (update_section-valid api delta desired "tunneling"
            (λ v. Tunneling.load_from_json api v Tunneling.default_tunneling) Tunneling.validate
            c.tunneling t)
          (join _ _ f (
            join _ _
              (update_section-valid api delta desired "samples"
                (λ v.
                  PubSub.load_from_json (files o) api (api.get_json_object v "pub-sub")
                    PubSub.default_pub_sub)
                PubSub.validate c.pub_sub p)
              (join _ _
                (update_section-valid api delta desired "sample-shadow"
                  (λ v.
                    SampleShadow.load_from_json (files o) api v SampleShadow.default_sample_shadow)
                  (SampleShadow.validate (files o)) c.sample_shadow s)
                e))))

  reset-accepted : accepted o c ≡ true → accepted o reset ≡ true
  unfolding identity_valid reset_client_config_with_json
  reset-accepted h =
      let (m, h1) = split (mqtt_valid c.mqtt_keep_alive_seconds c.mqtt_ping_timeout_ms) _ h in
      let (r, h2) = split (root_ca_valid (files o) c.root_ca) _ h1 in
      let (i, s) = split (identity_valid (files o) c) _ h2 in
      join _ _ m (join _ _ r (join _ _ i (reset-sections s)))

  -- A configuration that is acceptable to Validate stays acceptable, whatever the documents of the
  -- shadow service contain, and keeps what is not one of the five sections that they can change.
  pub reset-Acceptable :
      Acceptable o c
      → Acceptable o reset
        × (reset ≡ record c {
          jobs = reset.jobs;
          tunneling = reset.tunneling;
          device_defender = reset.device_defender;
          pub_sub = reset.pub_sub;
          sample_shadow = reset.sample_shadow;
        })
  unfolding reset_client_config_with_json
  reset-Acceptable a = ((accepted_iff o reset).0 (reset-accepted ((accepted_iff o c).1 a)), refl)
