-- ===== src/Config/PlainConfig/Acceptance.antt =====
-- What the validation accepts.
use aws_iot_device_client.Base.{
  ◌≡◌, ◌⊎◌, ◌↔◌, ◌∙◌, sym, ap, ap₂, inl, inr, arith, Bool, true, ◌&&◌, Option, some, Option-cases,
  Bool-cases,
}
use aws_iot_device_client.Config.Requirements.{both, AtLeast}
use aws_iot_device_client.Config.SensorPublish as SensorPublish
use aws_iot_device_client.Config.DeviceDefender as DeviceDefender
use aws_iot_device_client.Config.FleetProvisioning as FleetProvisioning
use aws_iot_device_client.Config.PubSub as PubSub
use aws_iot_device_client.Config.SampleShadow as SampleShadow
use aws_iot_device_client.Config.SecureElement as SecureElement
use aws_iot_device_client.Config.FleetProvisioning.{found}
use aws_iot_device_client.Config.SampleShadow.{usable}
use aws_iot_device_client.Config.PlainConfig.Checking.{
  mqtt_valid, root_ca_valid, identity_valid, sections_valid, validate,
}
use aws_iot_device_client.Config.PlainConfig.State.{PlainConfig, Outside, files}
use aws_iot_device_client.Config.PlainConfig.Requirements.{
  Filled, FileGiven, Found, InputFits, OutputFits, OffOr, TunnelingFits, Acceptable,
}
use aws_iot_device_client.Config.PlainConfig.Requirements.Checks.{
  mqtt_iff, Filled-iff, off_or_iff, interval_iff, file_given_iff, found_iff, input_iff, output_iff,
  root_ca_iff, key_iff, tunneling_iff,
}

-- The conditions of Validate, before the sensors.
abbrev pub accepted : Outside → PlainConfig → Bool
accepted o c =
    mqtt_valid c.mqtt_keep_alive_seconds c.mqtt_ping_timeout_ms
    && (root_ca_valid (files o) c.root_ca
        && (identity_valid (files o) c && sections_valid (files o) c))

pair_of :
    {A B : Type 0} (a a' : A) (b b' : B)
    → ◌≡◌ {A = Option (A × B)} (some (a, b)) (some (a', b'))
    → (a ≡ a') × (b ≡ b')
pair_of a a' b b' h = (cc, cc)

module _ (o : Outside) (c : PlainConfig) where
  identity_iff : (identity_valid (files o) c ≡ true) ↔ (
      Filled c.endpoint
      × (FileGiven (files o) c.cert
          × (((c.secure_element.enabled ≡ true) ⊎ FileGiven (files o) c.key)
              × Filled c.thing_name)))
  unfolding identity_valid
  identity_iff = both _ _ (Filled-iff c.endpoint) (
      both _ _ (file_given_iff (files o) c.cert)
        (both _ _ (key_iff _ _ (file_given_iff (files o) c.key)) (Filled-iff c.thing_name)))

  sections_iff : (sections_valid (files o) c ≡ true) ↔ (
      OffOr c.device_defender.enabled (AtLeast 1 c.device_defender.interval)
      × (TunnelingFits c.tunneling
          × (OffOr c.fleet_provisioning.enabled (
                Filled c.fleet_provisioning.template_name
                × (Found (files o) c.fleet_provisioning.csr_file
                    × Found (files o) c.fleet_provisioning.device_key))
              × (OffOr c.pub_sub.enabled
                    (Filled c.pub_sub.publish_topic × Filled c.pub_sub.subscribe_topic)
                  × (OffOr c.sample_shadow.enabled (
                        Filled c.sample_shadow.shadow_name
                        × (InputFits (files o) c.sample_shadow.shadow_input_file
                            × OutputFits (files o) c.sample_shadow.shadow_output_file))
                      × OffOr c.secure_element.enabled (
                          Filled c.secure_element.pkcs11_lib
                          × Filled c.secure_element.secure_element_pin))))))
  unfolding sections_valid DeviceDefender.validate FleetProvisioning.validate PubSub.validate
      SampleShadow.validate SecureElement.validate
  sections_iff = both _ _ (off_or_iff _ _ (interval_iff c.device_defender.interval)) (
      both _ _ (tunneling_iff c.tunneling) (
        both _ _
          (off_or_iff _ _ (
            both _ _ (Filled-iff c.fleet_provisioning.template_name) (
              both _ _ (found_iff (files o) c.fleet_provisioning.csr_file)
                (found_iff (files o) c.fleet_provisioning.device_key))))
          (both _ _
            (off_or_iff _ _ (
              both _ _ (Filled-iff c.pub_sub.publish_topic) (Filled-iff c.pub_sub.subscribe_topic)))
            (both _ _
              (off_or_iff _ _ (
                both _ _ (Filled-iff c.sample_shadow.shadow_name) (
                  both _ _ (input_iff (files o) c.sample_shadow.shadow_input_file)
                    (output_iff (files o) c.sample_shadow.shadow_output_file))))
              (off_or_iff _ _ (
                both _ _ (Filled-iff c.secure_element.pkcs11_lib)
                  (Filled-iff c.secure_element.secure_element_pin)))))))

  pub accepted_iff : (accepted o c ≡ true) ↔ Acceptable o c
  accepted_iff =
      let all =
        both _ _ (mqtt_iff c.mqtt_keep_alive_seconds c.mqtt_ping_timeout_ms)
          (both _ _ (root_ca_iff (files o) c.root_ca) (both _ _ identity_iff sections_iff)) in
      (
        λ h.
            let (m, (r, ((e, (x, (y, t))), (d, (tu, (f, (p, (s, z)))))))) = all.0 h in
            record {
              mqtt = m;
              root_ca = r;
              endpoint = e;
              cert = x;
              key = y;
              thing_name = t;
              device_defender = d;
              tunneling = tu;
              fleet_provisioning = f;
              pub_sub = p;
              sample_shadow = s;
              secure_element = z;
            },
        λ a. all.1 (
          a.mqtt,
          (
            a.root_ca,
            (
              (a.endpoint, (a.cert, (a.key, a.thing_name))),
              (
                a.device_defender,
                (
                  a.tunneling,
                  (a.fleet_provisioning, (a.pub_sub, (a.sample_shadow, a.secure_element))),
                ),
              ),
            ),
          ),
        ),
      )

  abbrev with_sensors : SensorPublish.SensorPublish → PlainConfig
  with_sensors s = record c { sensor_publish = s }

  -- Validate accepts a configuration, as another one, exactly when it is acceptable, its sensors
  -- are accepted as those of the other one, and the two are the same but for the sensors. That the
  -- configuration is acceptable means that the keep-alive period is 0 or from 30 to 1200 seconds
  -- and the ping timeout is shorter than the period, 0 standing for 1200 seconds and 3 seconds;
  -- that a root certificate that exists is the user's own, with the mode 644, in a directory of the
  -- user's own with the mode 700; that the endpoint and the name are not empty and the files of the
  -- certificate and, without a secure element, of the key are there; and that each other section is
  -- disabled or has what it needs.
  pub validate-Acceptable :
      (d : PlainConfig)
      → (validate o c ≡ some (d, true)) ↔ (
          Acceptable o c
          × ((SensorPublish.validate o.checks c.sensor_publish ≡ some (d.sensor_publish, true))
              × (d ≡ record c { sensor_publish = d.sensor_publish })))
  unfolding validate
  validate-Acceptable d = elim (Bool-cases (accepted o c)) [
    | inr refused ↦ (
      λ h. absurd (ground (arith, rw refused at h)),
      λ (a, r). absurd (let holds = accepted_iff.1 a in ground (arith, holds, refused)),
    )
    | inl fine ↦ elim (Option-cases (SensorPublish.validate o.checks c.sensor_publish)) [
      | inl fault ↦ (
        λ h. absurd (ground (arith, rw (fine, fault) at h)),
        λ (a, (r, e)). absurd (ground (arith, r, fault)),
      )
      | inr ((s, b), valid) ↦ (
        λ h.
            let (made, flag) = pair_of _ _ _ _ (rw (fine, valid) at h) in
            let same_sensors : s ≡ d.sensor_publish =
              ap (λ (r : PlainConfig). r.sensor_publish) made in
            (
              accepted_iff.0 fine,
              (
                valid ∙ ap₂ (λ x y. some (x, y)) same_sensors flag,
                sym made ∙ ap with_sensors same_sensors,
              ),
            ),
        λ (a, (r, e)).
            let (same_sensors, flag) = pair_of _ _ _ _ (sym valid ∙ r) in
            rw (fine, valid) (ap₂ (λ x y. some (x, y)) (ap with_sensors same_sensors ∙ sym e) flag),
      )
    ]
  ]
