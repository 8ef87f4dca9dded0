-- ===== src/Config/PlainConfig/Idle.antt =====
-- A configuration with sensors, none of which is enabled.
use aws_iot_device_client.Base.{
  ◌≤◌, ◌≡◌, ◌≢◌, ◌∙◌, sym, inl, inr, Bool, true, false, List, [], ◌∷◌, Option, some, length,
}
use aws_iot_device_client.Config.SensorPublish.{SensorSettings, SensorChecks}
use aws_iot_device_client.Config.SensorPublish.Validity.{
  Named, AllChecked, SomeEnabled, validate_sensors_lem,
}
use aws_iot_device_client.Config.PlainConfig.Checking.{validate}
use aws_iot_device_client.Config.PlainConfig.State.{PlainConfig, Outside}
use aws_iot_device_client.Config.PlainConfig.Acceptance.{validate-Acceptable}

-- No sensor is enabled.
abbrev pub AllDisabled : List SensorSettings → Type 0
AllDisabled [] = Unit {0}
AllDisabled (s ∷ ss) = (s.enabled ≡ false) × AllDisabled ss

module _ (k : SensorChecks) where
  disabled-Named : (ss : List SensorSettings) → AllDisabled ss → Named k ss
  disabled-Named [] h = tt
  disabled-Named (s ∷ ss) (off, rest) = ((λ on. absurd (cc)), disabled-Named ss rest)

  none_enabled :
      (ss ts : List SensorSettings) → AllDisabled ss → AllChecked k ss ts → SomeEnabled k ts → ⊥
  none_enabled [] [] off all on = on
  none_enabled [] (t ∷ ts) off all on = all
  none_enabled (s ∷ ss) [] off all on = all
  none_enabled (s ∷ ss) (t ∷ ts) (off, offs) (one, all) on = elim on [
    | inl enabled ↦ let was = (one.1.0 enabled).0 in cc
    | inr rest ↦ none_enabled ss ts offs all rest
  ]

flag_of :
    {A : Type 0} (a a' : A) (b b' : Bool)
    → ◌≡◌ {A = Option (A × Bool)} (some (a, b)) (some (a', b'))
    → b ≡ b'
flag_of a a' b b' h = cc

-- A configuration that lists sensors, at most ten and none of them enabled, is refused, whatever
-- else it states.
pub idle_sensors_refused :
    (o : Outside) (c d : PlainConfig)
    → c.sensor_publish.settings ≢ []
    → length c.sensor_publish.settings ≤ 10
    → AllDisabled c.sensor_publish.settings
    → validate o c ≢ some (d, true)
idle_sensors_refused o c d listed few off accepted =
    let (a, (valid, e)) = (validate-Acceptable o c d).0 accepted in
    let (ts, b, made, all, when) =
      validate_sensors_lem o.checks c.sensor_publish
        (disabled-Named o.checks c.sensor_publish.settings off) few in
    elim (when.0 (flag_of _ _ _ _ (sym made ∙ valid))) [
      | inl empty ↦ listed empty
      | inr on ↦ none_enabled o.checks c.sensor_publish.settings ts off all on
    ]
