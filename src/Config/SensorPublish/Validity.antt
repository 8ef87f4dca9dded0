-- ===== src/Config/SensorPublish/Validity.antt =====
-- The sensors after the validation.
use aws_iot_device_client.Base.{
  ◌≤◌, ◌≡◌, ◌≢◌, ◌⊎◌, ◌↔◌, ◌∙◌, sym, ap, ap₂, refl, inl, inr, arith, Bool, true, false, ◌||◌, List,
  [], ◌∷◌, ◌++◌, Option, none, some, Option-cases, is_empty, if◌then◌else◌, ltb, length, Bool-cases,
}
use aws_iot_device_client.Config.SensorPublish.{
  SensorSettings, SensorPublish, SensorChecks, validate_sensor, validate_sensors, round,
  validate_one, validate,
}
use aws_iot_device_client.Config.SensorPublish.Requirements.{ValidSensor, checks, checks_valid}

within :
    {A B : Type 0} (u v w : B) (xs : List A)
    → is_empty xs ≡ false
    → length xs ≤ 10
    → (if is_empty xs then u else if ltb 10 (length xs) then v else w) ≡ w
within u v w xs filled few = ground (arith, filled, few)

not_empty : {A : Type 0} (ys zs : List A) (s : A) → is_empty (ys ++ (s ∷ zs)) ≡ false
not_empty [] zs s = refl
not_empty (y ∷ ys) zs s = refl

module _ (k : SensorChecks) where
  -- A sensor before and after: only the flag changes, and it stays set just where the sensor is
  -- valid.
  abbrev pub Checked : SensorSettings → SensorSettings → Type 0
  Checked s t =
      (t ≡ record s { enabled = t.enabled })
      × ((t.enabled ≡ true) ↔ ((s.enabled ≡ true) × ValidSensor k s))

  abbrev pub AllChecked : List SensorSettings → List SensorSettings → Type 0
  AllChecked [] [] = Unit {0}
  AllChecked (s ∷ ss) (t ∷ ts) = Checked s t × AllChecked ss ts
  AllChecked _ _ = ⊥

  abbrev pub SomeEnabled : List SensorSettings → Type 0
  SomeEnabled [] = ⊥
  SomeEnabled (t ∷ ts) = (t.enabled ≡ true) ⊎ SomeEnabled ts

  -- The enabled sensors have an address and a topic.
  abbrev pub Named : List SensorSettings → Type 0
  Named [] = Unit {0}
  Named (s ∷ ss) = (s.enabled ≡ true → (s.addr ≢ none) × (s.mqtt_topic ≢ none)) × Named ss

  one-Checked :
      (s : SensorSettings)
      → (s.enabled ≡ true → (s.addr ≢ none) × (s.mqtt_topic ≢ none))
      → (t : SensorSettings) × (validate_one k s ≡ some t) × Checked s t
  unfolding validate_sensor
  one-Checked s named = elim (Bool-cases s.enabled) [
    | inr off ↦ (s, rw off refl, (refl, (λ h. absurd (cc), λ (h, v). absurd (cc))))
    | inl on ↦ elim (Option-cases s.addr) [
      | inl e ↦ absurd ((named on).0 e)
      | inr (addr, ea) ↦ elim (Option-cases s.mqtt_topic) [
        | inl e ↦ absurd ((named on).1 e)
        | inr (topic, et) ↦
            let valid = checks_valid k s addr topic ea et in
            (
              record s { enabled = checks k s addr topic },
              rw (on, ea, et) refl,
              (refl, (λ h. (on, valid.0 h), λ (h, v). valid.1 v)),
            )
      ]
    ]
  ]

  enabled_or :
      (t : SensorSettings) (ts : List SensorSettings) (b : Bool)
      → (b ≡ true) ↔ SomeEnabled ts
      → ((t.enabled || b) ≡ true) ↔ SomeEnabled (t ∷ ts)
  enabled_or t ts b h = elim (Bool-cases t.enabled) [
    | inl on ↦ (λ e. inl on, λ e. rw on refl)
    | inr off ↦ (
      λ e. inr (h.0 (rw off at e)),
      λ e. elim e [ inl on ↦ absurd (cc) | inr rest ↦ rw off (h.1 rest) ],
    )
  ]

  all_checked :
      (ss : List SensorSettings)
      → Named ss
      → (ts : List SensorSettings) × (b : Bool) × (validate_sensors k ss ≡ some (ts, b))
        × AllChecked ss ts
        × ((b ≡ true) ↔ SomeEnabled ts)
  unfolding validate_sensors
  all_checked [] named = ([], false, refl, tt, (λ h. absurd (cc), λ h. absurd h))
  all_checked (s ∷ ss) (one, rest) =
      let (t, et, checked) = one-Checked s one in
      let (ts, b, ets, all, some_on) = all_checked ss rest in
      ((t ∷ ts), (t.enabled || b), ap₂ (round k) et ets, (checked, all), enabled_or t ts b some_on)

  -- A configuration with at most ten sensors, the enabled ones of which state an address and a
  -- topic, is validated without the use of an empty Optional. Nothing but the flags of the sensors
  -- changes; a sensor is enabled afterwards exactly when it was and meets the requirements; and the
  -- configuration is accepted exactly when it lists no sensor or a sensor is enabled afterwards.
  pub validate_sensors_lem :
      (c : SensorPublish)
      → Named c.settings
      → length c.settings ≤ 10
      → (ts : List SensorSettings) × (b : Bool) × (validate k c
          ≡ some (record c { settings = ts }, b))
        × AllChecked c.settings ts
        × ((b ≡ true) ↔ ((c.settings ≡ []) ⊎ SomeEnabled ts))
  unfolding validate
  validate_sensors_lem c named few = validate_by c.settings refl
    where
      validate_by :
          (ss : List SensorSettings)
          → c.settings ≡ ss
          → (ts : List SensorSettings) × (b : Bool) × (validate k c
              ≡ some (record c { settings = ts }, b))
            × AllChecked c.settings ts
            × ((b ≡ true) ↔ ((c.settings ≡ []) ⊎ SomeEnabled ts))
      validate_by [] e = ([], true, rw e refl, rw e tt, (λ h. inl e, λ h. refl))
      validate_by (s ∷ ss) e =
          let (ts, b, ets, all, some_on) = all_checked c.settings named in
          (
            ts,
            b,
            within _ _ _ c.settings (rw e refl) few ∙ rw ets refl,
            all,
            (
              λ h. inr (some_on.0 h),
              λ h. elim h [
                | inl without ↦ absurd (ground (arith, sym e ∙ without))
                | inr on ↦ some_on.1 on
              ],
            ),
          )

  faulty :
      (s : SensorSettings)
      → s.enabled ≡ true
      → (s.addr ≡ none) ⊎ (s.mqtt_topic ≡ none)
      → validate_one k s ≡ none
  unfolding validate_sensor
  faulty s on (inl e) = rw (on, e) refl
  faulty s on (inr e) =
      rw on (elim (Option-cases s.addr) [ inl f ↦ rw f refl | inr (addr, f) ↦ rw (f, e) refl ])

  round-none : (o : Option SensorSettings) → round k o none ≡ none
  round-none none = refl
  round-none (some t) = refl

  fails_after :
      (ys zs : List SensorSettings) (s : SensorSettings)
      → validate_one k s ≡ none
      → validate_sensors k (ys ++ (s ∷ zs)) ≡ none
  unfolding validate_sensors
  fails_after [] zs s h = ap (λ o. round k o (validate_sensors k zs)) h
  fails_after (y ∷ ys) zs s h =
      ap (round k (validate_one k y)) (fails_after ys zs s h) ∙ round-none (validate_one k y)

  -- An enabled sensor without an address or without a topic, among at most ten, makes the
  -- validation use an empty Optional.
  pub missing_member_faults :
      (c : SensorPublish) (ys zs : List SensorSettings) (s : SensorSettings)
      → c.settings ≡ ys ++ (s ∷ zs)
      → length c.settings ≤ 10
      → s.enabled ≡ true
      → (s.addr ≡ none) ⊎ (s.mqtt_topic ≡ none)
      → validate k c ≡ none
  unfolding validate
  missing_member_faults c ys zs s e few on missing =
      within _ _ _ c.settings (rw e (not_empty ys zs s)) few
      ∙ rw (e, fails_after ys zs s (faulty s on missing)) refl
