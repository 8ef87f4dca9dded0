-- ===== src/Config/SensorPublish/Requirements.antt =====
-- The requirements on a sensor.
use aws_iot_device_client.Base.{
  ◌+◌, ◌≤◌, ◌≡◌, ◌⊎◌, ◌↔◌, ◌∙◌, sym, refl, inl, inr, arith, Bool, true, false, not, ◌&&◌, Option,
  none, some, Text, is_empty, or_else, leb, length, Bool-cases,
}
use aws_iot_device_client.Config.Requirements.{both, AtLeast, AtLeast-iff}
use aws_iot_device_client.Config.SensorPublish.{
  SensorSettings, SensorChecks, validate_topic_name, addr_permitted, optional_topic, settings_valid,
}

same : {s t : Text} → some s ≡ some t → s ≡ t
same h = cc

module _ (k : SensorChecks) where
  -- A topic of at most 256 bytes, after a reserved beginning.
  abbrev pub TopicFits : Text → Type 0
  TopicFits topic = length (or_else (k.after_reserved topic) (λ rest. rest) topic) ≤ 256

  abbrev pub OptionalFits : Option Text → Type 0
  OptionalFits none = Unit {0}
  OptionalFits (some t) = (is_empty t ≡ true) ⊎ TopicFits t

  abbrev pub Delimits : Option Text → Type 0
  Delimits none = ⊥
  Delimits (some d) = (is_empty d ≡ false) × (k.compiles d ≡ true)

  -- The requirements on a sensor.
  pub record ValidSensor (s : SensorSettings) : Type 0 where
    pub addr : Text
    pub topic : Text
    pub addr_set : s.addr ≡ some addr
    pub topic_set : s.mqtt_topic ≡ some topic
    pub socket_permitted : addr_permitted k addr ≡ true
    pub addr_fits : length addr + 1 ≤ k.address_max_len
    pub topic_filled : is_empty topic ≡ false
    pub topic_fits : TopicFits topic
    pub dead_letter_fits : OptionalFits s.mqtt_dead_letter_topic
    pub heartbeat_fits : OptionalFits s.mqtt_heartbeat_topic
    pub delimiter : Delimits s.eom_delimiter
    pub poll_time : AtLeast 0 s.addr_poll_sec
    pub time : AtLeast 0 s.buffer_time_ms
    pub size : AtLeast 0 s.buffer_size
    pub heartbeat_time : AtLeast 0 s.heartbeat_time_sec
    pub capacity : AtLeast 1024 s.buffer_capacity

  topic_iff : (t : Text) → (validate_topic_name k.after_reserved t ≡ true) ↔ TopicFits t
  unfolding validate_topic_name
  topic_iff t = ground arith

  optional_iff : (o : Option Text) → (optional_topic k o ≡ true) ↔ OptionalFits o
  optional_iff none = (λ h. tt, λ h. refl)
  optional_iff (some t) = elim (Bool-cases (is_empty t)) [
    | inl e ↦ (λ h. inl e, λ h. rw e refl)
    | inr f ↦ (
      λ h. inr ((topic_iff t).0 (rw f at h)),
      λ h. elim h [ inl e ↦ absurd (cc) | inr fits ↦ rw (f, (topic_iff t).1 fits) refl ],
    )
  ]

  delimiter_iff :
      (o : Option Text)
      → (or_else o (λ d. not (is_empty d) && k.compiles d) false ≡ true) ↔ Delimits o
  delimiter_iff none = (λ h. cc, λ h. absurd h)
  delimiter_iff (some d) = ground arith

  -- The checks of validate_sensor, for an address and a topic.
  abbrev pub checks : SensorSettings → Text → Text → Bool
  checks s addr topic =
      addr_permitted k addr
      && (leb (length addr + 1) k.address_max_len
          && (not (is_empty topic)
              && (validate_topic_name k.after_reserved topic && settings_valid k s)))

  fits_iff :
      (addr : Text)
      → (leb (length addr + 1) k.address_max_len ≡ true) ↔ (length addr + 1 ≤ k.address_max_len)
  fits_iff addr = ground arith

  Filled-iff : (t : Text) → (not (is_empty t) ≡ true) ↔ (is_empty t ≡ false)
  Filled-iff t = ground arith

  checks_iff :
      (s : SensorSettings) (addr topic : Text)
      → (checks s addr topic ≡ true) ↔ (
          (addr_permitted k addr ≡ true)
          × ((length addr + 1 ≤ k.address_max_len)
              × ((is_empty topic ≡ false)
                  × (TopicFits topic
                      × (OptionalFits s.mqtt_dead_letter_topic
                          × (OptionalFits s.mqtt_heartbeat_topic
                              × (Delimits s.eom_delimiter
                                  × (AtLeast 0 s.addr_poll_sec
                                      × (AtLeast 0 s.buffer_time_ms
                                          × (AtLeast 0 s.buffer_size
                                              × (AtLeast 0 s.heartbeat_time_sec
                                                  × AtLeast 1024 s.buffer_capacity)))))))))))
  checks_iff s addr topic =
      both _ _ (λ h. h, λ h. h)
        (both _ _ (fits_iff addr) (
          both _ _ (Filled-iff topic) (
            both _ _ (topic_iff topic) (
              both _ _ (optional_iff s.mqtt_dead_letter_topic) (
                both _ _ (optional_iff s.mqtt_heartbeat_topic) (
                  both _ _ (delimiter_iff s.eom_delimiter) (
                    both _ _ (AtLeast-iff 0 s.addr_poll_sec) (
                      both _ _ (AtLeast-iff 0 s.buffer_time_ms) (
                        both _ _ (AtLeast-iff 0 s.buffer_size) (
                          both _ _ (AtLeast-iff 0 s.heartbeat_time_sec)
                            (AtLeast-iff 1024 s.buffer_capacity)))))))))))

  pub checks_valid :
      (s : SensorSettings) (addr topic : Text)
      → s.addr ≡ some addr
      → s.mqtt_topic ≡ some topic
      → (checks s addr topic ≡ true) ↔ ValidSensor s
  checks_valid s addr topic ea et = (
    λ h.
        let (
          socket,
          (fits, (filled, (name, (dead, (beat, (delim, (poll, (time, (size, (pulse, cap)))))))))),
        ) =
          (checks_iff s addr topic).0 h in
        record {
          addr = addr;
          topic = topic;
          addr_set = ea;
          topic_set = et;
          socket_permitted = socket;
          addr_fits = fits;
          topic_filled = filled;
          topic_fits = name;
          dead_letter_fits = dead;
          heartbeat_fits = beat;
          delimiter = delim;
          poll_time = poll;
          time = time;
          size = size;
          heartbeat_time = pulse;
          capacity = cap;
        },
    λ v.
        rw (same (sym ea ∙ v.addr_set), same (sym et ∙ v.topic_set))
          ((checks_iff s v.addr v.topic).1 (
            v.socket_permitted,
            (
              v.addr_fits,
              (
                v.topic_filled,
                (
                  v.topic_fits,
                  (
                    v.dead_letter_fits,
                    (
                      v.heartbeat_fits,
                      (
                        v.delimiter,
                        (v.poll_time, (v.time, (v.size, (v.heartbeat_time, v.capacity)))),
                      ),
                    ),
                  ),
                ),
              ),
            ),
          )),
  )
