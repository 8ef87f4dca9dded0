-- ===== src/Tests/Settings.antt =====
-- Runs of the whole configuration.
use aws_iot_device_client.Base.{
  ◌≡◌, ◌≢◌, ◌⊎◌, ◌↔◌, refl, inr, arith, Bool, true, false, ◌||◌, List, [], ◌∷◌, none, some, Text,
  text, text_eq,
}
use aws_iot_device_client.Base.Int.{pos}
use aws_iot_device_client.Util.FileUtils.{FileInfo, FileSystem, validate_file_permissions}
use aws_iot_device_client.Util.FileUtils.Permissions.{Permitted, validate_file_permissions_iff}
use aws_iot_device_client.Config.SensorPublish as SensorPublish
use aws_iot_device_client.Config.SensorPublish.{
  SensorSettings, SensorPublish, SensorChecks, default_sensor_settings,
}
use aws_iot_device_client.Config.SensorPublish.Validity.{
  AllChecked, SomeEnabled, validate_sensors_lem, missing_member_faults,
}
use aws_iot_device_client.Config.PlainConfig.{PlainConfig, Outside, default_config, validate}
use aws_iot_device_client.Config.PlainConfig.Acceptance.{validate-Acceptable}
use aws_iot_device_client.Config.PlainConfig.Requirements.{Acceptable}
use aws_iot_device_client.Config.PlainConfig.Idle.{idle_sensors_refused}
use aws_iot_device_client.Config.PlainConfig.Reloads.{Reloads}

abbrev pub info_of : Text → FileInfo
info_of p = record { mode = 33188; owner = 1000; size = 12; is_dir = false }

-- The files cert.pem and key.pem, rw-r--r--.
abbrev pub disk : FileSystem
disk = record {
  word_exp = λ p. p;
  stat = λ p. some (info_of p);
  opens = λ p. text_eq p (text "cert.pem") || text_eq p (text "key.pem");
  uid = 1000;
}

validate_file_permissions_iff_example :
    (validate_file_permissions disk (text "cert.pem") 644 true ≡ true)
    ↔ Permitted disk (text "cert.pem") 644 true
validate_file_permissions_iff_example =
    validate_file_permissions_iff disk (text "cert.pem") 644 true (λ e. omega (arith, e))

abbrev pub sensor_checks : SensorChecks
sensor_checks = record {
  files = disk;
  compiles = λ p. true;
  after_reserved = λ t. none;
  address_max_len = 108;
}

abbrev sensor : SensorSettings
sensor = record {
  enabled = true;
  name = some (text "1");
  addr = some (text "cert.pem");
  addr_poll_sec = pos 10;
  buffer_time_ms = pos 0;
  buffer_size = pos 0;
  buffer_capacity = pos 128000;
  eom_delimiter = some (text "x");
  mqtt_topic = some (text "data");
  mqtt_dead_letter_topic = none;
  mqtt_heartbeat_topic = none;
  heartbeat_time_sec = pos 300;
}

abbrev sensors : SensorPublish
sensors = record { enabled = true; settings = sensor ∷ [] }

validate_sensors_lem_example :
    (ts : List SensorSettings) × (b : Bool) × (SensorPublish.validate sensor_checks sensors
      ≡ some (record sensors { settings = ts }, b))
    × AllChecked sensor_checks sensors.settings ts
    × ((b ≡ true) ↔ ((sensors.settings ≡ []) ⊎ SomeEnabled sensor_checks ts))
validate_sensors_lem_example =
    validate_sensors_lem sensor_checks sensors ((λ on. ((λ e. cc), (λ e. cc))), tt) (omega arith)

abbrev nowhere : SensorSettings
nowhere = record sensor { mqtt_topic = none }

abbrev faulty_sensors : SensorPublish
faulty_sensors = record { enabled = true; settings = sensor ∷ nowhere ∷ [] }

missing_member_faults_example : SensorPublish.validate sensor_checks faulty_sensors ≡ none
missing_member_faults_example =
    missing_member_faults sensor_checks faulty_sensors (sensor ∷ []) [] nowhere refl (omega arith)
      refl (inr refl)

abbrev pub outside : Outside
outside = record {
  checks = sensor_checks;
  stoi = λ s. none;
  stoul = λ s. none;
  stoull = λ s. none;
  to_string = λ n. text "1";
  creation = record { directory_created = true; file_stored = true };
}

abbrev identified : PlainConfig
identified = record default_config {
  endpoint = some (text "host");
  cert = some (text "cert.pem");
  key = some (text "key.pem");
  thing_name = some (text "thing");
}

validate-Acceptable_example : (validate outside identified ≡ some (identified, true)) ↔ (
    Acceptable outside identified
    × ((SensorPublish.validate sensor_checks identified.sensor_publish
          ≡ some (identified.sensor_publish, true))
        × (identified ≡ record identified { sensor_publish = identified.sensor_publish })))
validate-Acceptable_example = validate-Acceptable outside identified identified

abbrev idle : PlainConfig
idle = record identified {
  sensor_publish = record { enabled = false; settings = record sensor { enabled = false } ∷ [] };
}

idle_sensors_refused_example : validate outside idle ≢ some (idle, true)
idle_sensors_refused_example =
    idle_sensors_refused outside idle idle (λ e. cc) (omega arith) (refl, tt)
