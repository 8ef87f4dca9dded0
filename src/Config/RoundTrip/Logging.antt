-- ===== src/Config/RoundTrip/Logging.antt =====
-- The settings of the loggers, read back from what SerializeToObject writes.
use aws_iot_device_client.Base.{
  ◌≡◌, ◌⊎◌, sym, ap, refl, inl, inr, true, false, Text, text, text_eq, is_empty, or_else,
}
use aws_iot_device_client.Base.Json.{JsonApi, JsonWriter}
use aws_iot_device_client.Util.FileUtils.{FileSystem, extract_expanded_path}
use aws_iot_device_client.Config.Json.Laws.{filled, written}
use aws_iot_device_client.Config.LogConfig.{
  LogConfig, LogLevel, SdkLogLevel, error, warn, info, debug, trace, sdk_trace, sdk_debug, sdk_info,
  sdk_warn, sdk_error, sdk_fatal, parse_device_client_log_level, parse_sdk_log_level,
  parse_device_client_log_type, stringify_device_client_log_level, load_one, put_level, put_type,
  put_sdk_level, load_from_json, serialize_to_object, default_log_config,
}
use aws_iot_device_client.Config.LogConfig.Loading.{sdk_name}
use aws_iot_device_client.Config.RoundTrip.{Kept}

level_loaded :
    (l : LogLevel) (c : LogConfig)
    → load_one
        (filled (stringify_device_client_log_level l))
        parse_device_client_log_level
        put_level
        c
      ≡ (put_level l c, true)
unfolding stringify_device_client_log_level parse_device_client_log_level
level_loaded error c = refl
level_loaded warn c = refl
level_loaded info c = refl
level_loaded debug c = refl
level_loaded trace c = refl

sdk_level_loaded :
    (l : SdkLogLevel) (c : LogConfig)
    → load_one (filled (sdk_name l)) parse_sdk_log_level put_sdk_level c ≡ (put_sdk_level l c, true)
unfolding parse_sdk_log_level
sdk_level_loaded sdk_trace c = refl
sdk_level_loaded sdk_debug c = refl
sdk_level_loaded sdk_info c = refl
sdk_level_loaded sdk_warn c = refl
sdk_level_loaded sdk_error c = refl
sdk_level_loaded sdk_fatal c = refl

type_loaded :
    (t : Text)
    → (t ≡ text "file") ⊎ (t ≡ text "stdout")
    → (c : LogConfig)
    → load_one (filled t) parse_device_client_log_type put_type c ≡ (put_type t c, true)
unfolding parse_device_client_log_type
type_loaded t (inl e) c = rw e refl
type_loaded t (inr e) c = rw e refl

-- A path that is there, expanded and without NUL.
abbrev pub KeptPath : FileSystem → Text → Type 0
KeptPath fs s = (is_empty s ≡ false) × Kept fs s

-- The file of the log is read only where the log goes to a file.
abbrev pub LogReads : FileSystem → LogConfig → Type 0
LogReads fs c =
    (((c.device_client_log_type ≡ text "file") × KeptPath fs c.device_client_log_file)
      ⊎ ((c.device_client_log_type ≡ text "stdout")
          × (c.device_client_log_file
              ≡ text "/var/log/aws-iot-device-client/aws-iot-device-client.log")))
    × KeptPath fs c.sdk_log_file

path_loaded :
    (fs : FileSystem) (s old : Text)
    → KeptPath fs s
    → or_else (filled s) (λ t. extract_expanded_path fs t) old ≡ s
path_loaded fs s old (full, kept) = rw (full, kept.0) (kept.1)

module _ (fs : FileSystem) {api : JsonApi} (w : JsonWriter api)
    (level_to_string : SdkLogLevel → Text)
    (names : (l : SdkLogLevel) → level_to_string l ≡ sdk_name l) where
  pub logging_round :
      (c : LogConfig)
      → LogReads fs c
      → (load_from_json
          (extract_expanded_path fs)
          api
          (serialize_to_object level_to_string w c)
          default_log_config).0
        ≡ c
  unfolding load_from_json serialize_to_object default_log_config
  logging_round c (place, sdk) = simp written (
      rw (level_loaded c.device_client_log_level) (elim place [
        | inl (is_file, kept) ↦
            rw
              (
                type_loaded c.device_client_log_type (inl is_file),
                ap (λ t. text_eq t (text "file")) is_file,
                path_loaded fs c.device_client_log_file _ kept,
                names c.sdk_log_level,
                sdk_level_loaded c.sdk_log_level,
                path_loaded fs c.sdk_log_file _ sdk,
              )
              refl
        | inr (is_stdout, default) ↦
            rw
              (
                type_loaded c.device_client_log_type (inr is_stdout),
                ap (λ t. text_eq t (text "file")) is_stdout,
                names c.sdk_log_level,
                sdk_level_loaded c.sdk_log_level,
                path_loaded fs c.sdk_log_file _ sdk,
              )
              (ap (λ t. record c { device_client_log_file = t }) (sym default))
      ]))
