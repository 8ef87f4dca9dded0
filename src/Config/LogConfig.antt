-- ===== src/Config/LogConfig.antt =====
-- config/Config.cpp: PlainConfig::LogConfig, the settings of the loggers. `expand` stands for
-- FileUtils::ExtractExpandedPath, which asks the C library. A load that returns false leaves what
-- it has stored so far.
pub mod Loading
use Prim.Native.String.{String}
use aws_iot_device_client.Base.{
  or_else, ℕ, ◌+◌, ◌-◌, Bool, true, false, not, ◌&&◌, List, [], ◌∷◌, Option, none, some, Text, text,
  map, is_empty, if◌then◌else◌, text_eq, leb,
}
use aws_iot_device_client.Base.Json.{JsonApi, JsonWriter, JsonItem, bool, string}
use aws_iot_device_client.Jobs.JobEngine.{until_nul}
use aws_iot_device_client.Config.CommandLine.{CliArgs, find}

-- Logging::LogLevel, and the levels of the CRT that ParseSDKLogLevel names.
pub data LogLevel : Type 0 where
  error warn info debug trace : LogLevel

pub data SdkLogLevel : Type 0 where
  sdk_trace sdk_debug sdk_info sdk_warn sdk_error sdk_fatal : SdkLogLevel

pub record LogConfig : Type 0 where
  pub device_client_log_level : LogLevel
  pub device_client_log_type : Text
  pub device_client_log_file : Text
  pub sdk_logging_enabled : Bool
  pub sdk_log_level : SdkLogLevel
  pub sdk_log_file : Text

unfoldable pub default_log_config : LogConfig
default_log_config = record {
  device_client_log_level = debug;
  device_client_log_type = text "stdout";
  device_client_log_file = text "/var/log/aws-iot-device-client/aws-iot-device-client.log";
  sdk_logging_enabled = false;
  sdk_log_level = sdk_trace;
  sdk_log_file = text "/var/log/aws-iot-device-client/sdk.log";
}

-- std::toupper and std::tolower, in the "C" locale.
abbrev pub to_upper : ℕ → ℕ
to_upper c = if leb 97 c && leb c 122 then c - 32 else c

abbrev pub to_lower : ℕ → ℕ
to_lower c = if leb 65 c && leb c 90 then c + 32 else c

-- The comparisons of the three parsers, in their order.
abbrev pub level_names : List (Text × LogLevel)
level_names =
    (text "TRACE", trace)
    ∷ (text "DEBUG", debug)
    ∷ (text "INFO", info)
    ∷ (text "WARN", warn)
    ∷ (text "ERROR", error)
    ∷ []

abbrev pub sdk_level_names : List (Text × SdkLogLevel)
sdk_level_names =
    (text "TRACE", sdk_trace)
    ∷ (text "DEBUG", sdk_debug)
    ∷ (text "INFO", sdk_info)
    ∷ (text "WARN", sdk_warn)
    ∷ (text "ERROR", sdk_error)
    ∷ (text "FATAL", sdk_fatal)
    ∷ []

abbrev pub type_names : List (Text × Text)
type_names = (text "file", text "file") ∷ (text "stdout", text "stdout") ∷ []

-- The parsers; none is the exception.
unfoldable pub parse_device_client_log_level : Text → Option LogLevel
parse_device_client_log_level level = find (map to_upper level) level_names

unfoldable pub parse_sdk_log_level : Text → Option SdkLogLevel
parse_sdk_log_level level = find (map to_upper level) sdk_level_names

unfoldable pub parse_device_client_log_type : Text → Option Text
parse_device_client_log_type value = find (map to_lower value) type_names

-- StringifyDeviceClientLogLevel.
unfoldable pub stringify_device_client_log_level : LogLevel → Text
stringify_device_client_log_level error = text "ERROR"
stringify_device_client_log_level warn = text "WARN"
stringify_device_client_log_level info = text "INFO"
stringify_device_client_log_level debug = text "DEBUG"
stringify_device_client_log_level trace = text "TRACE"

-- A setting that is stored once it is parsed, if it was given; and the next settings after it.
abbrev pub store {ℓ} :
    {A : Type ℓ} → Option A → (A → LogConfig → LogConfig) → LogConfig → LogConfig × Bool
store none put c = (c, false)
store (some a) put c = (put a c, true)

abbrev pub load_one {ℓ} :
    {A : Type ℓ}
    → Option Text
    → (Text → Option A)
    → (A → LogConfig → LogConfig)
    → LogConfig
    → LogConfig × Bool
load_one given parse put c = or_else given (λ s. store (parse s) put c) (c, true)

abbrev pub and_then : LogConfig × Bool → (LogConfig → LogConfig × Bool) → LogConfig × Bool
and_then (c, true) next = next c
and_then (c, false) next = (c, false)

abbrev pub put_level : LogLevel → LogConfig → LogConfig
put_level l c = record c { device_client_log_level = l }

abbrev pub put_type : Text → LogConfig → LogConfig
put_type t c = record c { device_client_log_type = t }

abbrev pub put_sdk_level : SdkLogLevel → LogConfig → LogConfig
put_sdk_level l c = record c { sdk_log_level = l }

-- A string of the file, unless it is absent or empty.
abbrev pub json_string : (api : JsonApi) → api.View → String → Option Text
json_string api json key =
    if api.value_exists json key && not (is_empty (api.get_string json key))
    then some (until_nul (api.get_string json key))
    else none

module _ (expand : Text → Text) where
  -- LoadFromJson.
  unfoldable pub load_from_json : (api : JsonApi) → api.View → LogConfig → LogConfig × Bool
  load_from_json api json c =
      and_then (load_one (json_string api json "level") parse_device_client_log_level put_level c)
        (λ c1.
          and_then (load_one (json_string api json "type") parse_device_client_log_type put_type c1)
            (λ c2.
              let c3 = record c2 {
                device_client_log_file =
                    if text_eq c2.device_client_log_type (text "file")
                    then or_else (json_string api json "file") (λ s. expand s)
                        c2.device_client_log_file
                    else c2.device_client_log_file;
                sdk_logging_enabled =
                    if api.value_exists json "enable-sdk-logging"
                    then api.get_bool json "enable-sdk-logging"
                    else c2.sdk_logging_enabled;
              } in
              and_then
                (load_one (json_string api json "sdk-log-level") parse_sdk_log_level put_sdk_level
                  c3)
                (λ c4. (
                  record c4 {
                    sdk_log_file =
                        or_else (json_string api json "sdk-log-file") (λ s. expand s)
                          c4.sdk_log_file;
                  },
                  true,
                ))))

  -- LoadFromCliArgs.
  unfoldable pub load_from_cli_args : CliArgs → LogConfig → LogConfig × Bool
  load_from_cli_args args c =
      and_then (load_one (find (text "--log-level") args) parse_device_client_log_level put_level c)
        (λ c1.
          and_then
            (load_one (find (text "--log-type") args) parse_device_client_log_type put_type c1)
            (λ c2.
              let c3 = record c2 {
                device_client_log_file =
                    or_else (find (text "--log-file") args) (λ s. expand s)
                      c2.device_client_log_file;
                sdk_logging_enabled =
                    or_else (find (text "--enable-sdk-logging") args) (λ s. true)
                      c2.sdk_logging_enabled;
                sdk_log_file =
                    or_else (find (text "--sdk-log-file") args) (λ s. expand s) c2.sdk_log_file;
              } in
              load_one (find (text "--sdk-log-level") args) parse_sdk_log_level put_sdk_level c3))

-- SerializeToObject; `level_to_string` is aws_log_level_to_string of the AWS CRT.
unfoldable pub serialize_to_object :
    (SdkLogLevel → Text) → {api : JsonApi} → JsonWriter api → LogConfig → api.View
unfolding stringify_device_client_log_level
serialize_to_object level_to_string w c =
    let o0 =
      w.put w.empty "level"
        (string (stringify_device_client_log_level c.device_client_log_level)) in
    let o1 = w.put o0 "type" (string c.device_client_log_type) in
    let o2 = w.put o1 "file" (string c.device_client_log_file) in
    let o3 = w.put o2 "enable-sdk-logging" (bool c.sdk_logging_enabled) in
    let o4 = w.put o3 "sdk-log-level" (string (level_to_string c.sdk_log_level)) in
    w.put o4 "sdk-log-file" (string c.sdk_log_file)
