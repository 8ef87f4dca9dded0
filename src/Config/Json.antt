-- ===== src/Config/Json.antt =====
-- What the sections of config/Config.cpp read of a JsonView and of the command line.
pub mod Laws
use Prim.Native.String.{String}
use aws_iot_device_client.Base.{
  or_else, Bool, true, false, not, ◌&&◌, ◌||◌, ◌≡◌, List, [], ◌∷◌, Option, none, some, Text, text,
  is_empty, if◌then◌else◌, text_eq,
}
use aws_iot_device_client.Base.Int.{ℤ, pos}
use aws_iot_device_client.Base.Json.{JsonApi}
use aws_iot_device_client.Jobs.JobEngine.{until_nul}
use aws_iot_device_client.Util.FileUtils.{FileSystem, extract_expanded_path}
use aws_iot_device_client.Config.CommandLine.{CliArgs, find}
use aws_iot_device_client.Config.LogConfig.{json_string}

-- A setting that is left as it is where the file does not have it.
abbrev pub json_bool : (api : JsonApi) → api.View → String → Bool → Bool
json_bool api json key old = if api.value_exists json key then api.get_bool json key else old

abbrev pub json_integer : (api : JsonApi) → api.View → String → ℤ → ℤ
json_integer api json key old = if api.value_exists json key then api.get_integer json key else old

abbrev pub json_int64 : (api : JsonApi) → api.View → String → ℤ → ℤ
json_int64 api json key old = if api.value_exists json key then api.get_int64 json key else old

-- A string of the file, also an empty one.
abbrev pub json_text : (api : JsonApi) → api.View → String → Option Text → Option Text
json_text api json key old =
    if api.value_exists json key then some (until_nul (api.get_string json key)) else old

-- An optional setting that is overwritten by a value, if there is one.
abbrev pub or_old {ℓ} : {A : Type ℓ} → Option A → Option A → Option A
or_old none old = old
or_old (some a) old = some a

-- A flag of the command line, which is true for the value true; a std::string that was given.
abbrev pub cli_flag : CliArgs → String → Bool → Bool
cli_flag args flag old = or_else (find (text flag) args) (λ v. text_eq v (text "true")) old

abbrev pub cli_text : CliArgs → String → Option Text → Option Text
cli_text args flag old = or_old (find (text flag) args) old

-- The path of a file, expanded, that was given.
abbrev pub expanded : FileSystem → Option Text → Option Text
expanded fs given = or_else given (λ s. some (extract_expanded_path fs s)) none

abbrev pub cli_path : FileSystem → CliArgs → String → Option Text → Option Text
cli_path fs args flag old = or_old (expanded fs (find (text flag) args)) old

abbrev pub json_path : FileSystem → (api : JsonApi) → api.View → String → Option Text → Option Text
json_path fs api json key old = or_old (expanded fs (json_string api json key)) old
