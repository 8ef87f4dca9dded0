-- ===== src/Config/SampleShadow.antt =====
-- config/Config.cpp: PlainConfig::SampleShadow.
use aws_iot_device_client.Base.{
  Bool, true, false, not, ◌&&◌, ◌||◌, Option, none, some, Text, text, is_empty, or_else,
  if◌then◌else◌, leb,
}
use aws_iot_device_client.Base.Json.{JsonApi, JsonWriter, bool, put_optional}
use aws_iot_device_client.Jobs.JobEngine.{until_nul}
use aws_iot_device_client.Util.FileUtils.{
  FileSystem, extract_expanded_path, is_valid_file_path, validate_file_permissions, get_file_size,
}
use aws_iot_device_client.Config.CommandLine.{CliArgs}
use aws_iot_device_client.Config.Tunneling.{is_given}
use aws_iot_device_client.Config.Json.{json_bool, cli_flag, cli_text, cli_path, json_path}

pub record SampleShadow : Type 0 where
  pub enabled : Bool
  pub shadow_name : Option Text
  pub shadow_input_file : Option Text
  pub shadow_output_file : Option Text

unfoldable pub default_sample_shadow : SampleShadow
default_sample_shadow = record {
  enabled = false;
  shadow_name = none;
  shadow_input_file = none;
  shadow_output_file = none;
}

-- What CreateDirectoryWithPermissions and StoreValueInFile answer when the default output file is
-- made. The file system is taken as it is afterwards.
pub record Creation : Type 0 where
  pub directory_created : Bool
  pub file_stored : Bool

-- createShadowOutputFile.
unfoldable pub create_shadow_output_file :
    FileSystem → Creation → SampleShadow → SampleShadow × Bool
create_shadow_output_file fs made c =
    let output_path =
      extract_expanded_path fs
        (text "~/.aws-iot-device-client/sample-shadow/default-sample-shadow-document") in
    if not made.directory_created
    then (c, false)
    else if not made.file_stored
    then (c, false)
    else if validate_file_permissions fs output_path 600 true
    then (record c { shadow_output_file = some output_path }, true)
    else (c, true)

-- LoadFromJson. The name is read whether it is there or not; GetString is empty where it is not.
unfoldable pub load_from_json :
    FileSystem → (api : JsonApi) → api.View → SampleShadow → SampleShadow
load_from_json fs api json c =
    let enabled = json_bool api json "enabled" c.enabled in
    if enabled
    then record {
      enabled = enabled;
      shadow_name =
          if not (is_empty (api.get_string json "shadow-name"))
          then some (until_nul (api.get_string json "shadow-name"))
          else c.shadow_name;
      shadow_input_file = json_path fs api json "shadow-input-file" c.shadow_input_file;
      shadow_output_file = json_path fs api json "shadow-output-file" c.shadow_output_file;
    }
    else record c { enabled = enabled }

-- LoadFromCliArgs.
unfoldable pub load_from_cli_args :
    FileSystem → Creation → CliArgs → SampleShadow → SampleShadow × Bool
unfolding create_shadow_output_file
load_from_cli_args fs made args c =
    let d = record c {
      enabled = cli_flag args "--enable-sample-shadow" c.enabled;
      shadow_name = cli_text args "--shadow-name" c.shadow_name;
      shadow_input_file = cli_path fs args "--shadow-input-file" c.shadow_input_file;
      shadow_output_file = cli_path fs args "--shadow-output-file" c.shadow_output_file;
    } in
    if is_given d.shadow_output_file then (d, true) else create_shadow_output_file fs made d

-- A file that is named is there, with the permissions of SAMPLE_SHADOW_FILES.
abbrev pub usable : FileSystem → Text → Bool
usable fs path = is_valid_file_path fs path && validate_file_permissions fs path 600 true

-- Validate; MAXIMUM_SHADOW_INPUT_FILE_SIZE is 8 * 1024.
unfoldable pub validate : FileSystem → SampleShadow → Bool
validate fs c =
    not c.enabled
    || (is_given c.shadow_name
        && (or_else c.shadow_input_file
              (λ f. is_empty f || (usable fs f && leb (get_file_size fs f) 8192)) true
            && or_else c.shadow_output_file (λ f. is_empty f || usable fs f) true))

-- SerializeToObject.
unfoldable pub serialize_to_object : {api : JsonApi} → JsonWriter api → SampleShadow → api.View
serialize_to_object w c =
    let o0 = w.put w.empty "enabled" (bool c.enabled) in
    let o1 = put_optional w o0 "shadow-name" c.shadow_name in
    let o2 = put_optional w o1 "shadow-input-file" c.shadow_input_file in
    put_optional w o2 "shadow-output-file" c.shadow_output_file
