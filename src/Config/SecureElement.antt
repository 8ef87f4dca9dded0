-- ===== src/Config/SecureElement.antt =====
-- config/Config.cpp: PlainConfig::SecureElement. `stoul` is that of the C++ library, none where it
-- throws: the exception leaves the load, and Config::init returns false.
use aws_iot_device_client.Base.{
  ℕ, ◌+◌, ◌-◌, ◌^◌, Bool, true, false, not, ◌&&◌, ◌||◌, Option, none, some, Text, text, or_else,
  if◌then◌else◌, ltb,
}
use aws_iot_device_client.Base.Int.{ℤ, pos, negsuc, is_zero}
use aws_iot_device_client.Base.Json.{JsonApi, JsonWriter, bool, int64, put_optional}
use aws_iot_device_client.Util.FileUtils.{FileSystem}
use aws_iot_device_client.Config.CommandLine.{CliArgs, find}
use aws_iot_device_client.Config.LogConfig.{json_string}
use aws_iot_device_client.Config.Tunneling.{is_given}
use aws_iot_device_client.Config.Json.{json_bool, cli_flag, cli_text, cli_path, json_path, or_old}

pub record SecureElement : Type 0 where
  pub enabled : Bool
  pub pkcs11_lib : Option Text
  pub secure_element_pin : Option Text
  pub secure_element_key_label : Option Text
  pub secure_element_slot_id : Option ℕ
  pub secure_element_token_label : Option Text

unfoldable pub default_secure_element : SecureElement
default_secure_element = record {
  enabled = false;
  pkcs11_lib = none;
  secure_element_pin = none;
  secure_element_key_label = none;
  secure_element_slot_id = none;
  secure_element_token_label = none;
}

-- The conversions between int64_t and uint64_t.
unfoldable pub to_unsigned : ℤ → ℕ
to_unsigned (pos n) = n
to_unsigned (negsuc n) = 2 ^ 64 - (n + 1)

unfoldable pub to_signed : ℕ → ℤ
to_signed n = if ltb n (2 ^ 63) then pos n else negsuc (2 ^ 64 - (n + 1))

-- The slot of the file; 0 counts as an empty value.
abbrev pub json_slot : (api : JsonApi) → api.View → Option ℕ → Option ℕ
json_slot api json old =
    if api.value_exists json "secure-element-slot-id"
      && not (is_zero (api.get_int64 json "secure-element-slot-id"))
    then some (to_unsigned (api.get_int64 json "secure-element-slot-id"))
    else old

-- LoadFromJson.
unfoldable pub load_from_json :
    FileSystem → (api : JsonApi) → api.View → SecureElement → SecureElement
unfolding to_unsigned
load_from_json fs api json c =
    let enabled = json_bool api json "enabled" c.enabled in
    if enabled
    then record {
      enabled = enabled;
      pkcs11_lib = json_path fs api json "pkcs11-lib" c.pkcs11_lib;
      secure_element_pin = or_old (json_string api json "secure-element-pin") c.secure_element_pin;
      secure_element_key_label =
          or_old (json_string api json "secure-element-key-label") c.secure_element_key_label;
      secure_element_slot_id = json_slot api json c.secure_element_slot_id;
      secure_element_token_label =
          or_old (json_string api json "secure-element-token-label") c.secure_element_token_label;
    }
    else record c { enabled = enabled }

-- LoadFromCliArgs.
unfoldable pub load_from_cli_args :
    (Text → Option ℕ) → FileSystem → CliArgs → SecureElement → SecureElement × Bool
load_from_cli_args stoul fs args c =
    let d = record c {
      enabled = cli_flag args "--enable-secure-element" c.enabled;
      pkcs11_lib = cli_path fs args "--pkcs11-lib" c.pkcs11_lib;
      secure_element_pin = cli_text args "--secure-element-pin" c.secure_element_pin;
      secure_element_key_label =
          cli_text args "--secure-element-key-label" c.secure_element_key_label;
    } in
    let e = record d {
      secure_element_token_label =
          cli_text args "--secure-element-token-label" c.secure_element_token_label;
    } in
    or_else (find (text "--secure-element-slot-id") args)
      (λ s.
        or_else (stoul s) (λ n. (record e { secure_element_slot_id = some n }, true)) (d, false))
      (e, true)

-- Validate.
unfoldable pub validate : SecureElement → Bool
validate c = not c.enabled || (is_given c.pkcs11_lib && is_given c.secure_element_pin)

-- The slot that is written, if there is one.
abbrev pub put_slot : {api : JsonApi} → JsonWriter api → api.View → Option ℕ → api.View
put_slot w o none = o
put_slot w o (some n) = w.put o "secure-element-slot-id" (int64 (to_signed n))

-- SerializeToObject.
unfoldable pub serialize_to_object : {api : JsonApi} → JsonWriter api → SecureElement → api.View
serialize_to_object w c =
    let o0 = w.put w.empty "enabled" (bool c.enabled) in
    let o1 = put_optional w o0 "pkcs11-lib" c.pkcs11_lib in
    let o2 = put_optional w o1 "secure-element-pin" c.secure_element_pin in
    let o3 = put_optional w o2 "secure-element-key-label" c.secure_element_key_label in
    let o4 = put_slot w o3 c.secure_element_slot_id in
    put_optional w o4 "secure-element-token-label" c.secure_element_token_label
