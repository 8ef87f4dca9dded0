-- ===== src/Config/Tunneling.antt =====
-- config/Config.cpp: PlainConfig::Tunneling, the settings of the secure tunnels, and what
-- SecureTunnelingFeature::LoadFromConfig makes of them. A port is an int that is not negative, as
-- GetPortFromService returns it.
pub mod Loading
use aws_iot_device_client.Base.{
  or_else, ℕ, ◌%◌, ◌^◌, Bool, true, false, not, ◌&&◌, ◌||◌, List, [], ◌∷◌, Option, none, some, Text,
  text, is_empty, if◌then◌else◌, text_eq,
}
use aws_iot_device_client.Base.Json.{JsonApi, JsonWriter, JsonItem, bool}
use aws_iot_device_client.Jobs.JobEngine.{until_nul}
use aws_iot_device_client.Config.CommandLine.{CliArgs, find}
use aws_iot_device_client.Tunneling.Context.{Context}
use aws_iot_device_client.Tunneling.Feature.{Feature, new_feature, create_context}
use aws_iot_device_client.Tunneling.Feature.Notifications.{get_port_from_service, is_valid_port}

pub record Tunneling : Type 0 where
  pub enabled : Bool
  pub subscribe_notification : Bool
  pub destination_access_token : Option Text
  pub region : Option Text
  pub port : Option ℕ
  pub endpoint : Option Text

-- The members' initial values.
unfoldable pub default_tunneling : Tunneling
default_tunneling = record {
  enabled = true;
  subscribe_notification = true;
  destination_access_token = none;
  region = none;
  port = none;
  endpoint = none;
}

-- LoadFromJson.
unfoldable pub load_from_json : (api : JsonApi) → api.View → Tunneling → Tunneling
load_from_json api json t = record t {
  enabled = if api.value_exists json "enabled" then api.get_bool json "enabled" else t.enabled;
  endpoint =
      if api.value_exists json "endpoint"
      then some (until_nul (api.get_string json "endpoint"))
      else t.endpoint;
}

-- LoadFromCliArgs.
unfoldable pub load_from_cli_args : CliArgs → Tunneling → Tunneling
load_from_cli_args args t = record t {
  enabled =
      or_else (find (text "--enable-tunneling") args) (λ v. text_eq v (text "true")) t.enabled;
  subscribe_notification =
      or_else (find (text "--tunneling-disable-notification") args) (λ v. false)
        t.subscribe_notification;
  region = or_else (find (text "--tunneling-region") args) (λ v. some v) t.region;
  port =
      or_else (find (text "--tunneling-service") args) (λ v. some (get_port_from_service v)) t.port;
}

-- LoadFromEnvironment, with the value of AWSIOT_TUNNEL_ACCESS_TOKEN.
unfoldable pub load_from_environment : Option Text → Tunneling → Tunneling
load_from_environment variable t = record t {
  destination_access_token = or_else variable (λ v. some v) t.destination_access_token;
}

abbrev pub is_given : Option Text → Bool
is_given none = false
is_given (some s) = not (is_empty s)

-- Validate.
unfoldable pub validate : Tunneling → Bool
validate t =
    if not t.enabled
    then true
    else if t.subscribe_notification
    then true
    else is_given t.destination_access_token
      && (is_given t.region && or_else t.port (λ port. is_valid_port port) false)

-- SerializeToObject.
unfoldable pub serialize_to_object : {api : JsonApi} → JsonWriter api → Tunneling → api.View
serialize_to_object w t = w.put w.empty "enabled" (bool t.enabled)

-- The tunnel of SecureTunnelingFeature::LoadFromConfig; none is the use of an empty Optional.
abbrev pub configured : Option Text → Option Text → Option ℕ → ℕ → Feature → Option Feature
configured (some access_token) (some region) (some port) address f =
    some
      (record f { contexts = (address, create_context f access_token region (port % 2 ^ 16)) ∷ [] })
configured _ _ _ address f = none

-- The part of SecureTunnelingFeature::LoadFromConfig that is about the tunnels, on a new feature.
unfoldable pub load_from_config : ℕ → Tunneling → Option Feature
load_from_config address t =
    let f = record (new_feature t.endpoint) { subscribe_notification = t.subscribe_notification } in
    if not t.subscribe_notification
    then configured t.destination_access_token t.region t.port address f
    else some f
