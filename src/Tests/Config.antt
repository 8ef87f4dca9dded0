-- ===== src/Tests/Config.antt =====
-- Runs of the configuration.
use aws_iot_device_client.Base.{
  ℕ, ◌≡◌, ◌⊎◌, ◌↔◌, refl, ◌||◌, Option, none, true, false, List, [], ◌∷◌, some, Text, text, text_eq,
}
use aws_iot_device_client.Base.Int.{ℤ, pos}
use aws_iot_device_client.Base.Json.{JsonApi}
use aws_iot_device_client.Config.CommandLine.{CliArgs, parse_cli_args}
use aws_iot_device_client.Config.CommandLine.Parsing.{print, IsGiven, parse_iff}
use aws_iot_device_client.Config.Tunneling.{
  Tunneling, default_tunneling, load_from_cli_args, load_from_environment, load_from_config,
  validate,
}
use aws_iot_device_client.Config.Tunneling.Loading.{OneTunnel, valid_loads}
use aws_iot_device_client.Config.HttpProxy as HttpProxy
use aws_iot_device_client.Config.HttpProxy.Options.{Usable, valid_proxy_loads}
use aws_iot_device_client.Tunneling.Feature.{Feature}
use aws_iot_device_client.Tunneling.Feature.Notifications.{get_port_from_service, is_valid_port}

abbrev command_line : List Text
command_line =
    text "--tunneling-region"
    ∷ text "eu-west-1"
    ∷ text "--tunneling-disable-notification"
    ∷ text "--tunneling-service"
    ∷ text "SSH"
    ∷ text "--log-level"
    ∷ text "Info"
    ∷ []

abbrev entries : CliArgs
entries =
    (text "--tunneling-region", text "eu-west-1")
    ∷ (text "--tunneling-disable-notification", [])
    ∷ (text "--tunneling-service", text "SSH")
    ∷ (text "--log-level", text "Info")
    ∷ []

parse_iff_example :
    ((parse_cli_args command_line).0 ≡ some entries)
    ↔ ((command_line ≡ print entries) × IsGiven [] entries)
parse_iff_example = parse_iff command_line entries

abbrev settings : Tunneling
settings =
    load_from_environment (some (text "token")) (load_from_cli_args entries default_tunneling)

settings_enabled : settings.enabled ≡ true
unfolding load_from_environment load_from_cli_args default_tunneling
settings_enabled = refl

settings_valid : validate settings ≡ true
unfolding validate load_from_environment load_from_cli_args default_tunneling get_port_from_service
    is_valid_port
settings_valid = refl

valid_loads_example :
    (f : Feature) × (load_from_config 7 settings ≡ some f)
    × (f.subscribe_notification ≡ settings.subscribe_notification)
    × (((settings.subscribe_notification ≡ true) × (f.contexts ≡ [])) ⊎ OneTunnel settings 7 f)
valid_loads_example = valid_loads settings 7 settings_enabled settings_valid

-- A file with a level and no other setting.
abbrev level_api : JsonApi
level_api = record {
  View = Text;
  value_exists = λ v key. text_eq (text key) (text "level");
  get_json_object = λ v key. v;
  is_string = λ v. true;
  is_list_type = λ v. false;
  is_integer_type = λ v. false;
  get_bool = λ v key. false;
  get_string = λ v key. v;
  get_integer = λ v key. pos 0;
  get_int64 = λ v key. pos 0;
  get_array = λ v key. [];
  as_array = λ v. [];
  as_string = λ v. v;
}

-- A file with a proxy, which asks for no authentication.
abbrev proxy_api : JsonApi
proxy_api = record level_api {
  View = Text;
  value_exists = λ v key.
      text_eq (text key) (text "http-proxy-enabled")
      || (text_eq (text key) (text "http-proxy-host")
          || text_eq (text key) (text "http-proxy-port"));
  get_bool = λ v key. true;
}

abbrev port_of : Text → Option ℤ
port_of s = some (pos 3128)

abbrev address_of : Text → Option ℕ
address_of s = some 167772161

proxy_valid :
    HttpProxy.validate address_of
      (HttpProxy.load_from_json port_of proxy_api
        (text "10.0.0.1")
        HttpProxy.default_http_proxy_config).0
    ≡ true
unfolding HttpProxy.validate HttpProxy.load_from_json HttpProxy.default_http_proxy_config
    HttpProxy.validate_host_ip_address HttpProxy.validate_port_number
    HttpProxy.is_ip_address_private
proxy_valid = refl

valid_proxy_loads_example :
    let c =
      (HttpProxy.load_from_json port_of proxy_api
        (text "10.0.0.1")
        HttpProxy.default_http_proxy_config).0 in
    ((c.http_proxy_enabled ≡ false) × (HttpProxy.proxy_options c ≡ some none))
    ⊎ ((o : HttpProxy.ProxyOptions) × (HttpProxy.proxy_options c ≡ some (some o))
        × Usable address_of o)
valid_proxy_loads_example =
    valid_proxy_loads port_of address_of proxy_api (text "10.0.0.1") proxy_valid
