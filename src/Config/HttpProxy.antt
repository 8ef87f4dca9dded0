-- ===== src/Config/HttpProxy.antt =====
-- config/Config.cpp: PlainConfig::HttpProxyConfig, with util/ProxyUtils.cpp, and the proxy options
-- that SecureTunnelingFeature::LoadFromConfig makes of it. `stoi` is that of the C++ library, none
-- where it throws; `inet_pton` is that of the C library with the address in host order.
pub mod Options
use Prim.Native.String.{String}
use aws_iot_device_client.Base.{
  or_else, ℕ, Bool, true, false, not, ◌&&◌, ◌||◌, Option, none, some, Text, text, if◌then◌else◌,
  text_eq, leb,
}
use aws_iot_device_client.Base.Int.{ℤ, pos, negsuc}
use aws_iot_device_client.Base.Json.{JsonApi}
use aws_iot_device_client.Util.FileUtils.{FileSystem, extract_expanded_path}
use aws_iot_device_client.Config.CommandLine.{CliArgs, find}
use aws_iot_device_client.Config.Tunneling.{is_given}
use aws_iot_device_client.Config.LogConfig.{json_string}

pub record HttpProxyConfig : Type 0 where
  pub http_proxy_enabled : Bool
  pub http_proxy_auth_enabled : Bool
  pub proxy_config_path : Option Text
  pub proxy_host : Option Text
  pub proxy_port : Option ℤ
  pub proxy_auth_method : Option Text
  pub proxy_username : Option Text
  pub proxy_password : Option Text

unfoldable pub default_http_proxy_config : HttpProxyConfig
default_http_proxy_config = record {
  http_proxy_enabled = false;
  http_proxy_auth_enabled = false;
  proxy_config_path = none;
  proxy_host = none;
  proxy_port = none;
  proxy_auth_method = none;
  proxy_username = none;
  proxy_password = none;
}

-- IsIpAddressPrivate, with the six constants of ProxyUtils.h.
unfoldable pub is_ip_address_private : ℕ → Bool
is_ip_address_private ip =
    (leb 167772160 ip && leb ip 184549375)
    || ((leb 2886729728 ip && leb ip 2887778303) || (leb 3232235520 ip && leb ip 3232301055))

-- ValidatePortNumber.
unfoldable pub validate_port_number : ℤ → Bool
validate_port_number (pos n) = leb 1 n && leb n 65535
validate_port_number (negsuc n) = false

-- ValidateHostIpAddress.
unfoldable pub validate_host_ip_address : (Text → Option ℕ) → Text → Bool
unfolding is_ip_address_private
validate_host_ip_address inet_pton address =
    or_else (inet_pton address) (λ ip. is_ip_address_private ip) false

-- LoadFromJson after the port.
abbrev pub load_auth : (api : JsonApi) → api.View → HttpProxyConfig → HttpProxyConfig
load_auth api json c =
    let method = json_string api json "http-proxy-auth-method" in
    let user = json_string api json "http-proxy-username" in
    let password = json_string api json "http-proxy-password" in
    record c {
      proxy_auth_method = or_else method (λ s. some s) c.proxy_auth_method;
      http_proxy_auth_enabled =
          or_else method (λ s. text_eq s (text "UserNameAndPassword") || c.http_proxy_auth_enabled)
            c.http_proxy_auth_enabled;
      proxy_username = or_else user (λ s. some s) c.proxy_username;
      proxy_password = or_else password (λ s. some s) c.proxy_password;
    }

-- LoadFromJson from the port on.
abbrev pub load_port :
    (Text → Option ℤ)
    → (api : JsonApi) → api.View
    → HttpProxyConfig
    → Option Text
    → HttpProxyConfig × Bool
load_port stoi api json c none = (load_auth api json c, true)
load_port stoi api json c (some s) =
    or_else (stoi s) (λ n. (load_auth api json (record c { proxy_port = some n }), true)) (c, false)

-- LoadFromJson.
unfoldable pub load_from_json :
    (Text → Option ℤ) → (api : JsonApi) → api.View → HttpProxyConfig → HttpProxyConfig × Bool
load_from_json stoi api json c =
    let enabled =
      if api.value_exists json "http-proxy-enabled"
      then api.get_bool json "http-proxy-enabled"
      else c.http_proxy_enabled in
    let d = record c {
      http_proxy_enabled = enabled;
      proxy_host = or_else (json_string api json "http-proxy-host") (λ s. some s) c.proxy_host;
    } in
    if not enabled
    then (record c { http_proxy_enabled = enabled }, true)
    else load_port stoi api json d (json_string api json "http-proxy-port")

-- LoadFromCliArgs.
unfoldable pub load_from_cli_args : FileSystem → CliArgs → HttpProxyConfig → HttpProxyConfig
load_from_cli_args fs args c = record c {
  proxy_config_path =
      or_else (find (text "--http-proxy-config") args)
        (λ path. some (extract_expanded_path fs path))
        (some (text "~/.aws-iot-device-client/http-proxy.conf"));
}

-- Validate. A missing method is logged as an error, and accepted.
unfoldable pub validate : (Text → Option ℕ) → HttpProxyConfig → Bool
unfolding validate_host_ip_address validate_port_number
validate inet_pton c =
    if not c.http_proxy_enabled
    then true
    else is_given c.proxy_host
      && (or_else c.proxy_host (λ host. validate_host_ip_address inet_pton host) false
          && (or_else c.proxy_port (λ port. validate_port_number port) false
              && (not (is_given c.proxy_auth_method)
                  || (not (c.http_proxy_auth_enabled && not (is_given c.proxy_username))
                      && not (c.http_proxy_auth_enabled && not (is_given c.proxy_password))))))

pub record ProxyOptions : Type 0 where
  pub host_name : Text
  pub port : ℤ
  pub basic_auth : Option (Text × Text)

-- The use of the Optionals; none is the use of an empty one.
abbrev pub auth_options : Bool → Option Text → Option Text → Option (Option (Text × Text))
auth_options false user password = some none
auth_options true (some user) (some password) = some (some (user, password))
auth_options true none password = none
auth_options true (some user) none = none

abbrev pub make_options :
    Option Text → Option ℤ → Option (Option (Text × Text)) → Option (Option ProxyOptions)
make_options (some host) (some port) (some auth) =
    some (some (record { host_name = host; port = port; basic_auth = auth }))
make_options _ _ _ = none

-- The proxy options of SecureTunnelingFeature::LoadFromConfig, if there is a proxy.
unfoldable pub proxy_options : HttpProxyConfig → Option (Option ProxyOptions)
proxy_options c =
    if c.http_proxy_enabled
    then make_options c.proxy_host c.proxy_port
        (auth_options c.http_proxy_auth_enabled c.proxy_username c.proxy_password)
    else some none
