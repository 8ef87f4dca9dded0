-- ===== src/Config/HttpProxy/Options.antt =====
-- From the proxy's settings to its options.
use aws_iot_device_client.Base.{
  or_else, ℕ, ◌*◌, ◌+◌, ◌/◌, ◌^◌, ◌≤◌, ◌≡◌, ◌⊎◌, refl, [], ◌∷◌, Bool, true, false, not, ◌&&◌, ◌||◌,
  Option, none, some, Text, text, if◌then◌else◌, text_eq, Bool-cases, Option-cases, inl, inr, arith,
}
use aws_iot_device_client.Base.Int.{ℤ, pos, negsuc}
use aws_iot_device_client.Base.Json.{JsonApi}
use aws_iot_device_client.Config.Tunneling.{is_given}
use aws_iot_device_client.Config.LogConfig.{json_string}
use aws_iot_device_client.Config.HttpProxy.{
  HttpProxyConfig, default_http_proxy_config, is_ip_address_private, validate_port_number,
  validate_host_ip_address, load_auth, load_port, load_from_json, validate, ProxyOptions,
  auth_options, proxy_options,
}

-- The networks 10.0.0.0/8, 172.16.0.0/12 and 192.168.0.0/16.
abbrev pub IsPrivate : ℕ → Type 0
IsPrivate ip = (ip / 2 ^ 24 ≡ 10) ⊎ (ip / 2 ^ 20 ≡ 172 * 16 + 1) ⊎ (ip / 2 ^ 16 ≡ 192 * 256 + 168)

private_lem : (ip : ℕ) → is_ip_address_private ip ≡ true → IsPrivate ip
unfolding is_ip_address_private
private_lem ip h = ground (arith, h)

-- Authentication is asked for only by a method that was given.
abbrev Consistent : HttpProxyConfig → Type 0
Consistent c = (c.http_proxy_auth_enabled && not (is_given c.proxy_auth_method)) ≡ false

method_lem :
    (given old : Option Text) (b : Bool)
    → b ≡ false
    → (or_else given (λ s. text_eq s (text "UserNameAndPassword") || b) b
        && not (is_given (or_else given (λ s. some s) old)))
      ≡ false
method_lem none old b h = ground (arith, h)
method_lem (some []) old b h = ground (arith, h)
method_lem (some (c ∷ s)) old b h = ground arith

load_auth-Consistent :
    (api : JsonApi) (json : api.View) (c : HttpProxyConfig)
    → c.http_proxy_auth_enabled ≡ false
    → Consistent (load_auth api json c)
load_auth-Consistent api json c h =
    method_lem (json_string api json "http-proxy-auth-method") c.proxy_auth_method
      c.http_proxy_auth_enabled h

loaded :
    (api : JsonApi) (json : api.View) (c : HttpProxyConfig) (given : Option Text)
    (stoi : Text → Option ℤ)
    → c.http_proxy_auth_enabled ≡ false
    → Consistent (load_port stoi api json c given).0
loaded api json c none stoi h = load_auth-Consistent api json c h
loaded api json c (some s) stoi h = elim (Option-cases (stoi s)) [
  | inl e ↦ rw e (ground (arith, h))
  | inr (n, e) ↦ rw e (load_auth-Consistent api json (record c { proxy_port = some n }) h)
]

load-Consistent :
    (stoi : Text → Option ℤ) (api : JsonApi) (json : api.View)
    → Consistent (load_from_json stoi api json default_http_proxy_config).0
unfolding load_from_json default_http_proxy_config
load-Consistent stoi api json =
    elim (Bool-cases (
      if api.value_exists json "http-proxy-enabled"
      then api.get_bool json "http-proxy-enabled"
      else false)) [
        | inl on ↦ rw on (loaded api json _ (json_string api json "http-proxy-port") stoi refl)
        | inr off ↦ rw off refl
      ]

given_value : (o : Option Text) → is_given o ≡ true → (s : Text) × (o ≡ some s)
given_value none h = absurd (ground (arith, h))
given_value (some s) h = (s, refl)

-- The options of a proxy: its address is private, its port a port.
pub record Usable (inet_pton : Text → Option ℕ) (o : ProxyOptions) : Type 0 where
  pub ip : ℕ
  pub address : inet_pton o.host_name ≡ some ip
  pub private_ip : IsPrivate ip
  pub port_number : ℕ
  pub is_port : o.port ≡ pos port_number
  pub lowest : 1 ≤ port_number
  pub highest : port_number ≤ 65535

host_lem :
    (inet_pton : Text → Option ℕ) (o : Option Text)
    → or_else o (λ host. validate_host_ip_address inet_pton host) false ≡ true
    → (host : Text) × (ip : ℕ) × (o ≡ some host) × (inet_pton host ≡ some ip) × IsPrivate ip
unfolding validate_host_ip_address
host_lem inet_pton none h = absurd (ground (arith, h))
host_lem inet_pton (some host) h = elim (Option-cases (inet_pton host)) [
  | inl e ↦ absurd (ground (arith, rw e at h))
  | inr (ip, e) ↦ (host, ip, refl, e, private_lem ip (rw e at h))
]

port_lem :
    (o : Option ℤ)
    → or_else o (λ port. validate_port_number port) false ≡ true
    → (n : ℕ) × (o ≡ some (pos n)) × (1 ≤ n) × (n ≤ 65535)
unfolding validate_port_number
port_lem none h = absurd (ground (arith, h))
port_lem (some (pos n)) h = (n, refl, ground (arith, h), ground (arith, h))
port_lem (some (negsuc n)) h = absurd (ground (arith, h))

auth_lem :
    (on : Bool) (method user password : Option Text)
    → (on && not (is_given method)) ≡ false
    → (not (is_given method)
        || (not (on && not (is_given user)) && not (on && not (is_given password))))
      ≡ true
    → (a : Option (Text × Text)) × (auth_options on user password ≡ some a)
auth_lem false method user password c h = (none, refl)
auth_lem true method user password c h =
    let (u, e) = given_value user (ground (arith, c, h)) in
    let (p, f) = given_value password (ground (arith, c, h)) in (some (u, p), rw (e, f) refl)

make_lem :
    (c : HttpProxyConfig) (host : Text) (port : ℤ) (a : Option (Text × Text))
    → c.http_proxy_enabled ≡ true
    → c.proxy_host ≡ some host
    → c.proxy_port ≡ some port
    → auth_options c.http_proxy_auth_enabled c.proxy_username c.proxy_password ≡ some a
    → proxy_options c ≡ some (some (record { host_name = host; port = port; basic_auth = a }))
unfolding proxy_options
make_lem c host port a on e f k = rw (on, e, f, k) refl

options_lem :
    (inet_pton : Text → Option ℕ) (c : HttpProxyConfig)
    → Consistent c
    → c.http_proxy_enabled ≡ true
    → validate inet_pton c ≡ true
    → (o : ProxyOptions) × (proxy_options c ≡ some (some o)) × Usable inet_pton o
unfolding validate
options_lem inet_pton c consistent on valid =
    let all = rw on at valid in
    let (host, ip, e, address, private_ip) =
      host_lem inet_pton c.proxy_host (ground (arith, all)) in
    let (n, f, low, high) = port_lem c.proxy_port (ground (arith, all)) in
    let (a, k) =
      auth_lem c.http_proxy_auth_enabled c.proxy_auth_method c.proxy_username c.proxy_password
        consistent (ground (arith, all)) in
    (
      record { host_name = host; port = pos n; basic_auth = a },
      make_lem c host (pos n) a on e f k,
      record {
        ip = ip;
        address = address;
        private_ip = private_ip;
        port_number = n;
        is_port = refl {a = pos n};
        lowest = low;
        highest = high;
      },
    )

no_proxy : (c : HttpProxyConfig) → c.http_proxy_enabled ≡ false → proxy_options c ≡ some none
unfolding proxy_options
no_proxy c off = rw off refl

-- Settings of the proxy that are loaded from its file and valid are turned into options without the
-- use of an empty Optional: there is no proxy where it is disabled, and where it is enabled its
-- address is one of a private network and its port is a port, even though Validate accepts settings
-- without an authentication method.
pub valid_proxy_loads :
    (stoi : Text → Option ℤ) (inet_pton : Text → Option ℕ) (api : JsonApi) (json : api.View)
    → validate inet_pton (load_from_json stoi api json default_http_proxy_config).0 ≡ true
    → let c = (load_from_json stoi api json default_http_proxy_config).0 in
      ((c.http_proxy_enabled ≡ false) × (proxy_options c ≡ some none))
      ⊎ ((o : ProxyOptions) × (proxy_options c ≡ some (some o)) × Usable inet_pton o)
valid_proxy_loads stoi inet_pton api json valid =
    let c = (load_from_json stoi api json default_http_proxy_config).0 in
    elim (Bool-cases c.http_proxy_enabled) [
      | inl on ↦ inr (options_lem inet_pton c (load-Consistent stoi api json) on valid)
      | inr off ↦ inl (off, no_proxy c off)
    ]
