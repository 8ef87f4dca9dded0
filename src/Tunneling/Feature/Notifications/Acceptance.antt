-- ===== src/Tunneling/Feature/Notifications/Acceptance.antt =====
-- Which notifications ask for a tunnel.
use aws_iot_device_client.Base.{
  ℕ, ◌≡◌, ◌≢◌, ◌↔◌, refl, sym, ap, subst, true, false, List, [], ◌∷◌, Option, none, some, Text,
  text, is_empty, text_eq, text_eq_iff, Bool-cases, Option-cases, inl, inr, arith,
}
use aws_iot_device_client.Base.Int.{ℤ, is_zero}
use aws_iot_device_client.Jobs.JobEngine.{until_nul}
use aws_iot_device_client.Tunneling.Context.{NotifyResponse}
use aws_iot_device_client.Tunneling.Feature.Notifications.{
  accepted, get_port_from_service, is_valid_port, c_str, single, checked_port, checked,
  read_response,
}

-- A string that a response has, up to its first NUL.
pub record Given (field : Option Text) (value : Text) : Type 0 where
  pub whole : Text
  pub present : field ≡ some whole
  pub not_empty : whole ≢ []
  pub read : until_nul whole ≡ value

-- The services that are supported.
pub data Service : Text → ℕ → Type 0 where
  ssh : Service (text "SSH") 22
  vnc : Service (text "VNC") 5900

-- A response that asks for a tunnel.
pub record Asks (io_err : ℤ) (r : NotifyResponse) (access_token region : Text) (port : ℕ)
    : Type 0 where
  pub no_error : is_zero io_err ≡ true
  pub mode : Text
  pub has_mode : r.client_mode ≡ some mode
  pub destination : until_nul mode ≡ text "destination"
  pub service : Text
  pub one_service : r.services ≡ some (service ∷ [])
  pub supported : Service (until_nul service) port
  pub token_given : Given r.client_access_token access_token
  pub region_given : Given r.region region

c_str-Given : (field : Option Text) (value : Text) → c_str field ≡ some value → Given field value
c_str-Given none value h = absurd (ground (arith, h))
c_str-Given (some []) value h = absurd (ground (arith, h))
c_str-Given (some (c ∷ s)) value h = record {
  whole = c ∷ s;
  present = refl;
  not_empty = λ e. absurd (ground (arith, e));
  read = ground (arith, h);
}

not_empty_false : (s : Text) → s ≢ [] → is_empty s ≡ false
not_empty_false [] h = absurd (h refl)
not_empty_false (c ∷ s) h = refl

Given-c_str : (field : Option Text) (value : Text) → Given field value → c_str field ≡ some value
Given-c_str field value g = rw (g.present, not_empty_false g.whole g.not_empty) (ap some g.read)

port-Service :
    (service : Text)
    → is_valid_port (get_port_from_service service) ≡ true
    → Service service (get_port_from_service service)
unfolding is_valid_port get_port_from_service
port-Service service v = elim (Bool-cases (text_eq service (text "SSH"))) [
  | inl is_ssh ↦
      rw is_ssh (subst (λ s. Service s 22) (sym ((text_eq_iff service (text "SSH")).0 is_ssh)) ssh)
  | inr other ↦ elim (Bool-cases (text_eq service (text "VNC"))) [
    | inl is_vnc ↦
        rw (other, is_vnc)
          (subst (λ s. Service s 5900) (sym ((text_eq_iff service (text "VNC")).0 is_vnc)) vnc)
    | inr neither ↦ absurd (ground (arith, v, other, neither))
  ]
]

Service-port :
    (service : Text) (port : ℕ)
    → Service service port
    → (get_port_from_service service ≡ port) × (is_valid_port port ≡ true)
unfolding is_valid_port get_port_from_service
Service-port _ _ ssh = (refl, refl)
Service-port _ _ vnc = (refl, refl)

checked_port-Service :
    (access_token region service t g : Text) (port : ℕ)
    → checked_port access_token region service ≡ accepted t g port
    → (access_token ≡ t) × (region ≡ g) × Service service port
checked_port-Service access_token region service t g port h =
    elim (Bool-cases (is_valid_port (get_port_from_service service))) [
      | inl valid ↦
          let e = rw valid at h in
          (cc e, cc e, subst (Service service) (cc e) (port-Service service valid))
      | inr not_valid ↦ absurd (ground (arith, h, not_valid))
    ]

Service-checked_port :
    (access_token region service : Text) (port : ℕ)
    → Service service port
    → checked_port access_token region service ≡ accepted access_token region port
Service-checked_port access_token region service port s =
    let (e, valid) = Service-port service port s in rw (e, valid) refl

checked-Given :
    (service token region : Option Text) (t g : Text) (port : ℕ)
    → checked service token region ≡ accepted t g port
    → (s : Text) × (service ≡ some s) × (token ≡ some t) × (region ≡ some g) × Service s port
checked-Given (some s) (some token) (some region) t g port h =
    let (e, f, k) = checked_port-Service token region s t g port h in
    (s, refl, ap some e, ap some f, k)
checked-Given none token region t g port h = absurd (ground (arith, h))
checked-Given (some s) none region t g port h = absurd (ground (arith, h))
checked-Given (some s) (some token) none t g port h = absurd (ground (arith, h))

single-one :
    (services : Option (List Text)) (s : Text)
    → single services ≡ some s
    → (service : Text) × (services ≡ some (service ∷ [])) × (until_nul service ≡ s)
single-one (some (service ∷ [])) s h = (service, refl, ground (arith, h))
single-one none s h = absurd (ground (arith, h))
single-one (some []) s h = absurd (ground (arith, h))
single-one (some (a ∷ b ∷ l)) s h = absurd (ground (arith, h))

checked-Asks :
    (io_err : ℤ) (r : NotifyResponse) (mode t g : Text) (port : ℕ)
    → is_zero io_err ≡ true
    → r.client_mode ≡ some mode
    → text_eq (until_nul mode) (text "destination") ≡ true
    → checked (single r.services) (c_str r.client_access_token) (c_str r.region) ≡ accepted t g port
    → Asks io_err r t g port
checked-Asks io_err r mode t g port z e d h =
    let (s, one, token, region, k) =
      checked-Given (single r.services) (c_str r.client_access_token) (c_str r.region) t g port h in
    let (service, only, named) = single-one r.services s one in
    record {
      no_error = z;
      mode = mode;
      has_mode = e;
      destination = (text_eq_iff (until_nul mode) (text "destination")).0 d;
      service = service;
      one_service = only;
      supported = subst (λ x. Service x port) (sym named) k;
      token_given = c_str-Given r.client_access_token t token;
      region_given = c_str-Given r.region g region;
    }

-- A notification asks for a tunnel with this token, this region and this port exactly when it
-- comes without an error for the client mode "destination", names one service, which is SSH with
-- port 22 or VNC with port 5900, and has an access token and a region that are not empty; each
-- string counts up to its first NUL.
pub read_response_iff :
    (io_err : ℤ) (r : NotifyResponse) (access_token region : Text) (port : ℕ)
    → (read_response io_err (some r) ≡ accepted access_token region port)
      ↔ Asks io_err r access_token region port
unfolding read_response
read_response_iff io_err r access_token region port = (
  λ h. elim (Bool-cases (is_zero io_err)) [
    | inl z ↦ elim (Option-cases r.client_mode) [
      | inl e ↦ absurd (ground (arith, rw (z, e) at h))
      | inr (mode, e) ↦ elim (Bool-cases (text_eq (until_nul mode) (text "destination"))) [
        | inl d ↦ checked-Asks io_err r mode access_token region port z e d (rw (z, e, d) at h)
        | inr other ↦ absurd (ground (arith, rw (z, e, other) at h))
      ]
    ]
    | inr failed ↦ absurd (ground (arith, rw failed at h))
  ],
  λ a.
      rw
        (
          a.no_error,
          a.has_mode,
          (text_eq_iff (until_nul a.mode) (text "destination")).1 a.destination,
          a.one_service,
          Given-c_str r.client_access_token access_token a.token_given,
          Given-c_str r.region region a.region_given,
        )
        (Service-checked_port access_token region (until_nul a.service) port a.supported),
)
