-- ===== src/Config/Tunneling/Loading.antt =====
-- From the settings to the feature.
use aws_iot_device_client.Base.{
  or_else, ℕ, ◌%◌, ◌^◌, ◌≡◌, ◌⊎◌, refl, true, false, [], ◌∷◌, Option, none, some, Text, is_empty,
  arith, Bool-cases, inl, inr,
}
use aws_iot_device_client.Tunneling.Context.{new_context}
use aws_iot_device_client.Tunneling.Feature.{Feature, new_feature, get_endpoint}
use aws_iot_device_client.Tunneling.Feature.Notifications.{is_valid_port}
use aws_iot_device_client.Config.Tunneling.{Tunneling, is_given, validate, load_from_config}

-- The one tunnel of a feature that does not wait for notifications.
pub record OneTunnel (t : Tunneling) (address : ℕ) (f : Feature) : Type 0 where
  pub access_token : Text
  pub region : Text
  pub port : ℕ
  pub token_set : t.destination_access_token ≡ some access_token
  pub region_set : t.region ≡ some region
  pub port_set : t.port ≡ some port
  pub token_not_empty : is_empty access_token ≡ false
  pub port_valid : is_valid_port port ≡ true
  pub only :
      f.contexts ≡ (address, new_context access_token (get_endpoint t.endpoint region) port) ∷ []

small : (port : ℕ) → is_valid_port port ≡ true → port % 2 ^ 16 ≡ port
unfolding is_valid_port
small port h = ground (arith, h)

given_value :
    (o : Option Text) → is_given o ≡ true → (s : Text) × (o ≡ some s) × (is_empty s ≡ false)
given_value none h = absurd (ground (arith, h))
given_value (some s) h = (s, refl, ground (arith, h))

valid_port :
    (o : Option ℕ)
    → or_else o (λ port. is_valid_port port) false ≡ true
    → (port : ℕ) × (o ≡ some port) × (is_valid_port port ≡ true)
valid_port none h = absurd (ground (arith, h))
valid_port (some port) h = (port, refl, h)

-- The feature that the settings of one tunnel make.
abbrev one_feature : ℕ → Tunneling → Text → Text → ℕ → Feature
one_feature address t access_token region port = record (new_feature t.endpoint) {
  subscribe_notification = t.subscribe_notification;
  contexts = (address, new_context access_token (get_endpoint t.endpoint region) port) ∷ [];
}

loads_one :
    (t : Tunneling) (address : ℕ) (access_token region : Text) (port : ℕ)
    → t.subscribe_notification ≡ false
    → t.destination_access_token ≡ some access_token
    → t.region ≡ some region
    → t.port ≡ some port
    → is_valid_port port ≡ true
    → load_from_config address t ≡ some (one_feature address t access_token region port)
unfolding load_from_config new_feature
loads_one t address access_token region port off token place door valid =
    rw (token, place, door, off, small port valid) refl

-- Settings that are enabled and valid are loaded without the use of an empty Optional: the feature
-- waits for notifications and has no tunnel, or it has one tunnel with the token, the endpoint of
-- the region and the port of the settings, where the token is not empty and the port is valid.
pub valid_loads :
    (t : Tunneling) (address : ℕ)
    → t.enabled ≡ true
    → validate t ≡ true
    → (f : Feature) × (load_from_config address t ≡ some f)
      × (f.subscribe_notification ≡ t.subscribe_notification)
      × (((t.subscribe_notification ≡ true) × (f.contexts ≡ [])) ⊎ OneTunnel t address f)
unfolding validate load_from_config new_feature
valid_loads t address on valid = elim (Bool-cases t.subscribe_notification) [
  | inl waits ↦ (
    record (new_feature t.endpoint) { subscribe_notification = t.subscribe_notification },
    rw waits refl,
    refl,
    inl (waits, refl),
  )
  | inr off ↦
      let all = rw (on, off) at valid in
      let (access_token, token, not_empty) =
        given_value t.destination_access_token (ground (arith, all)) in
      let (region, place, filled) = given_value t.region (ground (arith, all)) in
      let (port, door, in_range) = valid_port t.port (ground (arith, all)) in
      (
        one_feature address t access_token region port,
        loads_one t address access_token region port off token place door in_range,
        refl,
        inr (record {
          access_token = access_token;
          region = region;
          port = port;
          token_set = token;
          region_set = place;
          port_set = door;
          token_not_empty = not_empty;
          port_valid = in_range;
          only = refl;
        }),
      )
]
