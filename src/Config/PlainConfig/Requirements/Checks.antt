-- ===== src/Config/PlainConfig/Requirements/Checks.antt =====
-- The checks of Validate, and the requirements that they test.
use aws_iot_device_client.Base.{
  ℕ, zero, suc, ◌≡◌, ◌≢◌, ◌⊎◌, ◌↔◌, refl, inl, inr, arith, Bool, true, false, not, ◌&&◌, ◌||◌,
  Option, none, some, Bool-cases, Text, is_empty, or_else, leb, [], ◌∷◌, if◌then◌else◌,
}
use aws_iot_device_client.Base.Int.{ℤ, pos, negsuc, ◌≤?ℤ◌}
use aws_iot_device_client.Util.FileUtils.{
  FileSystem, validate_file_permissions, get_file_size, is_valid_file_path, file_exists,
  extract_parent_directory,
}
use aws_iot_device_client.Util.FileUtils.Permissions.{Permitted, validate_file_permissions_iff}
use aws_iot_device_client.Config.Requirements.{both, AtLeast}
use aws_iot_device_client.Config.Tunneling.{is_given}
use aws_iot_device_client.Config.Tunneling as Tunneling
use aws_iot_device_client.Tunneling.Feature.Notifications.{is_valid_port}
use aws_iot_device_client.Config.FleetProvisioning.{found}
use aws_iot_device_client.Config.SampleShadow.{usable}
use aws_iot_device_client.Config.PlainConfig.Checking.{mqtt_valid, root_ca_valid, file_given}
use aws_iot_device_client.Config.PlainConfig.Requirements.{
  MqttFits, Filled, FileGiven, Found, RootCaFits, Usable, InputFits, OutputFits, OffOr, PortFits,
  TunnelingFits,
}

pub mqtt_iff : (seconds ms : ℕ) → (mqtt_valid seconds ms ≡ true) ↔ MqttFits seconds ms
unfolding mqtt_valid
mqtt_iff zero ms = (λ h. (inl refl, ground (arith, h)), λ (a, b). ground (arith, b))
mqtt_iff (suc n) ms = (
  λ h. (inr (ground (arith, h)), ground (arith, h)),
  λ (a, b). elim a [ inl e ↦ absurd (ground (arith, e)) | inr r ↦ ground (arith, r, b) ],
)

pub Filled-iff : (s : Option Text) → (is_given s ≡ true) ↔ Filled s
Filled-iff none = (λ h. cc, λ h. absurd h)
Filled-iff (some s) = ground arith

pub off_or_iff :
    (enabled valid : Bool) {P : Type 0}
    → (valid ≡ true) ↔ P
    → ((not enabled || valid) ≡ true) ↔ OffOr enabled P
off_or_iff false valid p = (λ h. inl refl, λ h. refl)
off_or_iff true valid p = (λ h. inr (p.0 h), λ h. elim h [ inl off ↦ absurd (cc) | inr v ↦ p.1 v ])

pub empty_or_iff :
    (s : Text) (valid : Bool) {P : Type 0}
    → (valid ≡ true) ↔ P
    → ((is_empty s || valid) ≡ true) ↔ ((is_empty s ≡ true) ⊎ P)
empty_or_iff [] valid p = (λ h. inl refl, λ h. refl)
empty_or_iff (c ∷ s) valid p =
    (λ h. inr (p.0 h), λ h. elim h [ inl off ↦ absurd (cc) | inr v ↦ p.1 v ])

pub interval_iff : (n : ℤ) → (not (n ≤?ℤ pos 0) ≡ true) ↔ AtLeast 1 n
interval_iff (pos n) = ground arith
interval_iff (negsuc n) = (λ h. absurd (ground (arith, h)), λ h. absurd h)

module _ (fs : FileSystem) where
  Permitted-iff :
      (s : Text) (permissions : ℕ)
      → permissions ≢ 0
      → (validate_file_permissions fs s permissions true ≡ true) ↔ Permitted fs s permissions true
  Permitted-iff s permissions given = validate_file_permissions_iff fs s permissions true given

  pub file_given_iff : (o : Option Text) → (file_given fs o ≡ true) ↔ FileGiven fs o
  file_given_iff none = (λ h. cc, λ h. absurd h)
  file_given_iff (some s) = ground arith

  pub found_iff : (o : Option Text) → (found fs o ≡ true) ↔ Found fs o
  found_iff none = (λ h. tt, λ h. refl)
  found_iff (some s) = empty_or_iff s (is_valid_file_path fs s) (λ h. h, λ h. h)

  usable_iff : (s : Text) → (usable fs s ≡ true) ↔ Usable fs s
  usable_iff s = both _ _ (λ h. h, λ h. h) (Permitted-iff s 600 (λ e. omega (arith, e)))

  pub input_iff :
      (o : Option Text)
      → (or_else o (λ f. is_empty f || (usable fs f && leb (get_file_size fs f) 8192)) true ≡ true)
        ↔ InputFits fs o
  input_iff none = (λ h. tt, λ h. refl)
  input_iff (some s) =
      empty_or_iff s _ (both _ _ (usable_iff s) (λ h. ground (arith, h), λ h. ground (arith, h)))

  pub output_iff :
      (o : Option Text) → (or_else o (λ f. is_empty f || usable fs f) true ≡ true) ↔ OutputFits fs o
  output_iff none = (λ h. tt, λ h. refl)
  output_iff (some s) = empty_or_iff s _ (usable_iff s)

  pub root_ca_iff : (o : Option Text) → (root_ca_valid fs o ≡ true) ↔ RootCaFits fs o
  unfolding root_ca_valid
  root_ca_iff none = (λ h. tt, λ h. refl)
  root_ca_iff (some s) =
      let permitted =
        both _ _ (Permitted-iff (extract_parent_directory s) 700 (λ e. omega (arith, e)))
          (Permitted-iff s 644 (λ e. omega (arith, e))) in
      elim (Bool-cases (is_empty s)) [
        | inl e ↦ (λ h. inl (inl e), λ h. rw e refl)
        | inr f ↦ elim (Bool-cases (file_exists fs s)) [
          | inr gone ↦ (λ h. inl (inr gone), λ h. rw (f, gone) refl)
          | inl there ↦ (
            λ h. inr (permitted.0 (rw (f, there) at h)),
            λ h. elim h [
              | inl no_file ↦ absurd (ground (arith, no_file, f, there))
              | inr p ↦ rw (f, there) (permitted.1 p)
            ],
          )
        ]
      ]

pub key_iff :
    (enabled given : Bool) {P : Type 0}
    → (given ≡ true) ↔ P
    → ((enabled || given) ≡ true) ↔ ((enabled ≡ true) ⊎ P)
key_iff true given p = (λ h. inl refl, λ h. refl)
key_iff false given p = (λ h. inr (p.0 h), λ h. elim h [ inl on ↦ absurd (cc) | inr v ↦ p.1 v ])

port_iff : (o : Option ℕ) → (or_else o (λ port. is_valid_port port) false ≡ true) ↔ PortFits o
unfolding is_valid_port
port_iff none = (λ h. cc, λ h. absurd h)
port_iff (some port) = ground arith

gate_iff :
    (enabled waits valid : Bool) {P : Type 0}
    → (valid ≡ true) ↔ P
    → ((if not enabled then true else if waits then true else valid) ≡ true)
      ↔ OffOr enabled ((waits ≡ true) ⊎ P)
gate_iff false waits valid p = (λ h. inl refl, λ h. refl)
gate_iff true true valid p = off_or_iff true true (key_iff true valid p)
gate_iff true false valid p = off_or_iff true valid (key_iff false valid p)

pub tunneling_iff : (t : Tunneling.Tunneling) → (Tunneling.validate t ≡ true) ↔ TunnelingFits t
unfolding Tunneling.validate
tunneling_iff t = gate_iff t.enabled t.subscribe_notification _ (
    both _ _ (Filled-iff t.destination_access_token)
      (both _ _ (Filled-iff t.region) (port_iff t.port)))
