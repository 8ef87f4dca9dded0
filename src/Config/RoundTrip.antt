-- ===== src/Config/RoundTrip.antt =====
-- The sections, read back from the objects that SerializeToObject writes.
pub mod Logging
use aws_iot_device_client.Base.{
  ℕ, ◌<◌, ◌≤◌, ◌^◌, ◌≡◌, ◌≢◌, ◌∙◌, sym, ap, refl, arith, Bool, true, false, not, ◌&&◌, ◌||◌, [],
  ◌∷◌, Option, none, some, Text, text, is_empty, or_else, if◌then◌else◌, Bool-cases, inl, inr, ◌⊎◌,
}
use aws_iot_device_client.Base.Int.{ℤ, pos, negsuc, is_zero}
use aws_iot_device_client.Base.Json.{JsonApi, JsonWriter, IsInt}
use aws_iot_device_client.Jobs.JobEngine.{until_nul}
use aws_iot_device_client.Util.FileUtils.{FileSystem, extract_expanded_path}
use aws_iot_device_client.Config.Json.{or_old, expanded}
use aws_iot_device_client.Config.Json.Laws.{
  Reads, filled, written, members, exists-put, exists-empty,
}
use aws_iot_device_client.Config.Tunneling as Tunneling
use aws_iot_device_client.Config.ConfigShadow as ConfigShadow
use aws_iot_device_client.Config.Jobs as Jobs
use aws_iot_device_client.Config.DeviceDefender as DeviceDefender
use aws_iot_device_client.Config.FleetProvisioning as FleetProvisioning
use aws_iot_device_client.Config.FleetProvisioning.Runtime as Runtime
use aws_iot_device_client.Config.PubSub as PubSub
use aws_iot_device_client.Config.SampleShadow as SampleShadow
use aws_iot_device_client.Config.SecureElement as SecureElement
use aws_iot_device_client.Config.SecureElement.{to_signed, to_unsigned}

-- A path that is expanded, and holds no NUL.
abbrev pub Kept : FileSystem → Text → Type 0
Kept fs s = (until_nul s ≡ s) × (extract_expanded_path fs s ≡ s)

abbrev pub ReadsPath : FileSystem → Option Text → Type 0
ReadsPath fs none = Unit {0}
ReadsPath fs (some s) = (is_empty s ≡ false) × Kept fs s

-- The settings of a feature are written always, and read only where it is enabled.
abbrev pub IfEnabled : Bool → Type 0 → Option Text → Type 0
IfEnabled true P o = P
IfEnabled false P o = o ≡ none

module _ (fs : FileSystem) where
  Kept-text : (s : Text) → Kept fs s → or_else (filled s) (λ t. extract_expanded_path fs t) [] ≡ s
  Kept-text [] kept = refl
  Kept-text (c ∷ s) kept = rw (kept.0) (kept.1)

  pub reads_path :
      (o : Option Text) → ReadsPath fs o → or_old (expanded fs (or_else o filled none)) none ≡ o
  reads_path none h = refl
  reads_path (some s) (full, kept) = rw (full, kept.0) (ap (λ t. some t) (kept.1))

pub reads : (o : Option Text) → Reads o → or_old (or_else o filled none) none ≡ o
reads none h = refl
reads (some s) h = rw (h.0, h.1) refl

-- A text without NUL, which may be empty.
abbrev pub NoNul : Option Text → Type 0
NoNul none = Unit {0}
NoNul (some s) = until_nul s ≡ s

pub reads_text : (o : Option Text) → NoNul o → or_else o (λ s. some (until_nul s)) none ≡ o
reads_text none h = refl
reads_text (some s) h = ap (λ t. some t) h

Reads-name :
    (o : Option Text)
    → Reads o
    → (if not (is_empty (or_else o (λ s. s) []))
        then some (until_nul (or_else o (λ s. s) []))
        else none)
      ≡ o
Reads-name none h = refl
Reads-name (some s) h = rw (h.0, h.1) refl

-- A slot that is not 0 and is exact as a double, and is written only if the element is enabled.
abbrev pub SlotReads : Bool → Option ℕ → Type 0
SlotReads enabled none = Unit {0}
SlotReads true (some n) = (0 < n) × (n ≤ 2 ^ 53)
SlotReads false (some n) = ⊥

pub to_unsigned-to_signed : (n : ℕ) → n < 2 ^ 64 → to_unsigned (to_signed n) ≡ n
unfolding to_signed to_unsigned
to_unsigned-to_signed n h = ground (arith, h)

to_signed_small : (n : ℕ) → n ≤ 2 ^ 53 → to_signed n ≡ pos n
unfolding to_signed
to_signed_small n h = ground (arith, h)

slot_nonzero : (n : ℕ) → 0 < n → is_zero (pos n) ≡ false
slot_nonzero n h = ground (arith, h)

slot_exact :
    {api : JsonApi} (w : JsonWriter api) (n : ℕ) → n ≤ 2 ^ 53 → w.to_int64 (to_signed n) ≡ pos n
slot_exact w n h = rw (to_signed_small n h) (w.int64_exact (pos n) h)

module _ (fs : FileSystem) {api : JsonApi} (w : JsonWriter api) where
  pub jobs_round :
      (c : Jobs.Jobs)
      → Kept fs c.handler_dir
      → Jobs.load_from_json fs api (Jobs.serialize_to_object w c) Jobs.default_jobs ≡ c
  unfolding Jobs.load_from_json Jobs.serialize_to_object Jobs.default_jobs
  jobs_round c kept =
      simp written (ap (λ t. record c { handler_dir = t }) (Kept-text fs c.handler_dir kept))

  pub device_defender_round :
      (c : DeviceDefender.DeviceDefender)
      → IsInt c.interval
      → DeviceDefender.load_from_json api
          (DeviceDefender.serialize_to_object w c)
          DeviceDefender.default_device_defender
        ≡ c
  unfolding DeviceDefender.load_from_json DeviceDefender.serialize_to_object
      DeviceDefender.default_device_defender
  device_defender_round c h = simp written (rw (w.int_exact c.interval h) refl)

  pub fleet_round_of :
      (enabled : Bool) (name parameters csr key : Option Text)
      → IfEnabled enabled (Reads name) name
      → IfEnabled enabled (Reads parameters) parameters
      → IfEnabled enabled (ReadsPath fs csr) csr
      → IfEnabled enabled (ReadsPath fs key) key
      → let c : FleetProvisioning.FleetProvisioning = record {
        enabled = enabled;
        template_name = name;
        template_parameters = parameters;
        csr_file = csr;
        device_key = key;
      } in
        FleetProvisioning.load_from_json fs api
          (FleetProvisioning.serialize_to_object w c)
          FleetProvisioning.default_fleet_provisioning
        ≡ c
  unfolding FleetProvisioning.load_from_json FleetProvisioning.serialize_to_object
      FleetProvisioning.default_fleet_provisioning
  fleet_round_of true name parameters csr key n p f k =
      simp written
        (rw (reads name n, reads parameters p, reads_path fs csr f, reads_path fs key k) refl)
  fleet_round_of false name parameters csr key n p f k = simp written (rw (n, p, f, k) refl)

  pub runtime_round_of :
      (completed : Bool) (cert key name : Option Text)
      → IfEnabled completed (ReadsPath fs cert) cert
      → IfEnabled completed (ReadsPath fs key) key
      → IfEnabled completed (NoNul name) name
      → let c : Runtime.RuntimeConfig = record {
        completed_fleet_provisioning = completed;
        cert = cert;
        key = key;
        thing_name = name;
      } in
        Runtime.load_from_json fs api
          (Runtime.serialize_to_object w c)
          Runtime.default_runtime_config
        ≡ c
  unfolding Runtime.load_from_json Runtime.serialize_to_object Runtime.default_runtime_config
  runtime_round_of true cert key name c k n =
      simp written (rw (reads_path fs cert c, reads_path fs key k, reads_text name n) refl)
  runtime_round_of false cert key name c k n = simp written (rw (c, k, n) refl)

  pub_sub_round_of :
      (enabled : Bool) (topic file subscribed into : Option Text)
      → IfEnabled enabled (Reads topic) topic
      → IfEnabled enabled (Reads file) file
      → IfEnabled enabled (Reads subscribed) subscribed
      → IfEnabled enabled (ReadsPath fs into) into
      → let c : PubSub.PubSub = record {
        enabled = enabled;
        publish_topic = topic;
        publish_file = file;
        subscribe_topic = subscribed;
        subscribe_file = into;
        publish_on_change = false;
      } in
        PubSub.load_from_json fs api (PubSub.serialize_to_object w c) PubSub.default_pub_sub ≡ c
  unfolding PubSub.load_from_json PubSub.serialize_to_object PubSub.default_pub_sub
  pub_sub_round_of true topic file subscribed into t f s i =
      simp written (rw (reads topic t, reads file f, reads subscribed s, reads_path fs into i) refl)
  pub_sub_round_of false topic file subscribed into t f s i = simp written (rw (t, f, s, i) refl)

  pub sample_shadow_round_of :
      (enabled : Bool) (name input output : Option Text)
      → IfEnabled enabled (Reads name) name
      → IfEnabled enabled (ReadsPath fs input) input
      → IfEnabled enabled (ReadsPath fs output) output
      → let c : SampleShadow.SampleShadow = record {
        enabled = enabled;
        shadow_name = name;
        shadow_input_file = input;
        shadow_output_file = output;
      } in
        SampleShadow.load_from_json fs api
          (SampleShadow.serialize_to_object w c)
          SampleShadow.default_sample_shadow
        ≡ c
  unfolding SampleShadow.load_from_json SampleShadow.serialize_to_object
      SampleShadow.default_sample_shadow
  sample_shadow_round_of true name input output n i o =
      simp written
        (simp members (rw (Reads-name name n, reads_path fs input i, reads_path fs output o) refl))
  sample_shadow_round_of false name input output n i o = simp written (rw (n, i, o) refl)

  pub secure_element_round_of :
      (enabled : Bool) (lib pin label token : Option Text) (slot : Option ℕ)
      → IfEnabled enabled (ReadsPath fs lib) lib
      → IfEnabled enabled (Reads pin) pin
      → IfEnabled enabled (Reads label) label
      → IfEnabled enabled (Reads token) token
      → SlotReads enabled slot
      → let c : SecureElement.SecureElement = record {
        enabled = enabled;
        pkcs11_lib = lib;
        secure_element_pin = pin;
        secure_element_key_label = label;
        secure_element_slot_id = slot;
        secure_element_token_label = token;
      } in
        SecureElement.load_from_json fs api
          (SecureElement.serialize_to_object w c)
          SecureElement.default_secure_element
        ≡ c
  unfolding SecureElement.load_from_json SecureElement.serialize_to_object to_unsigned
      SecureElement.default_secure_element
  secure_element_round_of true lib pin label token none l p b t s =
      simp written
        (simp members (rw (reads_path fs lib l, reads pin p, reads label b, reads token t) refl))
  secure_element_round_of true lib pin label token (some n) l p b t s = simp written (
      simp members (
        rw (reads_path fs lib l, reads pin p, reads label b, reads token t)
          (rw (slot_exact w n s.1, slot_nonzero n s.0) refl)))
  secure_element_round_of false lib pin label token none l p b t s =
      simp written (rw (l, p, b, t) refl)
  secure_element_round_of false lib pin label token (some n) l p b t s = absurd s

  pub pub_sub_round :
      (c : PubSub.PubSub)
      → IfEnabled c.enabled (Reads c.publish_topic) c.publish_topic
      → IfEnabled c.enabled (Reads c.publish_file) c.publish_file
      → IfEnabled c.enabled (Reads c.subscribe_topic) c.subscribe_topic
      → IfEnabled c.enabled (ReadsPath fs c.subscribe_file) c.subscribe_file
      → c.publish_on_change ≡ false
      → PubSub.load_from_json fs api (PubSub.serialize_to_object w c) PubSub.default_pub_sub ≡ c
  unfolding PubSub.serialize_to_object
  pub_sub_round c t f s i e =
      pub_sub_round_of c.enabled c.publish_topic c.publish_file c.subscribe_topic c.subscribe_file t
        f s i
      ∙ ap (λ b. record c { publish_on_change = b }) (sym e)

  pub tunneling_round :
      (c : Tunneling.Tunneling)
      → c ≡ record Tunneling.default_tunneling { enabled = c.enabled }
      → Tunneling.load_from_json api (Tunneling.serialize_to_object w c) Tunneling.default_tunneling
        ≡ c
  unfolding Tunneling.load_from_json Tunneling.serialize_to_object Tunneling.default_tunneling
  tunneling_round c plain = simp written (sym plain)

  pub config_shadow_round :
      (c : ConfigShadow.ConfigShadow)
      → ConfigShadow.load_from_json api
          (ConfigShadow.serialize_to_object w c)
          ConfigShadow.default_config_shadow
        ≡ c
  unfolding ConfigShadow.load_from_json ConfigShadow.serialize_to_object
      ConfigShadow.default_config_shadow
  config_shadow_round c = simp written
