-- ===== src/Tunneling/Feature/Notifications.antt =====
-- tunneling/SecureTunnelingFeature.cpp: OnSubscribeToTunnelsNotifyResponse, in its critical
-- sections of `mConnectionRecoveryLock`. `mTunnelNotificationLock` lets one run at a time.
pub mod Acceptance
pub mod Repeats
pub mod Stale
use aws_iot_device_client.Base.{
  ℕ, Bool, true, false, not, ◌&&◌, ◌||◌, List, [], ◌∷◌, ◌++◌, Option, none, some, Text, text,
  is_empty, if◌then◌else◌, text_eq, ltb, leb, ◌==◌,
}
use aws_iot_device_client.Base.Int.{ℤ, is_zero}
use aws_iot_device_client.Jobs.JobEngine.{until_nul}
use aws_iot_device_client.Tunneling.Context.{
  NotifyResponse, Context, is_duplicate_notification, connect_to_secure_tunnel,
}
use aws_iot_device_client.Tunneling.Feature.{Feature, create_context, remove_context}

-- The first test: `featureLifecycleGeneration`, unless the notification is of a stale session.
unfoldable pub admit : ℕ → Feature → Option ℕ
admit generation f =
    if not f.started
      || (ltb generation f.oldest_valid_subscription_generation
          || ltb f.connection_recovery_generation generation)
    then none
    else some f.feature_lifecycle_generation

-- What the notification asks for; `fault` is the use of an empty Optional.
pub data Request : Type 0 where
  fault refused : Request
  accepted : Text → Text → ℕ → Request

-- GetPortFromService, with the map that it fills.
unfoldable pub get_port_from_service : Text → ℕ
get_port_from_service service =
    if text_eq service (text "SSH") then 22 else if text_eq service (text "VNC") then 5900 else 0

unfoldable pub is_valid_port : ℕ → Bool
is_valid_port port = leb 1 port && leb port 65535

-- A string that is there and not empty, as c_str() reads it.
abbrev pub c_str : Option Text → Option Text
c_str none = none
c_str (some s) = if is_empty s then none else some (until_nul s)

-- The one service that is requested.
abbrev pub single : Option (List Text) → Option Text
single (some (service ∷ [])) = some (until_nul service)
single _ = none

abbrev pub checked_port : Text → Text → Text → Request
checked_port access_token region service =
    let port = get_port_from_service service in
    if is_valid_port port then accepted access_token region port else refused

-- The service, the access token and the region, which are tested in this order.
abbrev pub checked : Option Text → Option Text → Option Text → Request
checked (some service) (some access_token) (some region) = checked_port access_token region service
checked _ _ _ = refused

-- The tests of the response, up to the one of the port.
unfoldable pub read_response : ℤ → Option NotifyResponse → Request
unfolding get_port_from_service is_valid_port
read_response io_err none = refused
read_response io_err (some r) = if not (is_zero io_err) then refused else elim r.client_mode [
  | none ↦ fault
  | some mode ↦
      if not (text_eq (until_nul mode) (text "destination"))
      then refused
      else checked (single r.services) (c_str r.client_access_token) (c_str r.region)
]

abbrev pub is_current : ℕ → Feature → Bool
is_current lifecycle f = f.started && (lifecycle == f.feature_lifecycle_generation)

-- The loop over mContexts, which ends at the first context that has seen the notification.
unfoldable pub mark_seen : NotifyResponse → List (ℕ × Context) → List (ℕ × Context) × Bool
mark_seen response [] = ([], false)
mark_seen response ((a, c) ∷ contexts) =
    let (d, duplicate) = is_duplicate_notification response c in
    let (rest, found) = mark_seen response contexts in
    if duplicate then ((a, d) ∷ contexts, true) else ((a, d) ∷ rest, found)

-- The second section: whether a context is made.
unfoldable pub screen : ℕ → NotifyResponse → Feature → Feature × Bool
screen lifecycle response f =
    let (contexts, found) = mark_seen response f.contexts in
    if not (is_current lifecycle f)
    then (f, false)
    else (record f { contexts = contexts }, not found)

-- The third section: whether the context is connected.
unfoldable pub add_context : ℕ → ℕ → Context → Feature → Feature × Bool
add_context lifecycle address context f =
    if not (is_current lifecycle f)
    then (f, false)
    else (record f { contexts = f.contexts ++ ((address, context) ∷ []) }, true)

-- The context of an address after a call of one of its operations.
abbrev pub put_context : ℕ → Context → List (ℕ × Context) → List (ℕ × Context)
put_context address context [] = []
put_context address context ((a, c) ∷ contexts) =
    (if a == address then (a, context) else (a, c)) ∷ put_context address context contexts

-- The call of ConnectToSecureTunnel, and the removal where it fails.
abbrev pub connected : ℕ → Feature → Context × Bool → Feature
connected address f (context, true) = record f { contexts = put_context address context f.contexts }
connected address f (context, false) = record f { contexts = remove_context address f.contexts }

-- All of it, with no other thread in between. `address` is that of the new context; `valid` and
-- `success` say what the SDK makes of its tunnel.
abbrev pub open_tunnel : ℕ → Bool → Bool → ℕ → Context → Feature → Feature
open_tunnel address valid success lifecycle context f =
    let (g, added) = add_context lifecycle address context f in
    if added then connected address g (connect_to_secure_tunnel valid success context) else g

abbrev pub handle : ℕ → Bool → Bool → ℕ → NotifyResponse → Request → Feature → Option Feature
handle address valid success lifecycle response fault f = none
handle address valid success lifecycle response refused f = some f
handle address valid success lifecycle response (accepted access_token region port) f =
    let (g, opens) = screen lifecycle response f in
    some (
      if opens
      then open_tunnel address valid success lifecycle (create_context g access_token region port) g
      else g)

abbrev pub handle_admitted :
    ℕ → Bool → Bool → ℤ → Option NotifyResponse → Option ℕ → Feature → Option Feature
handle_admitted address valid success io_err response none f = some f
handle_admitted address valid success io_err none (some lifecycle) f = some f
handle_admitted address valid success io_err (some r) (some lifecycle) f =
    handle address valid success lifecycle r (read_response io_err (some r)) f

-- OnSubscribeToTunnelsNotifyResponse; none is a crash.
unfoldable pub on_notification :
    ℕ → Bool → Bool → ℤ → Option NotifyResponse → ℕ → Feature → Option Feature
on_notification address valid success io_err response generation f =
    handle_admitted address valid success io_err response (admit generation f) f
