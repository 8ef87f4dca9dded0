-- ===== src/FeatureRegistry.antt =====
-- FeatureRegistry.cpp: the features that run, by name. `features` is a std::map: an association
-- list in the order of the names. A null pointer is `none`.
pub mod Lookup
pub mod Stopping
use aws_iot_device_client.Base.{
  ℕ, zero, suc, ◌+◌, Bool, true, false, List, [], ◌∷◌, Option, none, some, Text, text_eq, ltb, ◌==◌,
  if◌then◌else◌,
}

abbrev pub Features : Type 0 → Type 0
Features F = List (Text × Option F)

-- The order of std::string.
unfoldable pub text_lt : Text → Text → Bool
text_lt s [] = false
text_lt [] (b ∷ t) = true
text_lt (a ∷ s) (b ∷ t) = if a == b then text_lt s t else ltb a b

module _ {F : Type 0} where
  unfoldable pub contains : Text → Features F → Bool
  contains name [] = false
  contains name ((other, feature) ∷ rest) = if text_eq name other then true else contains name rest

  unfoldable pub get : Text → Features F → Option F
  get name [] = none
  get name ((other, feature) ∷ rest) = if text_eq name other then feature else get name rest

  unfoldable pub insert : Text → Option F → Features F → Features F
  insert name feature [] = (name, feature) ∷ []
  insert name feature ((other, g) ∷ rest) =
      if text_lt name other
      then (name, feature) ∷ (other, g) ∷ rest
      else (other, g) ∷ insert name feature rest

  unfoldable pub add : Text → Option F → Features F → Features F
  add name feature features =
      if contains name features then features else insert name feature features

  unfoldable pub disable : Text → Features F → Features F
  disable name [] = []
  disable name ((other, feature) ∷ rest) =
      if text_eq name other then (other, none) ∷ rest else (other, feature) ∷ disable name rest

  unfoldable pub count_active : Option F → ℕ → ℕ
  count_active none n = n
  count_active (some feature) n = suc n

  unfoldable pub get_size : Features F → ℕ
  unfolding count_active
  get_size [] = 0
  get_size ((name, feature) ∷ rest) = count_active feature (get_size rest)

  unfoldable pub prepend_active : Option F → List F → List F
  prepend_active none fs = fs
  prepend_active (some feature) fs = feature ∷ fs

  -- The features whose `stop` is called, in order, and the registry afterwards.
  unfoldable pub stop_all : Features F → List F × Features F
  unfolding prepend_active
  stop_all [] = ([], [])
  stop_all ((name, feature) ∷ rest) =
      let (stopped, after) = stop_all rest in (prepend_active feature stopped, (name, none) ∷ after)

  -- The features whose `start` is called, in order.
  unfoldable pub start_all : Features F → List F
  unfolding prepend_active
  start_all [] = []
  start_all ((name, feature) ∷ rest) = prepend_active feature (start_all rest)

  -- The snapshot that onConnectionResumed takes under the lock.
  unfoldable pub active_features : Features F → List (Text × F)
  active_features [] = []
  active_features ((name, none) ∷ rest) = active_features rest
  active_features ((name, some feature) ∷ rest) = (name, feature) ∷ active_features rest

-- What a feature's own onConnectionResumed does to the world: it returns or it throws.
pub data Resumed (W : Type 0) : Type 0 where
  returned : W → Resumed W
  threw : W → Resumed W

-- Each call is under its own try block: what it throws is logged.
unfoldable pub resume_each : {F W : Type 0} → (F → W → Resumed W) → List (Text × F) → W → W
resume_each handler [] w = w
resume_each handler ((name, feature) ∷ rest) w = elim (handler feature w) [
  | returned v ↦ resume_each handler rest v
  | threw v ↦ resume_each handler rest v
]

unfoldable pub on_connection_resumed :
    {F W : Type 0} → (Bool → F → W → Resumed W) → Bool → Features F → W → W
on_connection_resumed handler session_present features w =
    resume_each (handler session_present) (active_features features) w
