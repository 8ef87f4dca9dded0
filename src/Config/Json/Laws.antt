-- ===== src/Config/Json/Laws.antt =====
-- What is read of an object that was written.
use Prim.Native.String.{String}
use aws_iot_device_client.Base.{
  or_else, Bool, true, [], false, ◌||◌, ◌≡◌, refl, Option, none, some, Text, is_empty,
  if◌then◌else◌, arith,
}
use aws_iot_device_client.Base.Int.{ℤ, pos}
use aws_iot_device_client.Base.Json.{
  JsonApi, JsonWriter, JsonItem, string_of, bool_of, number_of, key_eq, put_optional,
}
use aws_iot_device_client.Jobs.JobEngine.{until_nul}
use aws_iot_device_client.Config.LogConfig.{json_string}
use aws_iot_device_client.Config.Json.{json_bool, json_integer, json_int64, json_text}

-- What json_string makes of a string that is there.
abbrev pub filled : Text → Option Text
filled s = if is_empty s then none else some (until_nul s)

-- A setting that reads as itself: none, or a text that is not empty and holds no NUL.
abbrev pub Reads : Option Text → Type 0
Reads none = Unit {0}
Reads (some s) = (is_empty s ≡ false) × (until_nul s ≡ s)

module _ {api : JsonApi} (w : JsonWriter api) (o : api.View) (j k : String) where
  module _ (x : JsonItem api.View) where
    pub json_bool-put :
        (old : Bool)
        → json_bool api (w.put o j x) k old
          ≡ (if key_eq j k then bool_of x else json_bool api o k old)
    json_bool-put old = rw (w.exists_put o j k x, w.bool_put o j k x) (ground arith)

    pub json_integer-put :
        (old : ℤ)
        → json_integer api (w.put o j x) k old
          ≡ (if key_eq j k then number_of w.to_int x else json_integer api o k old)
    json_integer-put old = rw (w.exists_put o j k x, w.integer_put o j k x) (ground arith)

    pub json_int64-put :
        (old : ℤ)
        → json_int64 api (w.put o j x) k old
          ≡ (if key_eq j k then number_of w.to_int64 x else json_int64 api o k old)
    json_int64-put old = rw (w.exists_put o j k x, w.int64_put o j k x) (ground arith)

    pub json_string-put :
        json_string api (w.put o j x) k
        ≡ (if key_eq j k then filled (string_of x) else json_string api o k)
    json_string-put = rw (w.exists_put o j k x, w.string_put o j k x) (ground arith)

    pub json_text-put :
        (old : Option Text)
        → json_text api (w.put o j x) k old
          ≡ (if key_eq j k then some (until_nul (string_of x)) else json_text api o k old)
    json_text-put old = rw (w.exists_put o j k x, w.string_put o j k x) (ground arith)

  pub exists-put_optional :
      (s : Option Text)
      → api.value_exists (put_optional w o j s) k ≡ (
          if key_eq j k then or_else s (λ x. true) (api.value_exists o k) else api.value_exists o k)
  exists-put_optional none = ground arith
  exists-put_optional (some s) = rw (w.exists_put o j k _) (ground arith)

  pub string-put_optional :
      (s : Option Text)
      → api.get_string (put_optional w o j s) k
        ≡ (if key_eq j k then or_else s (λ x. x) (api.get_string o k) else api.get_string o k)
  string-put_optional none = ground arith
  string-put_optional (some s) = w.string_put o j k _

  pub int64-put_optional :
      (s : Option Text)
      → api.get_int64 (put_optional w o j s) k
        ≡ (if key_eq j k then or_else s (λ x. pos 0) (api.get_int64 o k) else api.get_int64 o k)
  int64-put_optional none = ground arith
  int64-put_optional (some s) = w.int64_put o j k _

  pub json_text-put_optional :
      (s old : Option Text)
      → json_text api (put_optional w o j s) k old ≡ (
          if key_eq j k
          then or_else s (λ x. some (until_nul x)) (json_text api o k old)
          else json_text api o k old)
  json_text-put_optional none old = ground arith
  json_text-put_optional (some s) old = json_text-put _ old

  pub json_bool-put_optional :
      (s : Option Text) (old : Bool)
      → json_bool api (put_optional w o j s) k old ≡ (
          if key_eq j k
          then or_else s (λ x. false) (json_bool api o k old)
          else json_bool api o k old)
  json_bool-put_optional none old = ground arith
  json_bool-put_optional (some s) old = json_bool-put _ old

  pub json_string-put_optional :
      (s : Option Text)
      → json_string api (put_optional w o j s) k
        ≡ (if key_eq j k then or_else s filled (json_string api o k) else json_string api o k)
  json_string-put_optional none = ground arith
  json_string-put_optional (some s) = json_string-put _

module _ {api : JsonApi} (w : JsonWriter api) (k : String) where
  pub json_bool-empty : (old : Bool) → json_bool api w.empty k old ≡ old
  json_bool-empty old = rw (w.exists_empty k) refl

  pub json_text-empty : (old : Option Text) → json_text api w.empty k old ≡ old
  json_text-empty old = rw (w.exists_empty k) refl

  pub json_string-empty : json_string api w.empty k ≡ none
  json_string-empty = rw (w.exists_empty k) refl

-- Keys that are asked for directly.
module _ {api : JsonApi} (w : JsonWriter api) (o : api.View) (j k : String)
    (x : JsonItem api.View) where
  pub exists-put : api.value_exists (w.put o j x) k ≡ (key_eq j k || api.value_exists o k)
  exists-put = w.exists_put o j k x

  pub string-put :
      api.get_string (w.put o j x) k ≡ (if key_eq j k then string_of x else api.get_string o k)
  string-put = w.string_put o j k x

  pub int64-put :
      api.get_int64 (w.put o j x) k
      ≡ (if key_eq j k then number_of w.to_int64 x else api.get_int64 o k)
  int64-put = w.int64_put o j k x

module _ {api : JsonApi} (w : JsonWriter api) (k : String) where
  pub exists-empty : api.value_exists w.empty k ≡ false
  exists-empty = w.exists_empty k

  pub string-empty : api.get_string w.empty k ≡ []
  string-empty = w.string_empty k

pub ruleset written = (
  json_bool-put, json_integer-put, json_int64-put, json_string-put, json_text-put,
  json_bool-put_optional, json_string-put_optional, json_text-put_optional, json_bool-empty,
  json_string-empty, json_text-empty,
)

-- The same, for what is asked for directly.
pub ruleset members = (
  exists-put, string-put, int64-put, exists-put_optional, string-put_optional, int64-put_optional,
  exists-empty, string-empty,
)
