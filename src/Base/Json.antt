-- ===== src/Base/Json.antt =====
-- The interfaces of the JSON views and objects of the AWS CRT (Aws::Crt::JsonView and JsonObject),
-- which are not part of the repository: the calls that the loaders make, as the fields of a record,
-- and what a stored member means for them. A text is the list of its bytes.
use Prim.Native.Nat.{ℕ, ◌^◌, ◌≤◌, ◌<◌}
use Prim.Native.String.{String}
use mathlib.Core.Path.{◌≡◌}
use mathlib.Core.Bool.{Bool, false, ◌||◌}
use mathlib.Core.List.{List, []}
use mathlib.Core.Option.{Option, none, some}
use aws_iot_device_client.Base.Int.{ℤ, pos, negsuc}
use aws_iot_device_client.Base.Tests.{if◌then◌else◌}
use aws_iot_device_client.Base.Texts.{Text, text, text_eq}

pub record JsonApi : Type 1 where
  pub View : Type 0
  pub value_exists : View → String → Bool
  pub get_json_object : View → String → View
  pub is_string : View → Bool
  pub is_list_type : View → Bool
  pub is_integer_type : View → Bool
  pub get_bool : View → String → Bool
  pub get_string : View → String → List ℕ
  pub get_integer : View → String → ℤ
  pub get_int64 : View → String → ℤ
  pub get_array : View → String → List View
  pub as_array : View → List View
  pub as_string : View → List ℕ

-- What WithString, WithBool, WithInteger, WithInt64, WithObject and WithArray store.
pub data JsonItem (V : Type 0) : Type 0 where
  string : Text → JsonItem V
  bool : Bool → JsonItem V
  integer : ℤ → JsonItem V
  int64 : ℤ → JsonItem V
  object : V → JsonItem V
  array : List V → JsonItem V

module _ {V : Type 0} where
  -- A member of another kind reads as empty.
  abbrev pub string_of : JsonItem V → Text
  string_of (string s) = s
  string_of _ = []

  abbrev pub bool_of : JsonItem V → Bool
  bool_of (bool b) = b
  bool_of _ = false

  -- The number that is stored, and what the given conversion makes of it.
  abbrev pub number_of : (ℤ → ℤ) → JsonItem V → ℤ
  number_of convert (integer n) = convert n
  number_of convert (int64 n) = convert n
  number_of convert _ = pos 0

-- The numbers of an int, and those up to which each integer is a double.
abbrev pub IsInt : ℤ → Type 0
IsInt (pos n) = n < 2 ^ 31
IsInt (negsuc n) = n < 2 ^ 31

abbrev pub IsExact : ℤ → Type 0
IsExact (pos n) = n ≤ 2 ^ 53
IsExact (negsuc n) = n < 2 ^ 53

abbrev pub key_eq : String → String → Bool
key_eq j k = text_eq (text j) (text k)

-- JsonObject: a member that is put hides what the object had under its key, and no other. A number
-- is stored as a double; `to_int` and `to_int64` are what GetInteger and GetInt64 make of one.
pub record JsonWriter (api : JsonApi) : Type 0 where
  pub empty : api.View
  pub put : api.View → String → JsonItem api.View → api.View
  pub to_int : ℤ → ℤ
  pub to_int64 : ℤ → ℤ
  pub int_exact : (n : ℤ) → IsInt n → to_int n ≡ n
  pub int64_exact : (n : ℤ) → IsExact n → to_int64 n ≡ n
  pub exists_empty : (k : String) → api.value_exists empty k ≡ false
  pub string_empty : (k : String) → api.get_string empty k ≡ []
  pub exists_put :
      (o : api.View) (j k : String) (x : JsonItem api.View)
      → api.value_exists (put o j x) k ≡ (key_eq j k || api.value_exists o k)
  pub string_put :
      (o : api.View) (j k : String) (x : JsonItem api.View)
      → api.get_string (put o j x) k ≡ (if key_eq j k then string_of x else api.get_string o k)
  pub bool_put :
      (o : api.View) (j k : String) (x : JsonItem api.View)
      → api.get_bool (put o j x) k ≡ (if key_eq j k then bool_of x else api.get_bool o k)
  pub integer_put :
      (o : api.View) (j k : String) (x : JsonItem api.View)
      → api.get_integer (put o j x) k
        ≡ (if key_eq j k then number_of to_int x else api.get_integer o k)
  pub int64_put :
      (o : api.View) (j k : String) (x : JsonItem api.View)
      → api.get_int64 (put o j x) k
        ≡ (if key_eq j k then number_of to_int64 x else api.get_int64 o k)
  pub object_put :
      (o : api.View) (j k : String) (v : api.View)
      → api.get_json_object (put o j (object v)) k
        ≡ (if key_eq j k then v else api.get_json_object o k)

-- A string that is written if there is one.
abbrev pub put_optional :
    {api : JsonApi} → JsonWriter api → api.View → String → Option Text → api.View
put_optional w o key none = o
put_optional w o key (some s) = w.put o key (string s)
