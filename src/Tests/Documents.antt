-- ===== src/Tests/Documents.antt =====
-- A JSON object as a list of its members, and what is read and written of it.
use aws_iot_device_client.Base.{◌≡◌, refl, Bool, false, ◌||◌, [], String, Text, if◌then◌else◌}
use aws_iot_device_client.Base.Int.{ℤ, pos}
use aws_iot_device_client.Base.Json.{
  JsonApi, JsonWriter, JsonItem, key_eq, string, bool, integer, int64, object, array, string_of,
  bool_of, number_of,
}

pub data Document : Type 0 where
  nothing : Document
  text_member : String → Text → Document → Document
  bool_member : String → Bool → Document → Document
  integer_member : String → ℤ → Document → Document
  int64_member : String → ℤ → Document → Document
  object_member : String → Document → Document → Document
  array_member : String → Document → Document

abbrev pub has : Document → String → Bool
has nothing k = false
has (text_member j s d) k = key_eq j k || has d k
has (bool_member j b d) k = key_eq j k || has d k
has (integer_member j n d) k = key_eq j k || has d k
has (int64_member j n d) k = key_eq j k || has d k
has (object_member j v d) k = key_eq j k || has d k
has (array_member j d) k = key_eq j k || has d k

abbrev pub text_at : Document → String → Text
text_at nothing k = []
text_at (text_member j s d) k = if key_eq j k then s else text_at d k
text_at (bool_member j b d) k = if key_eq j k then [] else text_at d k
text_at (integer_member j n d) k = if key_eq j k then [] else text_at d k
text_at (int64_member j n d) k = if key_eq j k then [] else text_at d k
text_at (object_member j v d) k = if key_eq j k then [] else text_at d k
text_at (array_member j d) k = if key_eq j k then [] else text_at d k

abbrev pub bool_at : Document → String → Bool
bool_at nothing k = false
bool_at (text_member j s d) k = if key_eq j k then false else bool_at d k
bool_at (bool_member j b d) k = if key_eq j k then b else bool_at d k
bool_at (integer_member j n d) k = if key_eq j k then false else bool_at d k
bool_at (int64_member j n d) k = if key_eq j k then false else bool_at d k
bool_at (object_member j v d) k = if key_eq j k then false else bool_at d k
bool_at (array_member j d) k = if key_eq j k then false else bool_at d k

abbrev pub integer_at : Document → String → ℤ
integer_at nothing k = pos 0
integer_at (text_member j s d) k = if key_eq j k then pos 0 else integer_at d k
integer_at (bool_member j b d) k = if key_eq j k then pos 0 else integer_at d k
integer_at (integer_member j n d) k = if key_eq j k then n else integer_at d k
integer_at (int64_member j n d) k = if key_eq j k then n else integer_at d k
integer_at (object_member j v d) k = if key_eq j k then pos 0 else integer_at d k
integer_at (array_member j d) k = if key_eq j k then pos 0 else integer_at d k

abbrev pub int64_at : Document → String → ℤ
int64_at nothing k = pos 0
int64_at (text_member j s d) k = if key_eq j k then pos 0 else int64_at d k
int64_at (bool_member j b d) k = if key_eq j k then pos 0 else int64_at d k
int64_at (integer_member j n d) k = if key_eq j k then n else int64_at d k
int64_at (int64_member j n d) k = if key_eq j k then n else int64_at d k
int64_at (object_member j v d) k = if key_eq j k then pos 0 else int64_at d k
int64_at (array_member j d) k = if key_eq j k then pos 0 else int64_at d k

abbrev pub object_at : Document → String → Document
object_at nothing k = nothing
object_at (text_member j s d) k = object_at d k
object_at (bool_member j b d) k = object_at d k
object_at (integer_member j n d) k = object_at d k
object_at (int64_member j n d) k = object_at d k
object_at (object_member j v d) k = if key_eq j k then v else object_at d k
object_at (array_member j d) k = object_at d k

abbrev pub documents : JsonApi
documents = record {
  View = Document;
  value_exists = has;
  get_json_object = object_at;
  is_string = λ v. false;
  is_list_type = λ v. false;
  is_integer_type = λ v. false;
  get_bool = bool_at;
  get_string = text_at;
  get_integer = integer_at;
  get_int64 = int64_at;
  get_array = λ v key. [];
  as_array = λ v. [];
  as_string = λ v. [];
}

abbrev pub with_member : Document → String → JsonItem Document → Document
with_member o j (string s) = text_member j s o
with_member o j (bool b) = bool_member j b o
with_member o j (integer n) = integer_member j n o
with_member o j (int64 n) = int64_member j n o
with_member o j (object v) = object_member j v o
with_member o j (array vs) = array_member j o

pub has_lem :
    (o : Document) (j k : String) (x : JsonItem Document)
    → has (with_member o j x) k ≡ (key_eq j k || has o k)
has_lem o j k (string s) = refl
has_lem o j k _ = refl

pub text_lem :
    (o : Document) (j k : String) (x : JsonItem Document)
    → text_at (with_member o j x) k ≡ (if key_eq j k then string_of x else text_at o k)
text_lem o j k (string s) = refl
text_lem o j k _ = refl

pub bool_lem :
    (o : Document) (j k : String) (x : JsonItem Document)
    → bool_at (with_member o j x) k ≡ (if key_eq j k then bool_of x else bool_at o k)
bool_lem o j k (string s) = refl
bool_lem o j k _ = refl

pub integer_lem :
    (o : Document) (j k : String) (x : JsonItem Document)
    → integer_at (with_member o j x) k
      ≡ (if key_eq j k then number_of (λ n. n) x else integer_at o k)
integer_lem o j k (integer n) = refl
integer_lem o j k (int64 n) = refl
integer_lem o j k _ = refl

pub int64_lem :
    (o : Document) (j k : String) (x : JsonItem Document)
    → int64_at (with_member o j x) k ≡ (if key_eq j k then number_of (λ n. n) x else int64_at o k)
int64_lem o j k (integer n) = refl
int64_lem o j k (int64 n) = refl
int64_lem o j k _ = refl

abbrev pub document_writer : JsonWriter documents
document_writer = record {
  empty = nothing;
  put = with_member;
  to_int = λ n. n;
  to_int64 = λ n. n;
  int_exact = λ n h. refl;
  int64_exact = λ n h. refl;
  exists_empty = λ k. refl;
  string_empty = λ k. refl;
  exists_put = has_lem;
  string_put = text_lem;
  bool_put = bool_lem;
  integer_put = integer_lem;
  int64_put = int64_lem;
  object_put = λ o j k v. refl;
}
