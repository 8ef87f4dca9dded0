-- ===== src/Jobs/LimitedStreamBuffer.antt =====
-- jobs/LimitedStreamBuffer.cpp: the bounded buffer of a child process's output. A std::string is
-- the list of its bytes; the deque is a list, front first. `none` is the undefined behaviour of
-- reading the front of an empty deque.
pub mod Eviction
pub mod Contents
use aws_iot_device_client.Base.{
  ℕ, ◌+◌, ◌-◌, ◌%◌, ◌^◌, List, [], ◌∷◌, ◌++◌, Option, none, some, ltb, length, drop, if◌then◌else◌,
}

pub record LimitedStreamBuffer : Type 0 where
  pub contents_size : ℕ
  pub contents_size_limit : ℕ
  pub buffer : List (List ℕ)

-- size_t arithmetic.
abbrev pub size_add : ℕ → ℕ → ℕ
size_add a b = (a + b) % 2 ^ 64

abbrev pub size_sub : ℕ → ℕ → ℕ
size_sub a b = (a + 2 ^ 64 - b) % 2 ^ 64

abbrev pub default_size_limit : ℕ
default_size_limit = 1024

-- The constructors.
unfoldable pub with_limit : ℕ → LimitedStreamBuffer
with_limit limit = record { contents_size = 0; contents_size_limit = limit; buffer = [] }

-- The while loop: the deque and `contentsSize` once the value fits.
unfoldable pub evict : ℕ → ℕ → List (List ℕ) → ℕ → Option (List (List ℕ) × ℕ)
evict limit size [] contents_size =
    if ltb limit (size_add contents_size size) then none else some ([], contents_size)
evict limit size (front ∷ rest) contents_size =
    if ltb limit (size_add contents_size size)
    then evict limit size rest (size_sub contents_size (length front))
    else some (front ∷ rest, contents_size)

abbrev pub push_back : List ℕ → LimitedStreamBuffer → List (List ℕ) × ℕ → LimitedStreamBuffer
push_back value b (chunks, size) = record b {
  buffer = chunks ++ value ∷ [];
  contents_size = size_add size (length value);
}

unfoldable pub add_string : List ℕ → LimitedStreamBuffer → Option LimitedStreamBuffer
add_string value b =
    if ltb b.contents_size_limit (length value)
    then some (record b {
      buffer = drop (length value - b.contents_size_limit) value ∷ [];
      contents_size = b.contents_size_limit;
    })
    else elim (evict b.contents_size_limit (length value) b.buffer b.contents_size) [
      | none ↦ none
      | some r ↦ some (push_back value b r)
    ]

unfoldable pub flatten : List (List ℕ) → List ℕ
flatten [] = []
flatten (s ∷ rest) = s ++ flatten rest

unfoldable pub to_string : LimitedStreamBuffer → List ℕ
to_string b = flatten b.buffer

-- Values added one after another.
unfoldable pub add_all : List (List ℕ) → LimitedStreamBuffer → Option LimitedStreamBuffer
add_all [] b = some b
add_all (value ∷ values) b = elim (add_string value b) [ none ↦ none | some c ↦ add_all values c ]
