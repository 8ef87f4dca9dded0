-- ===== src/Util/StringUtils.antt =====
-- util/StringUtils.cpp over the bytes of a text. FormatMessage rests on vsnprintf of the C library
-- and is not modelled.
pub mod Sanitizing
pub mod Commas
use aws_iot_device_client.Base.{
  ℕ, zero, suc, ◌-◌, Bool, true, false, not, ◌&&◌, ◌||◌, List, [], ◌∷◌, ◌++◌, map, leb, ◌==◌,
  length, Text, is_empty, any, if◌then◌else◌,
}
use aws_iot_device_client.Base.Json.{JsonApi}

-- The bytes that Sanitize keeps: tab, newline and the printable ones but '%'.
unfoldable pub is_allowed : ℕ → Bool
is_allowed c = (leb 9 c && leb c 10) || ((leb 32 c && leb c 36) || (leb 38 c && leb c 126))

-- A space in the place of any other byte; those above 127 are not kept, whether `char` is signed
-- or not.
unfoldable pub sanitize : Text → Text
unfolding is_allowed
sanitize [] = []
sanitize (c ∷ s) = (if is_allowed c then c else 32) ∷ sanitize s

abbrev pub one_of : Text → ℕ → Bool
one_of chars c = any (λ d. c == d) chars

unfoldable pub trim_left_copy : Text → Text → Text
trim_left_copy [] chars = []
trim_left_copy (c ∷ s) chars = if one_of chars c then trim_left_copy s chars else c ∷ s

unfoldable pub trim_right_copy : Text → Text → Text
trim_right_copy [] chars = []
trim_right_copy (c ∷ s) chars =
    let rest = trim_right_copy s chars in if one_of chars c && is_empty rest then [] else c ∷ rest

unfoldable pub trim_copy : Text → Text → Text
unfolding trim_left_copy trim_right_copy
trim_copy s chars = trim_right_copy (trim_left_copy s chars) chars

-- ParseToVectorString.
unfoldable pub parse_to_vector_string : (j : JsonApi) → JsonApi.View j → List Text
parse_to_vector_string j view = map j.as_string (j.as_array view)

abbrev pub comma : ℕ
comma = 44

abbrev pub backslash : ℕ
backslash = 92

abbrev pub flush : Text → List Text → List Text
flush [] tokens = tokens
flush (c ∷ s) tokens = (c ∷ s) ∷ tokens

-- SplitStringByComma: the matches of `(\\,|[^,])+`, that is the longest runs of bytes that are no
-- commas and of commas right behind a backslash. `current` is the run so far.
unfoldable pub split_from : Text → Bool → Text → List Text
split_from current escaped [] = flush current []
split_from current escaped (c ∷ s) =
    let ends = c == comma && not escaped in
    let rest = split_from (if ends then [] else current ++ c ∷ []) (c == backslash) s in
    if ends then flush current rest else rest

unfoldable pub split_string_by_comma : Text → List Text
unfolding split_from
split_string_by_comma s = split_from [] false s

abbrev pub is_prefix : Text → Text → Bool
is_prefix [] s = true
is_prefix (p ∷ ps) [] = false
is_prefix (p ∷ ps) (c ∷ s) = p == c && is_prefix ps s

-- replace_all for a `what` that is not empty: the occurrences from the left, none overlapping the
-- one before. `skip` counts the bytes of an occurrence that are still to be passed over.
unfoldable pub replace_from : Text → Text → ℕ → Text → Text
replace_from what with skip [] = []
replace_from what with (suc skip) (c ∷ s) = replace_from what with skip s
replace_from what with zero (c ∷ s) =
    let hit = is_prefix what (c ∷ s) in
    (if hit then with else c ∷ []) ++ replace_from what with (if hit then length what - 1 else 0) s

unfoldable pub replace_all : Text → Text → Text → Text
unfolding replace_from
replace_all s what with = replace_from what with 0 s
