-- ===== src/Util/StringUtils/Commas.antt =====
-- The comma-separated list of a command: splitting and unescaping undo escaping and joining.
use mathlib.Core.List.{append_assoc, append-nil}
use aws_iot_device_client.Base.{
  ℕ, ◌≡◌, ◌≢◌, refl, sym, ◌∙◌, ap, ap₂, Bool, true, false, ◌&&◌, List, [], ◌∷◌, ◌++◌, map, arith,
  ◌==◌, Text, All, Bool-cases, inl, inr, ==_iff, if◌then◌else◌,
}
use aws_iot_device_client.Util.StringUtils.{
  comma, backslash, flush, split_from, split_string_by_comma, is_prefix, replace_all,
}

-- How a token is written in a job document: a comma behind a backslash.
unfoldable pub escape : Text → Text
escape [] = []
escape (c ∷ s) = if c == comma then backslash ∷ comma ∷ escape s else c ∷ escape s

unfoldable pub join : List Text → Text
join [] = []
join (t ∷ []) = escape t
join (t ∷ u ∷ ts) = escape t ++ comma ∷ join (u ∷ ts)

-- Whether the next comma would be taken for an escaped one.
abbrev pub after : Bool → Text → Bool
after escaped [] = escaped
after escaped (c ∷ s) = after (c == backslash) s

-- A token that a list can hold: not empty, and without a backslash at its end.
abbrev pub IsToken : Text → Type 0
IsToken t = (t ≢ []) × (after false t ≡ false)

split_plain :
    (c : ℕ) (current s : Text) (escaped : Bool)
    → (c == comma) ≡ false
    → split_from current escaped (c ∷ s) ≡ split_from (current ++ c ∷ []) (c == backslash) s
unfolding split_from
split_plain c current s escaped h = rw h

split-escape :
    (t current rest : Text) (escaped : Bool)
    → split_from current escaped (escape t ++ rest)
      ≡ split_from (current ++ escape t) (after escaped t) rest
unfolding split_from escape
split-escape [] current rest escaped = rw append-nil
split-escape (c ∷ t) current rest escaped = elim (Bool-cases (c == comma)) [
  | inl hit ↦ rw ((==_iff c comma).0 hit) (
      split-escape t ((current ++ backslash ∷ []) ++ comma ∷ []) rest false
      ∙ ap (λ u. split_from u (after false t) rest)
          (append_assoc (current ++ backslash ∷ []) (comma ∷ []) (escape t)
            ∙ append_assoc current (backslash ∷ []) (comma ∷ escape t)))
  | inr miss ↦ rw miss (
      split_plain c current (escape t ++ rest) escaped miss
      ∙ split-escape t (current ++ c ∷ []) rest (c == backslash)
      ∙ ap (λ u. split_from u (after (c == backslash) t) rest)
          (append_assoc current (c ∷ []) (escape t)))
]

and_false : (b : Bool) → (b && false) ≡ false
and_false true = refl
and_false false = refl

no_comma_first : (t : Text) → is_prefix (comma ∷ []) (escape t) ≡ false
unfolding escape
no_comma_first [] = refl
no_comma_first (c ∷ t) = ground arith

unescape-escape : (t : Text) → replace_all (escape t) (backslash ∷ comma ∷ []) (comma ∷ []) ≡ t
unfolding replace_all escape
unescape-escape [] = refl
unescape-escape (c ∷ t) = elim (Bool-cases (c == comma)) [
  | inl hit ↦ rw ((==_iff c comma).0 hit) (ap (◌∷◌ comma) (unescape-escape t))
  | inr miss ↦
      rw (miss, no_comma_first t, and_false (backslash == c)) (ap (◌∷◌ c) (unescape-escape t))
]

flush_token : (t : Text) (rest : List Text) → t ≢ [] → flush (escape t) rest ≡ escape t ∷ rest
unfolding escape
flush_token [] rest h = absurd (h refl)
flush_token (c ∷ t) rest h = ground arith

split-join : (ts : List Text) → All IsToken ts → split_string_by_comma (join ts) ≡ map escape ts
unfolding split_string_by_comma join
split-join [] h = refl
split-join (t ∷ []) h =
    ap (split_from [] false) (sym (append-nil (escape t)))
    ∙ split-escape t [] [] false
    ∙ flush_token t [] h.0.0
split-join (t ∷ u ∷ ts) h =
    split-escape t [] (comma ∷ join (u ∷ ts)) false
    ∙ rw h.0.1 (
        flush_token t (split_from [] false (join (u ∷ ts))) h.0.0
        ∙ ap (◌∷◌ (escape t)) (split-join (u ∷ ts) h.1))

map_unescape :
    (ts : List Text)
    → map (λ t. replace_all t (backslash ∷ comma ∷ []) (comma ∷ [])) (map escape ts) ≡ ts
map_unescape [] = refl
map_unescape (t ∷ ts) = ap₂ ◌∷◌ (unescape-escape t) (map_unescape ts)

-- A list of tokens, each not empty and without a backslash at its end, is read back from its
-- comma-separated form, with the commas inside the tokens escaped, by SplitStringByComma and the
-- replacement of the escaped commas.
pub split-join_unescaped :
    (ts : List Text)
    → All IsToken ts
    → map
        (λ t. replace_all t (backslash ∷ comma ∷ []) (comma ∷ []))
        (split_string_by_comma (join ts))
      ≡ ts
split-join_unescaped ts h = rw (split-join ts h) (map_unescape ts)
