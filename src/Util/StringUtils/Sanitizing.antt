-- ===== src/Util/StringUtils/Sanitizing.antt =====
-- What Sanitize and the trimming functions leave.

use aws_iot_device_client.Base.{
  ℕ, suc, ◌≡◌, refl, ◌∙◌, ap, true, false, ◌&&◌, [], ◌∷◌, ◌++◌, arith, length, Text, is_empty, All,
  Bool-cases, inl, inr, if◌then◌else◌,
}
use aws_iot_device_client.Util.StringUtils.{
  is_allowed, sanitize, one_of, trim_left_copy, trim_right_copy, trim_copy,
}

allowed_byte : (c : ℕ) → is_allowed (if is_allowed c then c else 32) ≡ true
unfolding is_allowed
allowed_byte c = ground arith

-- The result has the length of the text and holds only bytes that are allowed, in particular no
-- '%'; an allowed byte is kept, so that a second call changes nothing.
pub sanitize_lem :
    (s : Text)
    → All (λ c. is_allowed c ≡ true) (sanitize s)
      × (length (sanitize s) ≡ length s)
      × (sanitize (sanitize s) ≡ sanitize s)
unfolding sanitize
sanitize_lem [] = (tt, refl, refl)
sanitize_lem (c ∷ s) =
    let (safe, same, again) = sanitize_lem s in
    ((allowed_byte c, safe), ap suc same, rw (allowed_byte c, again))

-- The first byte, and the last, is none of the given ones.
abbrev pub StartsClean : Text → Text → Type 0
StartsClean chars [] = Unit
StartsClean chars (c ∷ s) = one_of chars c ≡ false

abbrev pub EndsClean : Text → Text → Type 0
EndsClean chars [] = Unit
EndsClean chars (c ∷ []) = one_of chars c ≡ false
EndsClean chars (c ∷ d ∷ s) = EndsClean chars (d ∷ s)

abbrev pub AllOf : Text → Text → Type 0
AllOf chars = All (λ c. one_of chars c ≡ true)

left_lem :
    (s chars : Text)
    → (pre : Text) × (s ≡ pre ++ trim_left_copy s chars)
      × AllOf chars pre
      × StartsClean chars (trim_left_copy s chars)
unfolding trim_left_copy
left_lem [] chars = ([], refl, tt, tt)
left_lem (c ∷ s) chars = elim (Bool-cases (one_of chars c)) [
  | inl gone ↦
      let (pre, e, h, k) = left_lem s chars in
      (c ∷ pre, rw gone (ap (◌∷◌ c) e), (gone, h), rw gone k)
  | inr kept ↦ ([], rw kept, tt, rw kept kept)
]

cons-EndsClean :
    (chars : Text) (c : ℕ) (s : Text)
    → (is_empty s ≡ true → one_of chars c ≡ false)
    → EndsClean chars s
    → EndsClean chars (c ∷ s)
cons-EndsClean chars c [] h k = h refl
cons-EndsClean chars c (d ∷ s) h k = k

empty_nil : (s : Text) → is_empty s ≡ true → s ≡ []
empty_nil [] h = refl
empty_nil (c ∷ s) h = absurd (cc)

right_lem :
    (s chars : Text)
    → (post : Text) × (s ≡ trim_right_copy s chars ++ post)
      × AllOf chars post
      × EndsClean chars (trim_right_copy s chars)
      × (StartsClean chars s → StartsClean chars (trim_right_copy s chars))
unfolding trim_right_copy
right_lem [] chars = ([], refl, tt, tt, λ h. tt)
right_lem (c ∷ s) chars =
    let (post, e, h, k, f) = right_lem s chars in
    let rest : Text = trim_right_copy s chars in
    elim (Bool-cases (one_of chars c && is_empty rest)) [
      | inl gone ↦
          let none_left : rest ≡ [] = empty_nil rest (ground (arith, gone)) in
          let in_chars : one_of chars c ≡ true = ground (arith, gone) in
          rw gone
            (c ∷ post, ap (◌∷◌ c) (e ∙ ap (λ r. r ++ post) none_left), (in_chars, h), tt, λ m. tt)
      | inr kept ↦ rw kept (
        post,
        ap (◌∷◌ c) e,
        h,
        cons-EndsClean chars c rest (λ m. ground (arith, m, kept)) k,
        λ m. m,
      )
    ]

-- TrimCopy cuts off a prefix and a suffix of given characters, and what is left neither starts nor
-- ends with one.
pub trim_copy_lem :
    (s chars : Text)
    → (pre : Text) × (post : Text) × (s ≡ pre ++ (trim_copy s chars ++ post))
      × AllOf chars pre
      × AllOf chars post
      × StartsClean chars (trim_copy s chars)
      × EndsClean chars (trim_copy s chars)
unfolding trim_copy
trim_copy_lem s chars =
    let (pre, e, h, k) = left_lem s chars in
    let (post, f, l, m, n) = right_lem (trim_left_copy s chars) chars in
    (pre, post, e ∙ ap (λ r. pre ++ r) f, h, l, n k, m)
