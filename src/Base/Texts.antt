-- ===== src/Base/Texts.antt =====
-- A std::string is the list of its bytes.
use Prim.Native.Nat.{ℕ, compare, Ordering}
use Prim.Native.Char.{code}
use Prim.Native.String.{String}
use mathlib.Core.Path.{◌≡◌}
use mathlib.Core.Logic.{◌↔◌}
use mathlib.Core.Bool.{Bool, true, false}
use mathlib.Core.List.{List, [], ◌∷◌}
use native.Mathlib.Omega.{arith}

abbrev pub Text : Type 0
Text = List ℕ

-- The bytes of a literal, which is ASCII throughout.
abbrev pub text : String → Text
text String.[] = []
text (String.◌∷◌ c s) = code c ∷ text s

abbrev pub text_eq : Text → Text → Bool
text_eq [] [] = true
text_eq (a ∷ s) (b ∷ t) = elim (compare a b) [ Ordering.eq ↦ text_eq s t | _ ↦ false ]
text_eq _ _ = false

abbrev pub is_empty {ℓ} : {A : Type ℓ} → List A → Bool
is_empty [] = true
is_empty (c ∷ s) = false

pub is_empty_iff {ℓ} : {A : Type ℓ} (s : List A) → (is_empty s ≡ true) ↔ (s ≡ [])
is_empty_iff [] = ground arith
is_empty_iff (c ∷ s) = ground arith

pub text_eq_iff : (s t : Text) → (text_eq s t ≡ true) ↔ (s ≡ t)
text_eq_iff [] [] = ground arith
text_eq_iff (a ∷ s) (b ∷ t) = ground (arith, text_eq_iff s t)
text_eq_iff [] (b ∷ t) = ground arith
text_eq_iff (a ∷ s) [] = ground arith
