-- ===== src/Base/Int.antt =====
-- The signed integers of the program (`int` codes), over the native numbers.
use Prim.Native.Nat.{ℕ, zero, suc, compare, Ordering}
use mathlib.Core.Path.{◌≡◌}
use mathlib.Core.Logic.{◌↔◌}
use mathlib.Core.Bool.{Bool, true, false}
use native.Mathlib.Omega.{arith}

-- `negsuc n` is -(n + 1).
pub data ℤ : Type 0 where
  pos : ℕ → ℤ
  negsuc : ℕ → ℤ

abbrev pub is_zero : ℤ → Bool
is_zero (pos zero) = true
is_zero (pos (suc n)) = false
is_zero (negsuc n) = false

abbrev pub int_eq : ℤ → ℤ → Bool
int_eq (pos m) (pos n) = elim (compare m n) [ Ordering.eq ↦ true | _ ↦ false ]
int_eq (pos m) (negsuc n) = false
int_eq (negsuc m) (pos n) = false
int_eq (negsuc m) (negsuc n) = elim (compare m n) [ Ordering.eq ↦ true | _ ↦ false ]

pub int_eq_iff : (a b : ℤ) → (int_eq a b ≡ true) ↔ (a ≡ b)
int_eq_iff (pos m) (pos n) = ground arith
int_eq_iff _ _ = ground arith

infix 50 ◌≤?ℤ◌
abbrev pub ◌≤?ℤ◌ : ℤ → ℤ → Bool
pos m ≤?ℤ pos n = elim (compare m n) [ Ordering.gt ↦ false | _ ↦ true ]
pos m ≤?ℤ negsuc n = false
negsuc m ≤?ℤ pos n = true
negsuc m ≤?ℤ negsuc n = elim (compare n m) [ Ordering.gt ↦ false | _ ↦ true ]
