-- ===== src/Jobs/LimitedStreamBuffer/Eviction.antt =====
-- The loop that makes room for a value.
use mathlib.Core.List.{append_assoc}
use native.Mathlib.Nat.{zero-add, suc-add}
use aws_iot_device_client.Base.{
  ℕ, ◌+◌, ◌-◌, ◌^◌, ◌≤◌, ◌<◌, ◌≡◌, refl, sym, ◌∙◌, List, [], ◌∷◌, ◌++◌, Option, some, ltb, length,
  drop, length-append, arith, Bool-cases, inl, inr, ltb→lt, ltb→le,
}
use aws_iot_device_client.Jobs.LimitedStreamBuffer.{size_add, size_sub, evict, flatten}

pub drop-append :
    {A : Type 0} (xs ys : List A) (k : ℕ) → drop (length xs + k) (xs ++ ys) ≡ drop k ys
drop-append [] ys k = rw zero-add
drop-append (x ∷ xs) ys k = rw suc-add (drop-append xs ys k)

pub flatten-append : (xs ys : List (List ℕ)) → flatten (xs ++ ys) ≡ flatten xs ++ flatten ys
unfolding flatten
flatten-append [] ys = refl
flatten-append (x ∷ xs) ys =
    rw (flatten-append xs ys) (sym (append_assoc x (flatten xs) (flatten ys)))

-- Where the value fits the limit, the loop ends with a suffix of the bytes, after which the value
-- fits; nothing is dropped if it fitted before.
pub record Evicted (limit size : ℕ) (chunks : List (List ℕ)) (m : Option (List (List ℕ) × ℕ))
    : Type 0 where
  pub result : List (List ℕ) × ℕ
  pub found : m ≡ some result
  pub dropped : ℕ
  pub suffix : flatten result.0 ≡ drop dropped (flatten chunks)
  pub counted : result.1 ≡ length (flatten result.0)
  pub fits : result.1 + size ≤ limit
  pub within : dropped ≤ length (flatten chunks)
  pub kept : length (flatten chunks) + size ≤ limit → dropped ≡ 0

stays :
    (limit size n : ℕ) (chunks : List (List ℕ))
    → n ≡ length (flatten chunks)
    → n + size ≤ limit
    → Evicted limit size chunks (some (chunks, n))
stays limit size n chunks e h = record {
  result = (chunks, n);
  found = refl;
  dropped = 0;
  suffix = refl;
  counted = e;
  fits = h;
  within = omega arith;
  kept = λ _. refl;
}

drops :
    (limit size n : ℕ) (x : List ℕ) (xs : List (List ℕ)) (m : Option (List (List ℕ) × ℕ))
    → n ≡ length (flatten (x ∷ xs))
    → limit < n + size
    → Evicted limit size xs m
    → Evicted limit size (x ∷ xs) m
unfolding flatten
drops limit size n x xs m e over v = record {
  result = v.result;
  found = v.found;
  dropped = length x + v.dropped;
  suffix = v.suffix ∙ sym (drop-append x (flatten xs) v.dropped);
  counted = v.counted;
  fits = v.fits;
  within = omega (arith, length-append x (flatten xs), v.within);
  kept = λ h. absurd (omega (arith, e, h, over));
}

pub length-flatten_cons :
    (x : List ℕ) (xs : List (List ℕ)) → length (flatten (x ∷ xs)) ≡ length x + length (flatten xs)
unfolding flatten
length-flatten_cons x xs = length-append x (flatten xs)

length-flatten_nil : length (flatten []) ≡ 0
unfolding flatten
length-flatten_nil = refl

pub size_add_lem : (a b : ℕ) → a < 2 ^ 63 → b < 2 ^ 63 → size_add a b ≡ a + b
size_add_lem a b h k = omega arith

size_sub_lem : (a b : ℕ) → b ≤ a → a < 2 ^ 63 → size_sub a b ≡ a - b
size_sub_lem a b h k = omega arith

module _ (limit size : ℕ) (k : size ≤ limit) (r : limit < 2 ^ 63) where
  pub evict-Evicted :
      (chunks : List (List ℕ)) (n : ℕ)
      → n ≡ length (flatten chunks)
      → n ≤ limit
      → Evicted limit size chunks (evict limit size chunks n)
  unfolding evict
  evict-Evicted [] n e h = elim (Bool-cases (ltb limit (size_add n size))) [
    | inl over ↦ absurd (omega (arith, ltb→lt limit (size_add n size) over, length-flatten_nil, e))
    | inr under ↦
        rw under (stays limit size n [] e (omega (arith, ltb→le limit (size_add n size) under)))
  ]
  evict-Evicted (x ∷ xs) n e h = elim (Bool-cases (ltb limit (size_add n size))) [
    | inl over ↦
        let total : n ≡ length x + length (flatten xs) = e ∙ length-flatten_cons x xs in
        rw over (
          drops limit size n x xs _ e (omega (arith, ltb→lt limit (size_add n size) over)) (
            evict-Evicted xs (size_sub n (length x)) (omega (arith, total)) (omega (arith, total))))
    | inr under ↦
        rw under
          (stays limit size n (x ∷ xs) e (omega (arith, ltb→le limit (size_add n size) under)))
  ]
