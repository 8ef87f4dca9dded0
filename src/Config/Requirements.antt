-- ===== src/Config/Requirements.antt =====
-- What the tests of single settings mean.
use aws_iot_device_client.Base.{ℕ, ◌≤◌, ◌≡◌, ◌↔◌, refl, arith, Bool, true, false, ◌&&◌}
use aws_iot_device_client.Base.Int.{ℤ, pos, negsuc, ◌≤?ℤ◌}

pub both :
    {P Q : Type 0} (a b : Bool) → (a ≡ true) ↔ P → (b ≡ true) ↔ Q → ((a && b) ≡ true) ↔ (P × Q)
both true b p q = (λ h. (p.0 refl, q.0 h), λ (x, y). q.1 y)
both false b p q = (λ h. cc, λ (x, y). absurd (let e = p.1 x in cc))

abbrev pub AtLeast : ℕ → ℤ → Type 0
AtLeast m (pos n) = m ≤ n
AtLeast m (negsuc n) = ⊥

pub AtLeast-iff : (m : ℕ) (n : ℤ) → ((pos m ≤?ℤ n) ≡ true) ↔ AtLeast m n
AtLeast-iff m (pos n) = ground arith
AtLeast-iff m (negsuc n) = (λ h. cc, λ h. absurd h)
