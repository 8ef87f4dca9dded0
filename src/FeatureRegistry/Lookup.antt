-- ===== src/FeatureRegistry/Lookup.antt =====
-- What `get` finds after `add` and `disable`.
use aws_iot_device_client.Base.{
  ◌≡◌, false, not, ◌&&◌, [], ◌∷◌, Option, Text, text_eq, text_eq_iff, arith, Bool-cases,
  if◌then◌else◌, inl, inr,
}
use aws_iot_device_client.FeatureRegistry.{Features, contains, get, insert, add}

module _ {F : Type 0} where
  get-insert :
      (m n : Text) (f : Option F) (r : Features F)
      → contains n r ≡ false
      → get m (insert n f r) ≡ (if text_eq m n then f else get m r)
  unfolding get insert contains
  get-insert m n f [] h = ground arith
  get-insert m n f ((k, g) ∷ r) h =
      ground (arith, get-insert m n f r, text_eq_iff m n, text_eq_iff m k, text_eq_iff n k)

  -- The first feature of a name stays: `add` gives the name its feature only where the registry
  -- does not list the name, be it with a feature or with a null pointer, and changes the answer of
  -- `get` for no other name.
  pub get-add :
      (m n : Text) (f : Option F) (r : Features F)
      → get m (add n f r) ≡ (if text_eq m n && not (contains n r) then f else get m r)
  unfolding add
  get-add m n f r = elim (Bool-cases (contains n r)) [
    | inl known ↦ ground (arith, known)
    | inr fresh ↦ ground (arith, fresh, get-insert m n f r fresh)
  ]
