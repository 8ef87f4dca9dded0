-- ===== src/FeatureRegistry/Stopping.antt =====
-- What stopAll and startAll do to each feature.
use aws_iot_device_client.Base.{◌≡◌, [], ◌∷◌, none, some, Text, arith, refl, length}
use aws_iot_device_client.FeatureRegistry.{
  Features, contains, get, count_active, get_size, prepend_active, stop_all, start_all,
}

module _ {F : Type 0} where
  stop-start : (r : Features F) → (stop_all r).0 ≡ start_all r
  unfolding stop_all start_all prepend_active
  stop-start [] = refl
  stop-start ((n, none) ∷ r) = ground (arith, stop-start r)
  stop-start ((n, some f) ∷ r) = ground (arith, stop-start r)

  size-start : (r : Features F) → get_size r ≡ length (start_all r)
  unfolding get_size count_active start_all prepend_active
  size-start [] = refl
  size-start ((n, none) ∷ r) = ground (arith, size-start r)
  size-start ((n, some f) ∷ r) = ground (arith, size-start r)

  size-stop : (r : Features F) → get_size (stop_all r).1 ≡ 0
  unfolding get_size count_active stop_all
  size-stop [] = refl
  size-stop ((n, f) ∷ r) = ground (arith, size-stop r)

  get-stop : (m : Text) (r : Features F) → get m (stop_all r).1 ≡ none
  unfolding get stop_all
  get-stop m [] = refl
  get-stop m ((n, f) ∷ r) = ground (arith, get-stop m r)

  contains-stop : (m : Text) (r : Features F) → contains m (stop_all r).1 ≡ contains m r
  unfolding contains stop_all
  contains-stop m [] = refl
  contains-stop m ((n, f) ∷ r) = ground (arith, contains-stop m r)

  -- stopAll stops exactly the features that startAll would start, in the same order, as many as
  -- getSize counts. Afterwards getSize is 0 and no name has a feature, but every name is still
  -- listed.
  pub stop_all_lem :
      (r : Features F) (m : Text)
      → ((stop_all r).0 ≡ start_all r)
        × (length (stop_all r).0 ≡ get_size r)
        × (get_size (stop_all r).1 ≡ 0)
        × (get m (stop_all r).1 ≡ none)
        × (contains m (stop_all r).1 ≡ contains m r)
  stop_all_lem r m = (
    stop-start r,
    ground (arith, stop-start r, size-start r),
    size-stop r,
    get-stop m r,
    contains-stop m r,
  )
