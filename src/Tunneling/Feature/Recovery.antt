-- ===== src/Tunneling/Feature/Recovery.antt =====
-- The recovery of the subscription goes on until it has succeeded.
use aws_iot_device_client.Base.{
  ℕ, zero, suc, ◌≡◌, refl, sym, ap, ◌∙◌, Bool, true, false, not, ◌&&◌, ◌||◌, List, [], ◌∷◌, ◌++◌,
  Option, none, some, Text, ◌==◌, ==_iff, any, arith, Option-cases, ap₂, inl, inr,
}
use aws_iot_device_client.Base.Int.{ℤ}
use aws_iot_device_client.Tunneling.Feature.{
  Feature, new_feature, start, stop, run_secure_tunneling, on_connection_resumed,
  subscription_failed, on_subscribe_complete, request_subscription_recovery_retry,
  retry_subscription_recovery,
}
use aws_iot_device_client.Tunneling.Feature.Machine.{
  Pending, subscribing, subscribed, retry_wanted, retry_scheduled, running, Machine, Event, started,
  stopped, resumed, acted, act, pick, act_on, step, run, initial,
}

-- A step of the recovery that the present generation has still to take.
abbrev pub recovers : ℕ → Pending → Bool
recovers g (subscribing true h) = h == g
recovers g (subscribing false h) = false
recovers g (subscribed true h) = h == g
recovers g (subscribed false h) = false
recovers g (retry_wanted h) = h == g
recovers g (retry_scheduled h) = h == g
recovers g running = false

-- What only a feature with a client has pending.
abbrev pub uses_client : Pending → Bool
uses_client running = false
uses_client (subscribing is_recovery g) = true
uses_client (subscribed is_recovery g) = true
uses_client (retry_wanted g) = true
uses_client (retry_scheduled g) = true

-- Where recovery is needed, the feature can do it, and it is under way.
abbrev Holds : Feature → Bool → Bool → Type 0
Holds f under_way in_use =
    ((f.subscription_needs_recovery && not f.started) ≡ false)
    × ((f.subscription_needs_recovery && not f.client) ≡ false)
    × ((in_use && not f.client) ≡ false)
    × (f.subscribe_notification ≡ true)
    × ((f.subscription_needs_recovery && not under_way) ≡ false)

any-append : (p : Pending → Bool) (xs ys : List Pending) → any p (xs ++ ys) ≡ (any p xs || any p ys)
any-append p [] ys = refl
any-append p (x ∷ xs) ys = ground (arith, any-append p xs ys)

abbrev HoldsAfter : Feature × List Pending → List Pending → Type 0
HoldsAfter (f, more) ps =
    Holds f (any (recovers f.connection_recovery_generation) (more ++ ps))
      (any uses_client (more ++ ps))

self : (g : ℕ) → (g == g) ≡ true
self g = (==_iff g g).1 refl

act-Holds :
    (p : Pending) (queued : Bool) (io_err : ℤ) (f : Feature) (ps : List Pending)
    → Holds f
        (recovers f.connection_recovery_generation p
          || any (recovers f.connection_recovery_generation) ps)
        (uses_client p || any uses_client ps)
    → HoldsAfter (act p queued io_err f) ps
unfolding act subscription_failed on_subscribe_complete request_subscription_recovery_retry
    retry_subscription_recovery run_secure_tunneling
act-Holds (subscribing true g) true io_err f ps v = ground (arith, v)
act-Holds (subscribing false g) true io_err f ps v = ground (arith, v)
act-Holds (subscribing true g) false io_err f ps v = ground (arith, v)
act-Holds (subscribing false g) false io_err f ps v = ground (arith, v)
act-Holds (subscribed true g) queued io_err f ps v = ground (arith, v)
act-Holds (subscribed false g) queued io_err f ps v = ground (arith, v)
act-Holds (retry_wanted g) queued io_err f ps v = ground (arith, v)
act-Holds (retry_scheduled g) queued io_err f ps v = ground (arith, v)
act-Holds running queued io_err f ps v = ground (arith, v)

any-first :
    (f : Pending → Bool) (x : Pending) (xs : List Pending) → any f (x ∷ xs) ≡ (f x || any f xs)
any-first f x xs = ground arith

some_injective : (x y : Pending × List Pending) → some x ≡ some y → x ≡ y
some_injective x y h = cc h

picked : (x y : Pending × List Pending) → some x ≡ some y → (x.0 ≡ y.0) × (x.1 ≡ y.1)
picked x y h = let e = some_injective x y h in (ap (λ z. z.0) e, ap (λ z. z.1) e)

swap : (a b c : Bool) → (a || (b || c)) ≡ (b || (a || c))
swap a b c = ground arith

-- What holds of a whole is found in the action that is picked, or in the others.
pick-any :
    (f : Pending → Bool) (n : ℕ) (ps qs : List Pending) (p : Pending)
    → pick n ps ≡ some (p, qs)
    → any f ps ≡ (f p || any f qs)
pick-any f n [] qs p h = absurd (ground (arith, h))
pick-any f zero (x ∷ ps) qs p h =
    let (e, k) = picked (x, ps) (p, qs) h in rw (e, k) (any-first f p qs)
pick-any f (suc n) (x ∷ ps) qs p h = elim (Option-cases (pick n ps)) [
  | inl none_left ↦ absurd (ground (arith, rw none_left at h))
  | inr ((q, rest), found) ↦
      let (e, k) = picked (q, x ∷ rest) (p, qs) (rw found at h) in
      any-first f x ps
      ∙ (ap (λ b. f x || b) (pick-any f n ps rest q found)
          ∙ (swap (f x) (f q) (any f rest)
              ∙ (ap (λ b. f q || b) (sym (any-first f x rest)) ∙ ap₂ (λ a l. f a || any f l) e k)))
]

abbrev Inv : Machine → Type 0
Inv m = HoldsAfter (m.feature, []) m.pending

act_on-Inv :
    (o : Option (Pending × List Pending)) (n : ℕ) (queued : Bool) (io_err : ℤ) (m : Machine)
    → pick n m.pending ≡ o
    → Inv m
    → Inv (act_on o queued io_err m)
act_on-Inv none n queued io_err m e v = v
act_on-Inv (some (p, ps)) n queued io_err m e v = act-Holds p queued io_err m.feature ps (
    rw
      (
        ← pick-any (recovers m.feature.connection_recovery_generation) n m.pending ps p e,
        ← pick-any uses_client n m.pending ps p e,
      )
      v)

step-Inv : (e : Event) (m : Machine) → Inv m → Inv (step e m)
unfolding step start stop on_connection_resumed
step-Inv started m v = ground (arith, v)
step-Inv stopped m v = ground (arith, v)
step-Inv (resumed session_present) m v = ground (arith, v)
step-Inv (acted n queued io_err) m v = act_on-Inv (pick n m.pending) n queued io_err m refl v

run-Inv : (es : List Event) (m : Machine) → Inv m → Inv (run es m)
unfolding run
run-Inv [] m v = v
run-Inv (e ∷ es) m v = run-Inv es (step e m) (step-Inv e m v)

-- Over any sequence of starts, stops, resumptions of the MQTT connection, answers and timers, in
-- any order: while the feature records that its subscription needs recovery, it is started and has
-- a client, and a step of the present generation is still to come that subscribes again, or that
-- retries it.
pub recovery_not_lost :
    (endpoint : Option Text) (es : List Event)
    → (run es (initial endpoint)).feature.subscription_needs_recovery ≡ true
    → let m = run es (initial endpoint) in
      (m.feature.started ≡ true)
      × (m.feature.client ≡ true)
      × (any (recovers m.feature.connection_recovery_generation) m.pending ≡ true)
unfolding initial new_feature
recovery_not_lost endpoint es needs =
    ground (arith, run-Inv es (initial endpoint) (ground arith), needs)
