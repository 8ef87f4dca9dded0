-- ===== src/Jobs/Recovery/Masks.antt =====
-- The bits of completedRecoverySubscriptionMask.
use Prim.Native.Nat.{bit_and, bit_or}
use aws_iot_device_client.Base.{
  ℕ, zero, suc, ◌+◌, ◌<◌, ◌≡◌, refl, Bool, true, false, not, ◌||◌, ◌&&◌, ◌==◌, ltb, ltb→lt, arith,
  List, [], ◌∷◌, all, Bool-cases, inl, inr, ==_iff,
}
use aws_iot_device_client.Jobs.Recovery.{
  Subscription, start_next_accepted, start_next_rejected, next_job_changed, update_job_accepted,
  update_job_rejected, subscription_mask,
}

-- Whether a mask has the bit of a subscription, and how many of the five it has.
abbrev pub has : ℕ → Subscription → Bool
has mask sub = not (bit_and mask (subscription_mask sub) == 0)

abbrev bit_count : Bool → ℕ
bit_count true = 1
bit_count false = 0

unfoldable pub count : ℕ → ℕ
count mask =
    bit_count (has mask start_next_accepted)
    + bit_count (has mask start_next_rejected)
    + bit_count (has mask next_job_changed)
    + bit_count (has mask update_job_accepted)
    + bit_count (has mask update_job_rejected)

-- The masks below a limit, from the highest.
masks : ℕ → List ℕ
masks zero = []
masks (suc top) = top ∷ masks top

-- What a test finds of each mask holds of any.
each_mask :
    (test : ℕ → Bool) (limit : ℕ) {mask : ℕ}
    → mask < limit
    → all test (masks limit) ≡ true
    → test mask ≡ true
unfolding masks
each_mask test zero below found = absurd (omega arith)
each_mask test (suc top) {mask} below found = elim (Bool-cases (mask == top)) [
  | inl same ↦ ground (arith, found, (==_iff mask top).0 same)
  | inr other ↦ each_mask test top (ground (arith, below, other)) (ground (arith, found))
]

-- A bit that is not set is set by `|=`, and the count grows by one.
adds_one : Subscription → ℕ → Bool
unfolding count
adds_one sub m = has m sub || (count (bit_or m (subscription_mask sub)) == count m + 1)

adds_one_table : (sub : Subscription) → all (adds_one sub) (masks 32) ≡ true
unfolding masks adds_one
adds_one_table start_next_accepted = refl
adds_one_table start_next_rejected = refl
adds_one_table next_job_changed = refl
adds_one_table update_job_accepted = refl
adds_one_table update_job_rejected = refl

stays_below : Subscription → ℕ → Bool
stays_below sub m = ltb (bit_or m (subscription_mask sub)) 32

stays_below_table : (sub : Subscription) → all (stays_below sub) (masks 32) ≡ true
unfolding masks stays_below
stays_below_table start_next_accepted = refl
stays_below_table start_next_rejected = refl
stays_below_table next_job_changed = refl
stays_below_table update_job_accepted = refl
stays_below_table update_job_rejected = refl

abbrev index : Subscription → ℕ
index start_next_accepted = 0
index start_next_rejected = 1
index next_job_changed = 2
index update_job_accepted = 3
index update_job_rejected = 4

abbrev pub same : Subscription → Subscription → Bool
same a b = index a == index b

bool_eq : Bool → Bool → Bool
bool_eq true b = b
bool_eq false b = not b

bool_eq_sound : (a b : Bool) → bool_eq a b ≡ true → a ≡ b
unfolding bool_eq
bool_eq_sound true b h = ground arith
bool_eq_sound false b h = ground arith

-- Setting a bit sets it and touches no other.
sets : Subscription → Subscription → ℕ → Bool
unfolding bool_eq
sets sub other m =
    bool_eq (has (bit_or m (subscription_mask sub)) other) (same sub other || has m other)

sets_each : Subscription → ℕ → Bool
unfolding sets
sets_each sub m =
    sets sub start_next_accepted m
    && sets sub start_next_rejected m
    && sets sub next_job_changed m
    && sets sub update_job_accepted m
    && sets sub update_job_rejected m

sets_table : (sub : Subscription) → all (sets_each sub) (masks 32) ≡ true
unfolding masks sets_each
sets_table start_next_accepted = refl
sets_table start_next_rejected = refl
sets_table next_job_changed = refl
sets_table update_job_accepted = refl
sets_table update_job_rejected = refl

pub count-or :
    (sub : Subscription) (m : ℕ)
    → m < 32
    → has m sub ≡ false
    → count (bit_or m (subscription_mask sub)) ≡ count m + 1
unfolding adds_one
count-or sub m h free = ground (arith, each_mask (adds_one sub) 32 h (adds_one_table sub))

pub or-lt : (sub : Subscription) (m : ℕ) → m < 32 → bit_or m (subscription_mask sub) < 32
unfolding stays_below
or-lt sub m h = ltb→lt _ 32 (each_mask (stays_below sub) 32 h (stays_below_table sub))

sets_other : (sub other : Subscription) (m : ℕ) → m < 32 → sets sub other m ≡ true
unfolding sets_each
sets_other sub start_next_accepted m h =
    ground (arith, each_mask (sets_each sub) 32 h (sets_table sub))
sets_other sub _ m h = ground (arith, each_mask (sets_each sub) 32 h (sets_table sub))

pub has-or :
    (sub other : Subscription) (m : ℕ)
    → m < 32
    → has (bit_or m (subscription_mask sub)) other ≡ (same sub other || has m other)
unfolding sets
has-or sub other m h = bool_eq_sound _ _ (sets_other sub other m h)
