-- ===== src/Jobs/LimitedStreamBuffer/Contents.antt =====
-- What the buffer holds.
use mathlib.Core.List.{append-nil, append_assoc}
use native.Mathlib.Nat.{zero-add, suc-add}
use aws_iot_device_client.Base.{
  ◌⊎◌, ℕ, zero, suc, ◌+◌, ◌-◌, ◌^◌, ◌≤◌, ◌<◌, ◌≡◌, refl, sym, ◌∙◌, ap, List, [], ◌∷◌, ◌++◌, Option,
  some, ltb, length, drop, length-append, length-drop, arith, Bool-cases, inl, inr, ltb→lt, ltb→le,
}
use aws_iot_device_client.Jobs.LimitedStreamBuffer.{
  LimitedStreamBuffer, with_limit, push_back, add_string, flatten, to_string, add_all,
}
use aws_iot_device_client.Jobs.LimitedStreamBuffer.Eviction.{
  Evicted, drop-append, flatten-append, evict-Evicted,
}

-- `contentsSize` is the number of bytes held, and within the limit.
pub record Inv (b : LimitedStreamBuffer) : Type 0 where
  pub counted : b.contents_size ≡ length (flatten b.buffer)
  pub within : b.contents_size ≤ b.contents_size_limit
  pub representable : b.contents_size_limit < 2 ^ 63

-- What adding a value leaves: an invariant state with a suffix of the bytes, all of them where
-- they fit.
pub record Added (value : List ℕ) (b : LimitedStreamBuffer) (m : Option LimitedStreamBuffer)
    : Type 0 where
  pub result : LimitedStreamBuffer
  pub found : m ≡ some result
  pub valid : Inv result
  pub same_limit : result.contents_size_limit ≡ b.contents_size_limit
  pub dropped : ℕ
  pub suffix : to_string result ≡ drop dropped (to_string b ++ value)
  pub kept : (b.contents_size_limit < length (to_string b) + length value) ⊎ (dropped ≡ 0)

drop-prefix :
    {A : Type 0} (k : ℕ) (xs ys : List A) → k ≤ length xs → drop k xs ++ ys ≡ drop k (xs ++ ys)
drop-prefix zero xs ys h = refl
drop-prefix (suc k) [] ys h = absurd (omega arith)
drop-prefix (suc k) (x ∷ xs) ys h = drop-prefix k xs ys (omega arith)

flatten_snoc : (xs : List (List ℕ)) (v : List ℕ) → flatten (xs ++ v ∷ []) ≡ flatten xs ++ v
unfolding flatten
flatten_snoc xs v = flatten-append xs (v ∷ []) ∙ rw (append-nil v)

flatten_one : (v : List ℕ) → flatten (v ∷ []) ≡ v
unfolding flatten
flatten_one v = append-nil v

add_long :
    (value : List ℕ) (b : LimitedStreamBuffer)
    → Inv b
    → b.contents_size_limit < length value
    → Added value b (
        some (record b {
          buffer = drop (length value - b.contents_size_limit) value ∷ [];
          contents_size = b.contents_size_limit;
        }))
unfolding to_string
add_long value b v h =
    let excess : ℕ = length value - b.contents_size_limit in
    record {
      result = record b { buffer = drop excess value ∷ []; contents_size = b.contents_size_limit };
      found = refl;
      valid = record {
        counted = rw (flatten_one (drop excess value)) (omega (arith, length-drop excess value, h));
        within = omega arith;
        representable = v.representable;
      };
      same_limit = refl;
      dropped = length (flatten b.buffer) + excess;
      suffix = flatten_one (drop excess value) ∙ sym (drop-append (flatten b.buffer) value excess);
      kept = inl (omega (arith, h));
    }

add_short :
    (value : List ℕ) (b : LimitedStreamBuffer)
    → Inv b
    → length value ≤ b.contents_size_limit
    → (m : Option (List (List ℕ) × ℕ))
    → (w : Evicted b.contents_size_limit (length value) b.buffer m)
    → Added value b (some (push_back value b w.result))
unfolding to_string
add_short value b v h m w = record {
  result = push_back value b w.result;
  found = refl;
  valid = record {
    counted =
        rw (flatten_snoc w.result.0 value)
          (omega (arith, length-append (flatten w.result.0) value, w.counted, w.fits));
    within = omega (arith, w.fits);
    representable = v.representable;
  };
  same_limit = refl;
  dropped = w.dropped;
  suffix =
      flatten_snoc w.result.0 value
      ∙ rw w.suffix (drop-prefix w.dropped (flatten b.buffer) value w.within);
  kept = elim (Bool-cases (ltb b.contents_size_limit (length (to_string b) + length value))) [
    | inl over ↦ inl (ltb→lt _ _ over)
    | inr fits ↦ inr (w.kept (ltb→le _ _ fits))
  ];
}

-- Adding a value never reads the front of an empty deque, keeps `contentsSize` equal to the number
-- of bytes held and within the limit, and leaves a suffix of the bytes held before followed by the
-- value: all of them where they fit.
pub add_string-Added :
    (value : List ℕ) (b : LimitedStreamBuffer) → Inv b → Added value b (add_string value b)
unfolding add_string
add_string-Added value b v = elim (Bool-cases (ltb b.contents_size_limit (length value))) [
  | inl long ↦ rw long (add_long value b v (ltb→lt b.contents_size_limit (length value) long))
  | inr short ↦
      let h = ltb→le b.contents_size_limit (length value) short in
      let w =
        evict-Evicted b.contents_size_limit (length value) h v.representable b.buffer
          b.contents_size v.counted v.within in
      rw (short, w.found) (add_short value b v h _ w)
]

-- A buffer after some values: a suffix of what was added, all of it where it fits.
record Holds (history : List ℕ) (b : LimitedStreamBuffer) : Type 0 where
  valid : Inv b
  dropped : ℕ
  suffix : to_string b ≡ drop dropped history
  kept : length history ≤ b.contents_size_limit → dropped ≡ 0

drop-drop : {A : Type 0} (i j : ℕ) (xs : List A) → drop i (drop j xs) ≡ drop (j + i) xs
drop-drop i zero xs = rw zero-add
drop-drop zero (suc j) [] = rw suc-add
drop-drop (suc i) (suc j) [] = rw suc-add
drop-drop i (suc j) (x ∷ xs) = rw suc-add (drop-drop i j xs)

-- Dropping from the history and then appending drops from the longer history, unless all goes.
min_drop :
    {A : Type 0} (k : ℕ) (xs ys : List A)
    → (j : ℕ) × (drop k xs ++ ys ≡ drop j (xs ++ ys)) × (k ≡ 0 → j ≡ 0)
min_drop zero xs ys = (0, refl, λ _. refl)
min_drop (suc k) [] ys = (0, refl, λ _. refl)
min_drop (suc k) (x ∷ xs) ys =
    let (j, e, z) = min_drop k xs ys in (suc j, e, λ h. absurd (omega (arith, h)))

add-Holds :
    (history value : List ℕ) (b : LimitedStreamBuffer)
    → Holds history b
    → (c : LimitedStreamBuffer) × (add_string value b ≡ some c)
      × Holds (history ++ value) c
      × (c.contents_size_limit ≡ b.contents_size_limit)
add-Holds history value b v =
    let a = add_string-Added value b v.valid in
    let (j, e, z) = min_drop v.dropped history value in
    (
      a.result,
      a.found,
      record {
        valid = a.valid;
        dropped = j + a.dropped;
        suffix = a.suffix ∙ rw (v.suffix, e) (drop-drop a.dropped j (history ++ value));
        kept = λ q.
            let l = length-append history value in
            let all_before : v.dropped ≡ 0 = v.kept (omega (arith, l, q, a.same_limit)) in
            let same : to_string b ≡ history = v.suffix ∙ ap (λ n. drop n history) all_before in
            elim a.kept [
              | inl over ↦ absurd (omega (arith, l, q, a.same_limit, ap length same, over))
              | inr nothing ↦ omega (arith, z all_before, nothing)
            ];
      },
      a.same_limit,
    )

add_all-Holds :
    (values : List (List ℕ)) (history : List ℕ) (b : LimitedStreamBuffer)
    → Holds history b
    → (c : LimitedStreamBuffer) × (add_all values b ≡ some c)
      × Holds (history ++ flatten values) c
      × (c.contents_size_limit ≡ b.contents_size_limit)
unfolding add_all flatten
add_all-Holds [] history b v = (b, refl, rw (append-nil history) v, refl)
add_all-Holds (value ∷ values) history b v =
    let (c, e, w, l) = add-Holds history value b v in
    let (d, f, x, m) = add_all-Holds values (history ++ value) c w in
    (d, rw (e, add_all) f, rw (← append_assoc history value (flatten values)) x, m ∙ l)

with_limit-Holds : (limit : ℕ) → limit < 2 ^ 63 → Holds [] (with_limit limit)
unfolding with_limit to_string flatten
with_limit-Holds limit h = record {
  valid = record { counted = unfold flatten in refl; within = omega arith; representable = h };
  dropped = 0;
  suffix = refl;
  kept = λ _. refl;
}

to_string-length : (b : LimitedStreamBuffer) → Inv b → length (to_string b) ≤ b.contents_size_limit
unfolding to_string
to_string-length b v = omega (arith, v.counted, v.within)

with_limit-limit : (limit : ℕ) → (with_limit limit).contents_size_limit ≡ limit
unfolding with_limit
with_limit-limit limit = refl

-- Values added one after another to a new buffer: every addition returns; the buffer's text is a
-- suffix of all that was added, at most as long as the limit, and all of it where it fits.
pub add_all-suffix :
    (limit : ℕ) (values : List (List ℕ))
    → limit < 2 ^ 63
    → (b : LimitedStreamBuffer) × (add_all values (with_limit limit) ≡ some b)
      × (dropped : ℕ) × (to_string b ≡ drop dropped (flatten values))
      × (length (to_string b) ≤ limit)
      × ((limit < length (flatten values)) ⊎ (to_string b ≡ flatten values))
add_all-suffix limit values h =
    let (b, e, v, l) = add_all-Holds values [] (with_limit limit) (with_limit-Holds limit h) in
    let same : b.contents_size_limit ≡ limit = l ∙ with_limit-limit limit in
    (
      b,
      e,
      v.dropped,
      v.suffix,
      omega (arith, to_string-length b v.valid, same),
      elim (Bool-cases (ltb limit (length (flatten values)))) [
        | inl over ↦ inl (ltb→lt _ _ over)
        | inr fits ↦
            inr (v.suffix ∙ ap (λ n. drop n (flatten values)) (v.kept (rw same (ltb→le _ _ fits))))
      ],
    )
