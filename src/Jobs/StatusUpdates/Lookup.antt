-- ===== src/Jobs/StatusUpdates/Lookup.antt =====
-- What the operations on the map of promises do to the entry of one token.
use mathlib.Core.Option.{some-injective}
use aws_iot_device_client.Base.{
  ℕ, ◌≡◌, false, [], ◌∷◌, none, some, Text, text_eq, text_eq_iff, refl, sym, arith, Bool-cases,
  Option-cases, inl, inr,
}
use aws_iot_device_client.Jobs.StatusUpdates.{
  EphemeralPromise, Promises, UpdateResponse, is_expired, find, insert, erase, erase_expired,
  set_value,
}

pub find-erase_expired :
    (now : ℕ) (token : Text) (p : EphemeralPromise) (ps : Promises)
    → is_expired now p ≡ false
    → find token ps ≡ some p
    → find token (erase_expired now ps) ≡ some p
unfolding find erase_expired
find-erase_expired now token p [] h e = absurd (ground (arith, e))
find-erase_expired now token p ((other, q) ∷ ps) h e = elim (Bool-cases (text_eq token other)) [
  | inl same ↦ ground (arith, same, e, h)
  | inr differs ↦ ground (arith, differs, find-erase_expired now token p ps h)
]

pub find-erase_none :
    (now : ℕ) (token : Text) (ps : Promises)
    → find token ps ≡ none
    → find token (erase_expired now ps) ≡ none
unfolding find erase_expired
find-erase_none now token [] e = refl
find-erase_none now token ((other, q) ∷ ps) e = elim (Bool-cases (text_eq token other)) [
  | inl same ↦ absurd (ground (arith, same, e))
  | inr differs ↦ ground (arith, differs, e, find-erase_none now token ps)
]

pub find-insert :
    (token t : Text) (p : EphemeralPromise) (ps : Promises)
    → text_eq token t ≡ false
    → find token (insert t p ps) ≡ find token ps
unfolding find insert
find-insert token t p ps h = elim (Option-cases (find t ps)) [
  | inl fresh ↦ ground (arith, fresh, h)
  | inr (q, old) ↦ ground (arith, old)
]

pub find-erase :
    (token t : Text) (ps : Promises)
    → text_eq token t ≡ false
    → find token (erase t ps) ≡ find token ps
unfolding find erase
find-erase token t [] h = refl
find-erase token t ((other, q) ∷ ps) h = ground (
  arith,
  h,
  find-erase token t ps h,
  text_eq_iff token other,
  text_eq_iff t other,
  text_eq_iff token t,
)

pub find-insert_new :
    (token : Text) (p : EphemeralPromise) (ps : Promises)
    → find token ps ≡ none
    → find token (insert token p ps) ≡ some p
unfolding find insert
find-insert_new token p ps h = ground (arith, h, text_eq_iff token token)

pub find-set_value :
    (token t : Text) (v : UpdateResponse) (ps : Promises) {qs : Promises}
    → text_eq token t ≡ false
    → set_value t v ps ≡ some qs
    → find token qs ≡ find token ps
unfolding find set_value
find-set_value token t v [] h e = absurd (ground (arith, e))
find-set_value token t v ((other, p) ∷ ps) {qs} h e = elim (Bool-cases (text_eq t other)) [
  | inl same ↦ elim (Option-cases p.value) [
    | inl open_yet ↦
        let q : (other, record p { value = some v }) ∷ ps ≡ qs =
          some-injective _ _ (ground (arith, same, open_yet, e)) in
        rw (sym q) (
          ground
            (arith, h, same, text_eq_iff token other, text_eq_iff t other, text_eq_iff token t))
    | inr (u, done) ↦ absurd (ground (arith, same, done, e))
  ]
  | inr differs ↦ elim (Option-cases (set_value t v ps)) [
    | inl gone ↦ absurd (ground (arith, differs, gone, e))
    | inr (rs, found) ↦
        let q : (other, p) ∷ rs ≡ qs = some-injective _ _ (ground (arith, differs, found, e)) in
        let k = find-set_value token t v ps h found in rw (sym q) (ground (arith, k))
  ]
]

pub find-set_value_same :
    (token : Text) (v : UpdateResponse) (p : EphemeralPromise) (ps : Promises) {qs : Promises}
    → find token ps ≡ some p
    → set_value token v ps ≡ some qs
    → (p.value ≡ none) × (find token qs ≡ some (record p { value = some v }))
unfolding find set_value
find-set_value_same token v p [] f e = absurd (ground (arith, e))
find-set_value_same token v p ((other, q) ∷ ps) {qs} f e = elim (Bool-cases (text_eq token other)) [
  | inl same ↦ elim (Option-cases q.value) [
    | inl open_yet ↦
        let k : q ≡ p = some-injective _ _ (ground (arith, same, f)) in
        let r : (other, record q { value = some v }) ∷ ps ≡ qs =
          some-injective _ _ (ground (arith, same, open_yet, e)) in
        rw (sym k, sym r) (open_yet, ground (arith, same))
    | inr (u, done) ↦ absurd (ground (arith, same, done, e))
  ]
  | inr differs ↦ elim (Option-cases (set_value token v ps)) [
    | inl gone ↦ absurd (ground (arith, differs, gone, e))
    | inr (rs, found) ↦
        let r : (other, q) ∷ rs ≡ qs = some-injective _ _ (ground (arith, differs, found, e)) in
        let (k, l) = find-set_value_same token v p ps (ground (arith, differs, f)) found in
        (k, rw (sym r) (ground (arith, differs, l)))
  ]
]
