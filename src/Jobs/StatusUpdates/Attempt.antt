-- ===== src/Jobs/StatusUpdates/Attempt.antt =====
-- One attempt to publish a status update, while the MQTT client's thread delivers answers and the
-- threads of other updates make their own attempts.
use mathlib.Core.Option.{some-injective}
use aws_iot_device_client.Base.{
  ℕ, ◌+◌, ◌*◌, ◌<◌, ◌≡◌, false, List, [], ◌∷◌, Option, none, some, Text, text_eq, text_eq_iff, refl,
  sym, ◌∙◌, arith, All, Bool-cases, Option-cases, inl, inr, if◌then◌else◌,
}
use aws_iot_device_client.Base.Int.{ℤ, is_zero}
use aws_iot_device_client.Jobs.StatusUpdates.{
  EphemeralPromise, Promises, UpdateResponse, accepted, RejectedError, response_code, is_finished,
  find, erase, set_value, accepted_handler, rejected_handler, begin_attempt, end_attempt,
}
use aws_iot_device_client.Jobs.StatusUpdates.Lookup.{
  find-erase_expired, find-erase_none, find-insert, find-erase, find-insert_new, find-set_value,
  find-set_value_same,
}

pub data Event : Type 0 where
  was_accepted : Option Text → ℤ → Event
  was_rejected : Option RejectedError → ℤ → Event
  other_begun : ℕ → Text → Event
  other_ended : Text → Event

abbrev pub handle : Event → Promises → Option Promises
handle (was_accepted token io_error) ps = accepted_handler token io_error ps
handle (was_rejected error io_error) ps = rejected_handler error io_error ps
handle (other_begun now token) ps = some (begin_attempt now token ps)
handle (other_ended token) ps = elim (end_attempt token ps) [
  | none ↦ none
  | some (finished, qs) ↦ some qs
]

-- `none` when a handler throws.
abbrev pub run : List Event → Promises → Option Promises
run [] ps = some ps
run (e ∷ es) ps = elim (handle e ps) [ none ↦ none | some qs ↦ run es qs ]

-- The other attempts have tokens of their own, and begin within 15 seconds of this one.
abbrev pub Quiet : ℕ → Text → Event → Type 0
Quiet start token (was_accepted t io_error) = Unit
Quiet start token (was_rejected error io_error) = Unit
Quiet start token (other_begun now t) = (now < start + 15000) × (text_eq token t ≡ false)
Quiet start token (other_ended t) = text_eq token t ≡ false

abbrev pub to : Text → Text → UpdateResponse → Option UpdateResponse
to token t v = if text_eq token t then some v else none

-- What an event answers to the attempt with that token, if it does.
abbrev pub response : Text → Event → Option UpdateResponse
response token (was_accepted none io_error) = none
response token (was_accepted (some t) io_error) =
    if is_zero io_error then to token t accepted else none
response token (was_rejected none io_error) = none
response token (was_rejected (some e) io_error) =
    if is_zero io_error
    then elim e.client_token [
      | none ↦ none
      | some t ↦ elim e.code [ none ↦ none | some code ↦ to token t (response_code code) ]
    ]
    else none
response token (other_begun now t) = none
response token (other_ended t) = none

abbrev pub or_else : Option UpdateResponse → Option UpdateResponse → Option UpdateResponse
or_else none w = w
or_else (some v) w = some v

-- The first answer to that token.
abbrev pub answer : Text → List Event → Option UpdateResponse
answer token [] = none
answer token (e ∷ es) = or_else (response token e) (answer token es)

abbrev pending : ℕ → Option UpdateResponse → EphemeralPromise
pending start v = record { ttl_millis = 15 * 1000; creation_time = start; value = v }

module _ (start : ℕ) (token : Text) where
  abbrev Holds : Option UpdateResponse → Promises → Type 0
  Holds v ps = find token ps ≡ some (pending start v)

  or_else-none : (v : Option UpdateResponse) → or_else v none ≡ v
  or_else-none none = refl
  or_else-none (some v) = refl

  or_else_assoc :
      (u v w : Option UpdateResponse) → or_else (or_else u v) w ≡ or_else u (or_else v w)
  or_else_assoc none v w = refl
  or_else_assoc (some u) v w = refl

  same-Holds :
      (v : Option UpdateResponse) (ps : Promises) {qs : Promises}
      → Option.some ps ≡ some qs
      → Holds v ps
      → Holds (or_else v none) qs
  same-Holds v ps e f = rw (sym (some-injective _ _ e), or_else-none v) f

  set-Holds :
      (t : Text) (u : UpdateResponse) (v : Option UpdateResponse) (ps : Promises) {qs : Promises}
      → set_value t u ps ≡ some qs
      → Holds v ps
      → Holds (or_else v (to token t u)) qs
  set-Holds t u v ps e f = elim (Bool-cases (text_eq token t)) [
    | inl same ↦
        let (k, l) =
          find-set_value_same token u _ ps f (rw (sym ((text_eq_iff token t).0 same)) at e) in
        rw (k, same) l
    | inr differs ↦ rw (differs, or_else-none v) (find-set_value token t u ps differs e ∙ f)
  ]

  accepted-Holds :
      (t : Text) (io_error : ℤ) (v : Option UpdateResponse) (ps : Promises) {qs : Promises}
      → accepted_handler (some t) io_error ps ≡ some qs
      → Holds v ps
      → Holds (or_else v (response token (was_accepted (some t) io_error))) qs
  unfolding accepted_handler
  accepted-Holds t io_error v ps {qs} e f = elim (Bool-cases (is_zero io_error)) [
    | inl fine ↦ elim (Option-cases (find t ps)) [
      | inl gone ↦ elim (Bool-cases (text_eq token t)) [
        | inl same ↦ absurd (ground (arith, f, gone, (text_eq_iff token t).0 same))
        | inr differs ↦ rw (fine, differs) (same-Holds v ps (ground (arith, fine, gone, e)) f)
      ]
      | inr (p, found) ↦ rw fine (set-Holds t accepted v ps (ground (arith, fine, found, e)) f)
    ]
    | inr bad ↦ rw bad (same-Holds v ps (ground (arith, bad, e)) f)
  ]

  begun-Holds :
      (now : ℕ) (t : Text) (v : Option UpdateResponse) (ps : Promises)
      → now < start + 15000
      → text_eq token t ≡ false
      → Holds v ps
      → Holds v (begin_attempt now t ps)
  unfolding begin_attempt
  begun-Holds now t v ps h k f =
      find-insert token t _ _ k
      ∙ find-erase_expired now token (pending start v) ps (ground (arith, h)) f

  ended-Holds :
      (t : Text) (v : Option UpdateResponse) (ps : Promises) {qs : Promises}
      → text_eq token t ≡ false
      → handle (other_ended t) ps ≡ some qs
      → Holds v ps
      → Holds v qs
  unfolding end_attempt
  ended-Holds t v ps {qs} k e f = elim (Option-cases (find t ps)) [
    | inl gone ↦ absurd (ground (arith, gone, e))
    | inr (p, found) ↦
        let q : erase t ps ≡ qs = some-injective _ _ (ground (arith, found, e)) in
        rw (sym q) (find-erase token t ps k ∙ f)
  ]

  rejected-Holds :
      (error : RejectedError) (io_error : ℤ) (v : Option UpdateResponse) (ps : Promises)
      {qs : Promises}
      → rejected_handler (some error) io_error ps ≡ some qs
      → Holds v ps
      → Holds (or_else v (response token (was_rejected (some error) io_error))) qs
  unfolding rejected_handler
  rejected-Holds error io_error v ps e f = elim (Bool-cases (is_zero io_error)) [
    | inl fine ↦ elim (Option-cases error.client_token) [
      | inl gone ↦ rw (fine, gone) (same-Holds v ps (ground (arith, fine, gone, e)) f)
      | inr (t, found) ↦ elim (Option-cases error.code) [
        | inl none_given ↦ absurd (ground (arith, fine, found, none_given, e))
        | inr (code, given) ↦
            rw (fine, found, given)
              (set-Holds t (response_code code) v ps (ground (arith, fine, found, given, e)) f)
      ]
    ]
    | inr bad ↦ rw bad (same-Holds v ps (ground (arith, bad, e)) f)
  ]

  no_token :
      (io_error : ℤ) (ps : Promises) {qs : Promises}
      → accepted_handler none io_error ps ≡ some qs
      → Option.some ps ≡ some qs
  unfolding accepted_handler
  no_token io_error ps e = ground (arith, e)

  no_error :
      (io_error : ℤ) (ps : Promises) {qs : Promises}
      → rejected_handler none io_error ps ≡ some qs
      → Option.some ps ≡ some qs
  unfolding rejected_handler
  no_error io_error ps e = ground (arith, e)

  handle-Holds :
      (e : Event) (v : Option UpdateResponse) (ps : Promises) {qs : Promises}
      → Quiet start token e
      → handle e ps ≡ some qs
      → Holds v ps
      → Holds (or_else v (response token e)) qs
  handle-Holds (was_accepted none io_error) v ps k e f = same-Holds v ps (no_token io_error ps e) f
  handle-Holds (was_accepted (some t) io_error) v ps k e f = accepted-Holds t io_error v ps e f
  handle-Holds (was_rejected none io_error) v ps k e f = same-Holds v ps (no_error io_error ps e) f
  handle-Holds (was_rejected (some error) io_error) v ps k e f =
      rejected-Holds error io_error v ps e f
  handle-Holds (other_begun now t) v ps (h, k) e f =
      rw (or_else-none v, sym (some-injective _ _ e)) (begun-Holds now t v ps h k f)
  handle-Holds (other_ended t) v ps k e f = rw (or_else-none v) (ended-Holds t v ps k e f)

  fresh_lem : (ps : Promises) → find token ps ≡ none → Holds none (begin_attempt start token ps)
  unfolding begin_attempt
  fresh_lem ps h = find-insert_new token _ _ (find-erase_none start token ps h)

  run-Holds :
      (es : List Event) (v : Option UpdateResponse) (ps : Promises) {qs : Promises}
      → All (Quiet start token) es
      → run es ps ≡ some qs
      → Holds v ps
      → Holds (or_else v (answer token es)) qs
  run-Holds [] v ps k e f = same-Holds v ps e f
  run-Holds (event ∷ es) v ps (now, later) e f = elim (Option-cases (handle event ps)) [
    | inl threw ↦ absurd (ground (arith, threw, e))
    | inr (rs, found) ↦
        rw (sym (or_else_assoc v (response token event) (answer token es)))
          (run-Holds es _ rs later (ground (arith, found, e)) (handle-Holds event v ps now found f))
  ]

  -- An attempt whose token is new reports success or a lasting error exactly when the first answer
  -- to its token, among the events up to the end of its wait, is an acceptance or a rejection that
  -- is not worth retrying. It takes its own promise out of the map, and no other attempt that
  -- begins within 15 seconds removes that promise earlier. Conditions: no handler threw meanwhile,
  -- and the other attempts have other tokens.
  pub attempt_lem :
      (es : List Event) (ps : Promises) {qs : Promises}
      → find token ps ≡ none
      → All (Quiet start token) es
      → run es (begin_attempt start token ps) ≡ some qs
      → end_attempt token qs ≡ some (is_finished (answer token es), erase token qs)
  unfolding end_attempt
  attempt_lem es ps {qs} fresh k e =
      ground (arith, run-Holds es none (begin_attempt start token ps) k e (fresh_lem ps fresh))
