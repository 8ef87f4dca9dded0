-- ===== src/Jobs/StatusUpdates/Answers.antt =====
-- Answers whose token has no promise in the map, as when its attempt has timed out.
use aws_iot_device_client.Base.{
  ◌≡◌, true, [], ◌∷◌, none, some, Text, text_eq, refl, arith, Bool-cases, inl, inr,
}
use aws_iot_device_client.Base.Int.{ℤ, is_zero}
use aws_iot_device_client.Jobs.StatusUpdates.{
  Promises, UpdateResponse, RejectedErrorCode, response_code, find, set_value, accepted_handler,
  rejected_handler,
}

set_value-absent :
    (token : Text) (v : UpdateResponse) (ps : Promises)
    → find token ps ≡ none
    → set_value token v ps ≡ none
unfolding find set_value
set_value-absent token v [] h = refl
set_value-absent token v ((other, p) ∷ ps) h = elim (Bool-cases (text_eq token other)) [
  | inl same ↦ absurd (ground (arith, same, h))
  | inr differs ↦ ground (arith, differs, h, set_value-absent token v ps)
]

-- A late answer, whose token has no promise left, is ignored when the service accepted the update.
-- When the service rejected it, the handler logs the missing promise but does not return: it goes on
-- to `at`, which throws.
pub late_answers :
    (token : Text) (code : RejectedErrorCode) (io_error : ℤ) (ps : Promises)
    → is_zero io_error ≡ true
    → find token ps ≡ none
    → (accepted_handler (some token) io_error ps ≡ some ps)
      × (rejected_handler
            (some (record { client_token = some token; code = some code }))
            io_error
            ps
          ≡ none)
unfolding accepted_handler rejected_handler
late_answers token code io_error ps z h =
    (ground (arith, z, h), ground (arith, z, set_value-absent token (response_code code) ps h))
