-- ===== src/LogQueue/Delivery.antt =====
-- What the consumer of the log queue receives.
use aws_iot_device_client.Base.{
  ◌≡◌, ◌≢◌, Bool, true, false, List, [], ◌∷◌, ◌++◌, Option, none, some, refl, sym, ap, ◌∙◌, arith,
}
use mathlib.Core.List.{append_assoc, append-nil}
use aws_iot_device_client.LogQueue.{LogQueue, add_log, get_next_log, next_of, shutdown}

pub data Event (M : Type 0) : Type 0 where
  logged : M → Event M
  asked : Event M
  shut : Event M

module _ {M : Type 0} where
  abbrev pub answered : Option (Option M × LogQueue M) → LogQueue M → List (Option M) × LogQueue M
  answered none q = ([], q)
  answered (some (m, r)) q = (m ∷ [], r)

  abbrev pub step : Event M → LogQueue M → List (Option M) × LogQueue M
  step (logged m) q = ([], add_log m q)
  step asked q = answered (get_next_log q) q
  step shut q = ([], shutdown q)

  -- What getNextLog returns over a sequence of critical sections, and the queue they leave.
  abbrev pub run : List (Event M) → LogQueue M → List (Option M) × LogQueue M
  run [] q = ([], q)
  run (e ∷ es) q =
      let (first, r) = step e q in let (rest, final) = run es r in (first ++ rest, final)

  abbrev pub messages : List (Event M) → List (Option M)
  messages [] = []
  messages (logged m ∷ es) = some m ∷ messages es
  messages (asked ∷ es) = messages es
  messages (shut ∷ es) = messages es

  abbrev pub never_shut : List (Event M) → Bool
  never_shut [] = true
  never_shut (logged m ∷ es) = never_shut es
  never_shut (asked ∷ es) = never_shut es
  never_shut (shut ∷ es) = false

  next-open :
      (ms : List (Option M)) (q : LogQueue M)
      → q.log_queue ≡ ms
      → q.is_shutdown ≡ false
      → let (ns, r) = answered (next_of ms q) q in
        (ns ++ r.log_queue ≡ q.log_queue ++ []) × (r.is_shutdown ≡ false)
  unfolding next_of
  next-open [] q same h = ground (arith, h, same)
  next-open (m ∷ rest) q same h = ground (arith, append-nil rest, h, same)

  next-shutdown :
      (ms : List (Option M)) (q : LogQueue M)
      → q.is_shutdown ≡ true
      → (next_of ms q ≢ none) × ((answered (next_of ms q) q).1.is_shutdown ≡ true)
  unfolding next_of
  next-shutdown [] q h = ground (arith, h)
  next-shutdown (m ∷ rest) q h = ground (arith, h)

  step-open :
      (e : Event M) (q : LogQueue M)
      → never_shut (e ∷ []) ≡ true
      → q.is_shutdown ≡ false
      → ((step e q).0 ++ (step e q).1.log_queue ≡ q.log_queue ++ messages (e ∷ []))
        × ((step e q).1.is_shutdown ≡ false)
  unfolding add_log get_next_log
  step-open (logged m) q n h = (refl, h)
  step-open asked q n h = next-open q.log_queue q refl h
  step-open shut q n h = absurd (ground (arith, n))

  never_shut-cons :
      (e : Event M) (es : List (Event M))
      → never_shut (e ∷ es) ≡ true
      → (never_shut (e ∷ []) ≡ true) × (never_shut es ≡ true)
  never_shut-cons (logged m) es n = (refl, n)
  never_shut-cons asked es n = (refl, n)
  never_shut-cons shut es n = absurd (ground (arith, n))

  messages-cons :
      (e : Event M) (es : List (Event M)) → messages (e ∷ es) ≡ messages (e ∷ []) ++ messages es
  messages-cons (logged m) es = refl
  messages-cons asked es = refl
  messages-cons shut es = refl

  -- As long as nobody shuts the queue down, what the consumer has received, followed by what is
  -- still queued, is what was queued at first followed by what was logged since, in that order:
  -- no message is lost, doubled or overtaken.
  pub fifo :
      (es : List (Event M)) (q : LogQueue M)
      → never_shut es ≡ true
      → q.is_shutdown ≡ false
      → (run es q).0 ++ (run es q).1.log_queue ≡ q.log_queue ++ messages es
  fifo [] q n h = sym (append-nil q.log_queue)
  fifo (e ∷ es) q n h =
      let (now, later) = never_shut-cons e es n in
      let (same, running) = step-open e q now h in
      append_assoc (step e q).0 (run es (step e q).1).0 (run es (step e q).1).1.log_queue
      ∙ ap (λ l. (step e q).0 ++ l) (fifo es (step e q).1 later running)
      ∙ sym (append_assoc (step e q).0 (step e q).1.log_queue (messages es))
      ∙ ap (λ l. l ++ messages es) same
      ∙ append_assoc q.log_queue (messages (e ∷ [])) (messages es)
      ∙ ap (λ l. q.log_queue ++ l) (sym (messages-cons e es))

  shutdown-step :
      (e : Event M) (q : LogQueue M) → q.is_shutdown ≡ true → (step e q).1.is_shutdown ≡ true
  unfolding add_log get_next_log shutdown
  shutdown-step (logged m) q h = h
  shutdown-step asked q h = (next-shutdown q.log_queue q h).1
  shutdown-step shut q h = refl

  shutdown-run :
      (es : List (Event M)) (q : LogQueue M)
      → q.is_shutdown ≡ true
      → (run es q).1.is_shutdown ≡ true
  shutdown-run [] q h = h
  shutdown-run (e ∷ es) q h = shutdown-run es (step e q).1 (shutdown-step e q h)

  returns : (q : LogQueue M) → q.is_shutdown ≡ true → get_next_log q ≢ none
  unfolding get_next_log
  returns q h = (next-shutdown q.log_queue q h).0

  -- After shutdown the next getNextLog returns the null message whatever was queued, and from then
  -- on, whatever is logged and read, getNextLog never waits.
  pub shutdown_lem :
      (q : LogQueue M) (es : List (Event M))
      → (get_next_log (shutdown q)
          ≡ some (none, record { is_shutdown = true; log_queue = q.log_queue }))
        × (get_next_log (run es (shutdown q)).1 ≢ none)
  unfolding get_next_log next_of shutdown
  shutdown_lem q es = (refl, returns _ (shutdown-run es (shutdown q) refl))
