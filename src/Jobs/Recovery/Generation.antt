-- ===== src/Jobs/Recovery/Generation.antt =====
-- One generation of the recovery under every interleaving of subscription requests and
-- acknowledgements.
use aws_iot_device_client.Base.{
  ℕ, ◌≡◌, refl, sym, ◌∙◌, ap, Bool, true, false, not, ◌||◌, List, [], ◌∷◌, ◌++◌, arith, ◌==◌,
  if◌then◌else◌, Option-cases, Bool-cases, ◌⊎◌, inl, inr, ==_iff, All,
}
use mathlib.Core.List.{append-nil}
use aws_iot_device_client.Base.Int.{ℤ}
use aws_iot_device_client.Jobs.Recovery.{
  Recovery, Subscription, Effect, publish_start_next, subscribe, schedule_retry,
  start_next_accepted, subscribe_one, subscription_queue_failed, complete_locked,
  complete_recovery_subscription,
}
use aws_iot_device_client.Jobs.Recovery.Machine.{
  Machine, Event, subscribed, acknowledged, step, run, advance,
}
use aws_iot_device_client.Jobs.Recovery.Verdict.{
  Answers, get, note, complete, any_bad, verdict, Represents, Outcome, complete_fresh, note_again,
  is_some,
}
use aws_iot_device_client.Jobs.Recovery.Masks.{has}

-- The events of one generation: answers to subscription requests, and acknowledgements, of this
-- generation or of an older one.
abbrev pub IsAnswer : Event → Type 0
IsAnswer (subscribed queued) = Unit
IsAnswer (acknowledged g sub e) = Unit
IsAnswer _ = ⊥

-- The first answers after one event, and after all; a request that is not queued is answered
-- with -1 at once.
abbrev pub tally_one : ℕ → Event → List Subscription → Answers → Answers
tally_one g (subscribed false) (sub ∷ subs) a = note sub subscription_queue_failed a
tally_one g (acknowledged h sub e) subs a = if h == g then note sub e a else a
tally_one g _ _ a = a

abbrev pub left : Event → List Subscription → List Subscription
left (subscribed queued) (sub ∷ subs) = subs
left _ subs = subs

unfoldable pub tally : ℕ → List Subscription → List Event → Answers → Answers
tally g subs [] a = a
tally g subs (e ∷ es) a = tally g (left e subs) es (tally_one g e subs a)

-- What was decided: the effects that are not subscription requests.
unfoldable pub decisions : List Effect → List Effect
decisions [] = []
decisions (publish_start_next ∷ es) = publish_start_next ∷ decisions es
decisions (subscribe sub g ∷ es) = decisions es
decisions (schedule_retry g ∷ es) = schedule_retry g ∷ decisions es

decisions-append : (xs ys : List Effect) → decisions (xs ++ ys) ≡ decisions xs ++ decisions ys
unfolding decisions
decisions-append [] ys = refl
decisions-append (publish_start_next ∷ es) ys = ap (◌∷◌ publish_start_next) (decisions-append es ys)
decisions-append (subscribe sub g ∷ es) ys = decisions-append es ys
decisions-append (schedule_retry g ∷ es) ys = ap (◌∷◌ (schedule_retry g)) (decisions-append es ys)

decisions-verdict : (g : ℕ) (a : Answers) → decisions (verdict g a) ≡ verdict g a
unfolding decisions verdict
decisions-verdict g a = ground arith

note-complete : (sub : Subscription) (e : ℤ) (a : Answers) → complete a ≡ true → note sub e a ≡ a
unfolding complete
note-complete start_next_accepted e a h = ground arith
note-complete _ e a h = ground arith

ignored :
    (g : ℕ) (sub : Subscription) (e : ℤ) (s : Recovery)
    → ((g == s.generation) ≡ false) ⊎ ((s.pending ≡ 0) ⊎ (has s.completed_mask sub ≡ true))
    → complete_recovery_subscription g sub e s ≡ (s, [])
unfolding complete_recovery_subscription complete_locked
ignored g sub e s h = ground arith

verdict_open : (g : ℕ) (a : Answers) → complete a ≡ false → verdict g a ≡ []
unfolding verdict
verdict_open g a h = rw h

module _ (g : ℕ) (a : Answers) (s : Recovery) (v : Represents g a s)
    (open' : complete a ≡ false) where
  unchanged : Outcome g a (s, [])
  unchanged = inl (open', refl, v)

  -- An answer of this generation.
  answered :
      (sub : Subscription) (e : ℤ)
      → Outcome g (note sub e a) (complete_recovery_subscription g sub e s)
  answered sub e = elim (Option-cases (get sub a)) [
    | inl fresh ↦ complete_fresh g sub e a s v fresh
    | inr (d, old) ↦
        rw (note_again sub e d a old, ignored g sub e s (inr (inr (v.bits sub ∙ ap is_some old))))
          unchanged
  ]

  acknowledged' :
      (h : ℕ) (sub : Subscription) (e : ℤ)
      → Outcome g (if h == g then note sub e a else a) (complete_recovery_subscription h sub e s)
  acknowledged' h sub e = elim (Bool-cases (h == g)) [
    | inl now ↦ rw (now, (==_iff h g).0 now) (answered sub e)
    | inr stale ↦ rw (stale, ignored h sub e s (inl (rw v.current stale))) unchanged
  ]

decide :
    (g : ℕ) (a : Answers) (r : Recovery × List Effect)
    → Outcome g a r
    → Outcome g a (r.0, decisions r.1)
unfolding decisions
decide g a r (inl (open', e, v)) = inl (open', rw e, v)
decide g a r (inr (done, e, p, n)) = inr (done, rw e (decisions-verdict g a), p, n)

record StepOutcome (g : ℕ) (a : Answers) (subs : List Subscription) (r : Machine × List Effect)
    : Type 0 where
  outcome : Outcome g a (r.0.recovery, decisions r.1)
  remaining : r.0.resubscribing ≡ subs
  same_generation : r.0.resubscribe_generation ≡ g

module _ (g : ℕ) (a : Answers) (m : Machine) (v : Represents g a m.recovery)
    (open' : complete a ≡ false) (current : m.resubscribe_generation ≡ g) where
  advance_outcome :
      (subs : List Subscription) (queued : Bool)
      → m.resubscribing ≡ subs
      → StepOutcome g
          (tally_one g (subscribed queued) subs a)
          (left (subscribed queued) subs)
          (advance subs queued m)
  unfolding advance subscribe_one decisions
  advance_outcome [] true e = record {
    outcome = unchanged g a m.recovery v open';
    remaining = e;
    same_generation = current;
  }
  advance_outcome [] false e = record {
    outcome = unchanged g a m.recovery v open';
    remaining = e;
    same_generation = current;
  }
  advance_outcome (sub ∷ subs) true e = record {
    outcome = unchanged g a m.recovery v open';
    remaining = refl;
    same_generation = current;
  }
  advance_outcome (sub ∷ subs) false e = record {
    outcome =
        rw current (decide g _ _ (answered g a m.recovery v open' sub subscription_queue_failed));
    remaining = refl;
    same_generation = current;
  }

  step_outcome :
      (e : Event)
      → IsAnswer e
      → StepOutcome g (tally_one g e m.resubscribing a) (left e m.resubscribing) (step e m)
  unfolding step
  step_outcome (subscribed queued) h = advance_outcome m.resubscribing queued refl
  step_outcome (acknowledged h sub e) _ = record {
    outcome = decide g _ _ (acknowledged' g a m.recovery v open' h sub e);
    remaining = refl;
    same_generation = current;
  }
  step_outcome _ h = absurd h

-- A step in a settled generation changes neither the state nor the answers.
record StillStep (g : ℕ) (a : Answers) (e : Event) (m : Machine) (r : Machine × List Effect)
    : Type 0 where
  quiet : decisions r.1 ≡ []
  same_state : r.0.recovery ≡ m.recovery
  same_answers : tally_one g e m.resubscribing a ≡ a
  remaining : r.0.resubscribing ≡ left e m.resubscribing

module _ (g : ℕ) (a : Answers) (m : Machine) (done : complete a ≡ true)
    (none_pending : m.recovery.pending ≡ 0) where
  advance_still :
      (subs : List Subscription) (queued : Bool)
      → m.resubscribing ≡ subs
      → (decisions (advance subs queued m).1 ≡ [])
        × ((advance subs queued m).0.recovery ≡ m.recovery)
        × (tally_one g (subscribed queued) subs a ≡ a)
        × ((advance subs queued m).0.resubscribing ≡ left (subscribed queued) subs)
  unfolding advance subscribe_one decisions
  advance_still [] true e = (refl, refl, refl, e)
  advance_still [] false e = (refl, refl, refl, e)
  advance_still (sub ∷ subs) true e = (refl, refl, refl, refl)
  advance_still (sub ∷ subs) false e =
      rw
        (ignored m.resubscribe_generation sub subscription_queue_failed m.recovery
          (inr (inl none_pending)))
        (refl, refl, note-complete sub subscription_queue_failed a done, refl)

  acknowledged_still :
      (h : ℕ) (sub : Subscription) (e : ℤ) → (if h == g then note sub e a else a) ≡ a
  acknowledged_still h sub e = ground (arith, note-complete sub e a done)

  step_still : (e : Event) → IsAnswer e → StillStep g a e m (step e m)
  unfolding step decisions
  step_still (subscribed queued) h =
      let (q, s, t, l) = advance_still m.resubscribing queued refl in
      record { quiet = q; same_state = s; same_answers = t; remaining = l }
  step_still (acknowledged h sub e) _ =
      let i = ignored h sub e m.recovery (inr (inl none_pending)) in
      record {
        quiet = rw i;
        same_state = rw i;
        same_answers = acknowledged_still h sub e;
        remaining = refl;
      }
  step_still _ h = absurd h

settled :
    (g : ℕ) (a : Answers) (es : List Event) (m : Machine)
    → All IsAnswer es
    → complete a ≡ true
    → m.recovery.pending ≡ 0
    → (decisions (run es m).1 ≡ [])
      × ((run es m).0.recovery ≡ m.recovery)
      × (tally g m.resubscribing es a ≡ a)
unfolding run tally decisions
settled g a [] m h c p = (refl, refl, refl)
settled g a (e ∷ es) m h c p =
    let s = step_still g a m c p e h.0 in
    let (quiet, same, answers) =
      settled g a es (step e m).0 h.1 c (ap (λ r. r.pending) s.same_state ∙ p) in
    (
      rw (decisions-append (step e m).1 (run es (step e m).0).1, s.quiet) quiet,
      same ∙ s.same_state,
      rw (s.same_answers, ← s.remaining) answers,
    )

-- The verdict on a generation that was under way with the answers `a`.
pub run_outcome :
    (g : ℕ) (a : Answers) (es : List Event) (m : Machine)
    → All IsAnswer es
    → Represents g a m.recovery
    → complete a ≡ false
    → m.resubscribe_generation ≡ g
    → let b = tally g m.resubscribing es a in
      (decisions (run es m).1 ≡ verdict g b)
      × ((run es m).0.recovery.need_recovery ≡ (not (complete b) || any_bad b))
unfolding run tally decisions
run_outcome g a [] m h v c k = (sym (verdict_open g a c), rw c v.wanted)
run_outcome g a (e ∷ es) m h v c k =
    let s = step_outcome g a m v c k e h.0 in
    let n : Machine = (step e m).0 in
    let b : Answers = tally_one g e m.resubscribing a in
    elim s.outcome [
      | inl (more, quiet, w) ↦
          let (d, f) = run_outcome g b es n h.1 w more s.same_generation in
          rw (← s.remaining) (rw (decisions-append (step e m).1 (run es n).1, quiet) d, f)
      | inr (done, decided, p, f) ↦
          let (quiet, same, answers) = settled g b es n h.1 done p in
          rw (← s.remaining, answers)
            (
              rw (decisions-append (step e m).1 (run es n).1, quiet, decided) (append-nil _),
              rw done (ap (λ r. r.need_recovery) same ∙ f),
            )
    ]
