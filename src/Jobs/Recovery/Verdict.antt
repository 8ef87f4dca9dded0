-- ===== src/Jobs/Recovery/Verdict.antt =====
-- What a generation of the recovery comes to, as a function of the first answer that each of the
-- five subscriptions receives, in whatever order and however often answers arrive.
use Prim.Native.Nat.{bit_or}
use aws_iot_device_client.Base.{
  ℕ, ◌+◌, ◌-◌, ◌<◌, ◌≡◌, refl, sym, ◌∙◌, Bool, true, false, not, ◌&&◌, ◌||◌, List, [], ◌∷◌, arith,
  ◌==◌, if◌then◌else◌, Option, none, some, Bool-cases, ◌⊎◌, inl, inr,
}
use aws_iot_device_client.Base.Int.{ℤ, pos, negsuc, is_zero, int_eq}
use aws_iot_device_client.Jobs.Recovery.{
  Recovery, Subscription, Effect, publish_start_next, schedule_retry, start_next_accepted,
  start_next_rejected, next_job_changed, update_job_accepted, update_job_rejected,
  subscription_mask, subscription_queue_failed, complete_locked, complete_recovery_subscription,
  request_subscription_recovery_retry,
}
use aws_iot_device_client.Jobs.Recovery.Masks.{has, count, count-or, or-lt, has-or, same}

-- The first answer of each subscription so far.
pub record Answers : Type 0 where
  pub answer_0 : Option ℤ
  pub answer_1 : Option ℤ
  pub answer_2 : Option ℤ
  pub answer_3 : Option ℤ
  pub answer_4 : Option ℤ

abbrev pub get : Subscription → Answers → Option ℤ
get start_next_accepted a = a.answer_0
get start_next_rejected a = a.answer_1
get next_job_changed a = a.answer_2
get update_job_accepted a = a.answer_3
get update_job_rejected a = a.answer_4

abbrev first : Option ℤ → ℤ → Option ℤ
first none e = some e
first (some d) e = some d

-- An answer counts only if it is its subscription's first.
abbrev pub note : Subscription → ℤ → Answers → Answers
note start_next_accepted e a = record a { answer_0 = first a.answer_0 e }
note start_next_rejected e a = record a { answer_1 = first a.answer_1 e }
note next_job_changed e a = record a { answer_2 = first a.answer_2 e }
note update_job_accepted e a = record a { answer_3 = first a.answer_3 e }
note update_job_rejected e a = record a { answer_4 = first a.answer_4 e }

abbrev pub none_yet : Answers
none_yet = record {
  answer_0 = none;
  answer_1 = none;
  answer_2 = none;
  answer_3 = none;
  answer_4 = none;
}

abbrev pub is_some : Option ℤ → Bool
is_some none = false
is_some (some e) = true

abbrev pub is_bad : Option ℤ → Bool
is_bad none = false
is_bad (some e) = not (is_zero e)

unfoldable pub complete : Answers → Bool
complete a =
    is_some a.answer_0
    && is_some a.answer_1
    && is_some a.answer_2
    && is_some a.answer_3
    && is_some a.answer_4

unfoldable pub any_bad : Answers → Bool
any_bad a =
    is_bad a.answer_0
    || is_bad a.answer_1
    || is_bad a.answer_2
    || is_bad a.answer_3
    || is_bad a.answer_4

-- Nothing is decided until all five have answered; then either the next job is asked for, or a
-- retry of this generation is scheduled.
unfoldable pub verdict : ℕ → Answers → List Effect
verdict g a =
    if complete a
    then (if any_bad a then schedule_retry g ∷ [] else publish_start_next ∷ [])
    else []

pub record Represents (g : ℕ) (a : Answers) (s : Recovery) : Type 0 where
  pub running : s.need_stop ≡ false
  pub ready : s.jobs_client_ready ≡ true
  pub current : s.generation ≡ g
  pub wanted : s.need_recovery ≡ true
  pub small : s.completed_mask < 32
  pub left : s.pending + count s.completed_mask ≡ 5
  pub bits : (sub : Subscription) → has s.completed_mask sub ≡ is_some (get sub a)
  pub bad : s.failed ≡ any_bad a

is_some-note :
    (sub other : Subscription) (e : ℤ) (a : Answers)
    → is_some (get other (note sub e a)) ≡ (same sub other || is_some (get other a))
is_some-note start_next_accepted other e a = ground arith
is_some-note _ other e a = ground arith

any_bad-note :
    (sub : Subscription) (e : ℤ) (a : Answers)
    → get sub a ≡ none
    → any_bad (note sub e a) ≡ (any_bad a || not (is_zero e))
unfolding any_bad
any_bad-note start_next_accepted e a h = ground arith
any_bad-note _ e a h = ground arith

pub note_again :
    (sub : Subscription) (e d : ℤ) (a : Answers) → get sub a ≡ some d → note sub e a ≡ a
note_again start_next_accepted e d a h = ground arith
note_again _ e d a h = ground arith

count-complete :
    (m : ℕ) (a : Answers)
    → ((sub : Subscription) → has m sub ≡ is_some (get sub a))
    → (count m == 5) ≡ complete a
unfolding count complete
count-complete m a h = ground (
  arith,
  h start_next_accepted,
  h start_next_rejected,
  h next_job_changed,
  h update_job_accepted,
  h update_job_rejected,
)

complete_of_none : (sub : Subscription) (a : Answers) → get sub a ≡ none → complete a ≡ false
unfolding complete
complete_of_none start_next_accepted a h = ground arith
complete_of_none _ a h = ground arith

failed_lem :
    (e : ℤ) (f : Bool)
    → (if int_eq e subscription_queue_failed then true else (if is_zero e then f else true))
      ≡ (f || not (is_zero e))
failed_lem (pos n) f = ground arith
failed_lem (negsuc n) f = ground arith

-- A first answer of the current generation.
abbrev pub Outcome : ℕ → Answers → Recovery × List Effect → Type 0
Outcome g a r =
    ((complete a ≡ false) × (r.1 ≡ []) × Represents g a r.0)
    ⊎ ((complete a ≡ true)
        × (r.1 ≡ verdict g a)
        × (r.0.pending ≡ 0)
        × (r.0.need_recovery ≡ any_bad a))

module _ (g : ℕ) (sub : Subscription) (e : ℤ) (a : Answers) (s : Recovery) (v : Represents g a s)
    (fresh : get sub a ≡ none) where
  abbrev a' : Answers
  a' = note sub e a

  mask' : ℕ
  mask' = bit_or s.completed_mask (subscription_mask sub)

  free : has s.completed_mask sub ≡ false
  free = v.bits sub ∙ ground arith

  bits' : (other : Subscription) → has mask' other ≡ is_some (get other a')
  unfolding mask'
  bits' other =
      has-or sub other s.completed_mask v.small
      ∙ rw (v.bits other) (sym (is_some-note sub other e a))

  counted : count mask' ≡ count s.completed_mask + 1
  unfolding mask'
  counted = count-or sub s.completed_mask v.small free

  pending_pos : 0 < s.pending
  pending_pos =
      ground (arith, v.left, count-complete s.completed_mask a v.bits, complete_of_none sub a fresh)

  settles : complete a' ≡ (s.pending - 1 == 0)
  unfolding mask'
  settles = sym (count-complete mask' a' bits') ∙ ground (arith, v.left, counted, pending_pos)

  represents : Represents g a' (record s {
    completed_mask = mask';
    pending = s.pending - 1;
    failed = s.failed || not (is_zero e);
  })
  unfolding mask'
  represents = record {
    running = v.running;
    ready = v.ready;
    current = v.current;
    wanted = v.wanted;
    small = or-lt sub s.completed_mask v.small;
    left = omega (arith, v.left, counted, pending_pos);
    bits = bits';
    bad = rw v.bad (sym (any_bad-note sub e a fresh));
  }

  locked_fresh : complete_locked g sub e s ≡ (
      let t = record s {
        completed_mask = mask';
        pending = s.pending - 1;
        failed = s.failed || not (is_zero e);
      } in
      if not (complete a')
      then (t, [], false)
      else if any_bad a'
      then (t, [], true)
      else (record t { need_recovery = false }, publish_start_next ∷ [], false))
  unfolding complete_locked mask'
  locked_fresh = ground (
    arith,
    settles,
    pending_pos,
    free,
    failed_lem e s.failed,
    represents.bad,
    v.running,
    v.ready,
    v.current,
  )

  pub complete_fresh : Outcome g a' (complete_recovery_subscription g sub e s)
  unfolding complete_recovery_subscription request_subscription_recovery_retry verdict
  complete_fresh = elim (Bool-cases (complete a')) [
    | inl all ↦
        let done : s.pending - 1 ≡ 0 = ground (arith, settles, all) in
        rw (locked_fresh, all)
          (inr (
            refl,
            ground (arith, done, v.running, v.ready, v.current, v.wanted),
            ground (arith, done),
            ground (arith, v.wanted),
          ))
    | inr more ↦ rw (locked_fresh, more) (inl (refl, refl, represents))
  ]
