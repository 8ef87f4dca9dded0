-- ===== src/Tunneling/Context/Forwarding/OneConnection.antt =====
-- A tunnel has one local connection at a time.
use aws_iot_device_client.Base.{
  ℕ, ◌≡◌, refl, sym, ap, ◌∙◌, Bool, true, false, not, ◌||◌, List, [], ◌∷◌, ◌++◌, Option, none, some,
  Text, if◌then◌else◌, ◌==◌, arith, Bool-cases, Option-cases, ==_iff, inl, inr,
}
use aws_iot_device_client.Tunneling.Context.{Context}
use aws_iot_device_client.Tunneling.Feature.Notifications.{is_valid_port}
use aws_iot_device_client.Tunneling.Context.Forwarding.{
  Effect, connect_forward, stop_forward, drop_forward, end_forward, send_to_forward,
  send_stream_reset, request_stop, of_forward, stop_tcp_forward, reset_secure_tunnel_stream,
  is_forward, on_tcp_forward_terminated, connect_forward_step, connect_to_tcp_forward,
  on_data_receive, Event, stream_started, stream_or_session_reset, released, data_received,
  forward_ended, lifecycle, step, run,
}

-- The local connection that is open after some effects, where each is opened while none is open,
-- and data goes to, and a stop or an end comes from, the one that is open; none otherwise.
abbrev replay_one : Effect → Option ℕ → Option (Option ℕ)
replay_one (connect_forward id) none = some (some id)
replay_one (connect_forward id) (some other) = none
replay_one (stop_forward id) held = if is_forward id held then some none else none
replay_one (end_forward id) held = if is_forward id held then some none else none
replay_one (send_to_forward id bytes) held = if is_forward id held then some held else none
replay_one (drop_forward id) held = some held
replay_one send_stream_reset held = some held
replay_one request_stop held = some held

unfoldable pub replay : List Effect → Option ℕ → Option (Option ℕ)
replay [] held = some held
replay (e ∷ es) held = elim (replay_one e held) [ none ↦ none | some now ↦ replay es now ]

injective : (a b : Option ℕ) → some a ≡ some b → a ≡ b
injective a b h = cc h

replay-append :
    (xs ys : List Effect) (held now : Option ℕ)
    → replay xs held ≡ some now
    → replay (xs ++ ys) held ≡ replay ys now
unfolding replay
replay-append [] ys held now h = ap (replay ys) (injective held now h)
replay-append (x ∷ xs) ys held now h = elim (Option-cases (replay_one x held)) [
  | inl stuck ↦ absurd (ground (arith, rw (stuck, replay) at h))
  | inr (next, e) ↦ rw (e, replay) (replay-append xs ys next now (rw (e, replay) at h))
]

same : (id : ℕ) → (id == id) ≡ true
same id = (==_iff id id).1 refl

reset-replay :
    (ok : Bool) (c : Context) (held : Option ℕ)
    → replay (reset_secure_tunnel_stream ok c) held ≡ some held
unfolding reset_secure_tunnel_stream replay
reset-replay ok c held = ground arith

stop-replay : (held : Option ℕ) → replay (of_forward held stop_forward) held ≡ some none
unfolding replay
stop-replay none = refl
stop-replay (some id) = rw (same id, replay) refl

data-replay :
    (bytes : Text) (held : Option ℕ)
    → replay (of_forward held (λ id. send_to_forward id bytes)) held ≡ some held
unfolding replay
data-replay bytes none = refl
data-replay bytes (some id) = rw (same id, replay) refl

abbrev Follows : Option ℕ → Context × List Effect → Type 0
Follows held (d, effects) = replay effects held ≡ some d.tcp_forward

terminated-Follows :
    (id : ℕ) (ok : Bool) (c : Context)
    → Follows c.tcp_forward (on_tcp_forward_terminated true id ok c)
unfolding on_tcp_forward_terminated replay
terminated-Follows id ok c = elim (Bool-cases (is_forward id c.tcp_forward)) [
  | inl its ↦ rw its (rw (its, replay) (reset-replay ok (record c { tcp_forward = none }) none))
  | inr not_its ↦ rw not_its refl
]

-- The failed connection of a forward is reported to the context, which lets go of it.
failed-Follows :
    (id : ℕ) (ok : Bool) (c : Context)
    → let (e, told) = on_tcp_forward_terminated false id ok (record c { tcp_forward = some id }) in
      Follows none (e, connect_forward id ∷ stop_forward id ∷ told)
unfolding on_tcp_forward_terminated replay
failed-Follows id ok c =
    rw (same id) (rw (same id, replay) (reset-replay ok (record c { tcp_forward = none }) none))

connect-Follows :
    (created : Option ℕ) (connected ok : Bool) (c : Context)
    → c.tcp_forward ≡ none
    → Follows none (connect_forward_step created connected ok c)
unfolding connect_forward_step
connect-Follows none connected ok c e = reset-replay ok c none ∙ ap some (sym e)
connect-Follows (some id) connected ok c e = elim (Bool-cases (c.stop_requested || c.stopped)) [
  | inl over ↦ rw over (unfold replay in ap some (sym e))
  | inr runs ↦ elim (Bool-cases connected) [
    | inl done ↦ rw (runs, done) (unfold replay in refl)
    | inr failed ↦ rw (runs, failed) (failed-Follows id ok c)
  ]
]

start-Follows :
    (created : Option ℕ) (connected ok : Bool) (c : Context)
    → Follows c.tcp_forward (connect_to_tcp_forward created connected ok c)
unfolding connect_to_tcp_forward stop_tcp_forward
start-Follows created connected ok c = elim (Bool-cases (not (is_valid_port c.port))) [
  | inl bad ↦ rw bad (reset-replay ok c c.tcp_forward)
  | inr good ↦ rw good (
      replay-append (of_forward c.tcp_forward stop_forward) _ c.tcp_forward none
        (stop-replay c.tcp_forward)
      ∙ connect-Follows created connected ok (record c { tcp_forward = none }) refl)
]

step-Follows : (e : Event) (c : Context) → Follows c.tcp_forward (step e c)
unfolding step stop_tcp_forward on_data_receive
step-Follows (stream_started created connected ok) c = start-Follows created connected ok c
step-Follows stream_or_session_reset c = stop-replay c.tcp_forward
step-Follows released c = stop-replay c.tcp_forward
step-Follows (data_received bytes) c = data-replay bytes c.tcp_forward
step-Follows (forward_ended id ok) c = terminated-Follows id ok c
step-Follows (lifecycle stop_requested stopped secure_tunnel) c = unfold replay in refl

-- Whatever the peer and the local port do, and whether or not each local connection comes about:
-- a local connection is opened only while none is open, data goes to, and a stop or an end comes
-- from, the one that is open, and the context holds just that one, or none.
pub one_connection :
    (es : List Event) (c : Context)
    → replay (run es c).1 c.tcp_forward ≡ some (run es c).0.tcp_forward
unfolding run
one_connection [] c = unfold replay in refl
one_connection (e ∷ es) c =
    replay-append (step e c).1 _ c.tcp_forward (step e c).0.tcp_forward (step-Follows e c)
    ∙ one_connection es (step e c).0
