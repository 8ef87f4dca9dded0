-- ===== src/Tunneling/Feature/Notifications/Repeats.antt =====
-- Notifications that come twice in a row. A context remembers only the last notification that it
-- has seen.
use aws_iot_device_client.Base.{
  ℕ, ◌≡◌, refl, ap, ◌∙◌, Bool, true, false, not, List, [], ◌∷◌, ◌++◌, Option, none, some, Text,
  text_eq, text_eq_iff, Bool-cases, Option-cases, inl, inr, arith, map, ◌==◌, ==_iff,
}
use aws_iot_device_client.Base.Int.{pos}
use aws_iot_device_client.Tunneling.Context.{
  NotifyResponse, Context, new_context, option_eq, list_eq, response_eq, is_duplicate_notification,
  connect_to_secure_tunnel, begin_connect, end_connect,
}
use aws_iot_device_client.Tunneling.Feature.{Feature, create_context, remove_context}
use aws_iot_device_client.Tunneling.Feature.Notifications.{
  admit, accepted, read_response, is_current, mark_seen, screen, add_context, put_context,
  connected, open_tunnel, handle, on_notification,
}

text_eq_refl : (s : Text) → text_eq s s ≡ true
text_eq_refl s = (text_eq_iff s s).1 refl

option_eq_refl : (o : Option Text) → option_eq text_eq o o ≡ true
option_eq_refl none = refl
option_eq_refl (some s) = text_eq_refl s

list_eq_refl : (l : List Text) → list_eq text_eq l l ≡ true
list_eq_refl [] = refl
list_eq_refl (s ∷ l) = rw (text_eq_refl s) (list_eq_refl l)

services_eq_refl : (o : Option (List Text)) → option_eq (list_eq text_eq) o o ≡ true
services_eq_refl none = refl
services_eq_refl (some l) = list_eq_refl l

response_eq_refl : (r : NotifyResponse) → response_eq r r ≡ true
response_eq_refl r =
    rw (option_eq_refl r.region, option_eq_refl r.client_mode, services_eq_refl r.services)
      (option_eq_refl r.client_access_token)

-- The context that is marked recognizes the notification.
marked_is_duplicate :
    (r : NotifyResponse) (c : Context)
    → let d = (is_duplicate_notification r c).0 in is_duplicate_notification r d ≡ (d, true)
unfolding is_duplicate_notification
marked_is_duplicate r c = elim (Option-cases c.last_seen_notify_response) [
  | inl e ↦ rw e (rw (response_eq_refl r) refl)
  | inr (seen, e) ↦ elim (Bool-cases (response_eq seen r)) [
    | inl same ↦ rw (e, same) (rw same refl)
    | inr other ↦ rw (e, other) (rw (response_eq_refl r) refl)
  ]
]

-- A list whose first context has seen the notification.
seen_first :
    (r : NotifyResponse) (a : ℕ) (d : Context) (cs : List (ℕ × Context))
    → is_duplicate_notification r d ≡ (d, true)
    → mark_seen r ((a, d) ∷ cs) ≡ ((a, d) ∷ cs, true)
unfolding mark_seen
seen_first r a d cs h = rw h refl

-- Screening leaves the first context at its place, and has it see the notification.
screened_first :
    (r : NotifyResponse) (a : ℕ) (c : Context) (cs : List (ℕ × Context))
    → (rest : List (ℕ × Context)) × ((mark_seen r ((a, c) ∷ cs)).0
        ≡ (a, (is_duplicate_notification r c).0) ∷ rest)
unfolding mark_seen
screened_first r a c cs = elim (Bool-cases (is_duplicate_notification r c).1) [
  | inl same ↦ (cs, rw same refl)
  | inr other ↦ ((mark_seen r cs).0, rw other refl)
]

admit-current :
    (generation lifecycle : ℕ) (f : Feature)
    → admit generation f ≡ some lifecycle
    → is_current lifecycle f ≡ true
unfolding admit
admit-current generation lifecycle f h = elim (Bool-cases f.started) [
  | inl started ↦ ground (arith, h, started)
  | inr not_started ↦ absurd (ground (arith, h, not_started))
]

admit-contexts :
    (generation : ℕ) (cs : List (ℕ × Context)) (f : Feature)
    → admit generation (record f { contexts = cs }) ≡ admit generation f
unfolding admit
admit-contexts generation cs f = refl

map-put :
    (a : ℕ) (k : Context) (cs : List (ℕ × Context))
    → map (λ p. p.0) (put_context a k cs) ≡ map (λ p. p.0) cs
map-put a k [] = refl
map-put a k ((x, c) ∷ cs) = elim (Bool-cases (x == a)) [
  | inl same ↦ rw same (ap (λ l. x ∷ l) (map-put a k cs))
  | inr other ↦ rw other (ap (λ l. x ∷ l) (map-put a k cs))
]

put-own : (a : ℕ) (k c : Context) → put_context a k ((a, c) ∷ []) ≡ (a, k) ∷ []
put-own a k c = rw ((==_iff a a).1 refl) refl

not_seen :
    (r : NotifyResponse) (k : Context)
    → k.last_seen_notify_response ≡ none
    → (is_duplicate_notification r k).1 ≡ false
unfolding is_duplicate_notification
not_seen r k e = rw e refl

-- A context that has seen no notification does not stop one.
unseen_only :
    (r : NotifyResponse) (a : ℕ) (k : Context)
    → k.last_seen_notify_response ≡ none
    → mark_seen r ((a, k) ∷ []) ≡ ((a, (is_duplicate_notification r k).0) ∷ [], false)
unfolding mark_seen
unseen_only r a k e = rw (not_seen r k e) refl

connect-seen :
    (valid success : Bool) (c : Context)
    → (connect_to_secure_tunnel valid success c).0.last_seen_notify_response
      ≡ c.last_seen_notify_response
unfolding connect_to_secure_tunnel begin_connect end_connect
connect-seen valid success c = ground arith

-- What happens to a notification that asks for a tunnel.
notification-accepted :
    (a : ℕ) (valid success : Bool) (r : NotifyResponse) (t g : Text) (port generation l : ℕ)
    (f : Feature)
    → admit generation f ≡ some l
    → read_response (pos 0) (some r) ≡ accepted t g port
    → on_notification a valid success (pos 0) (some r) generation f
      ≡ handle a valid success l r (accepted t g port) f
unfolding on_notification
notification-accepted a valid success r t g port generation l f h k = rw (h, k) refl

screened :
    (l : ℕ) (r : NotifyResponse) (f : Feature) (cs : List (ℕ × Context)) (found : Bool)
    → is_current l f ≡ true
    → mark_seen r f.contexts ≡ (cs, found)
    → screen l r f ≡ (record f { contexts = cs }, not found)
unfolding screen
screened l r f cs found current e = rw (current, e) refl

added :
    (l a : ℕ) (c : Context) (f : Feature)
    → is_current l f ≡ true
    → add_context l a c f ≡ (record f { contexts = f.contexts ++ ((a, c) ∷ []) }, true)
unfolding add_context
added l a c f current = rw current refl

-- A notification that no context has seen opens a tunnel.
opens :
    (a : ℕ) (valid success : Bool) (r : NotifyResponse) (t g : Text) (port l : ℕ) (f : Feature)
    (cs : List (ℕ × Context))
    → is_current l f ≡ true
    → mark_seen r f.contexts ≡ (cs, false)
    → (connect_to_secure_tunnel valid success (create_context f t g port)).1 ≡ true
    → let c = create_context f t g port in
      handle a valid success l r (accepted t g port) f
      ≡ some (record f {
        contexts = put_context a (connect_to_secure_tunnel valid success c).0 (cs ++ ((a, c) ∷ []));
      })
opens a valid success r t g port l f cs current unseen joined =
    let c = create_context f t g port in
    let h = record f { contexts = cs } in
    rw (screened l r f cs false current unseen, added l a c h current, joined) refl

-- The first context stays first, whatever becomes of the new one.
connected-first :
    (a : ℕ) (k : Context) (joined : Bool) (x : ℕ) (d : Context) (rest : List (ℕ × Context))
    (f : Feature)
    → (x == a) ≡ false
    → (more : List (ℕ × Context)) × (connected a (record f { contexts = (x, d) ∷ rest }) (k, joined)
        ≡ record f { contexts = (x, d) ∷ more })
unfolding remove_context
connected-first a k true x d rest f apart = (put_context a k rest, rw apart refl)
connected-first a k false x d rest f apart = (remove_context a rest, rw apart refl)

opened-first :
    (a : ℕ) (valid success : Bool) (l x : ℕ) (d k : Context) (rest : List (ℕ × Context))
    (f : Feature)
    → is_current l f ≡ true
    → (x == a) ≡ false
    → (more : List (ℕ × Context)) × (open_tunnel a valid success l k
          (record f { contexts = (x, d) ∷ rest })
        ≡ record f { contexts = (x, d) ∷ more })
opened-first a valid success l x d k rest f current apart =
    let (more, e) =
      connected-first a (connect_to_secure_tunnel valid success k).0
        (connect_to_secure_tunnel valid success k).1 x d (rest ++ ((a, k) ∷ [])) f apart in
    (more, rw (added l a k (record f { contexts = (x, d) ∷ rest }) current) e)

keeps_first :
    (a : ℕ) (valid success : Bool) (r : NotifyResponse) (t g : Text) (port l x : ℕ) (c : Context)
    (cs rest : List (ℕ × Context)) (found : Bool) (f : Feature)
    → is_current l f ≡ true
    → (x == a) ≡ false
    → mark_seen r ((x, c) ∷ cs) ≡ ((x, (is_duplicate_notification r c).0) ∷ rest, found)
    → (more : List (ℕ × Context)) × (handle a valid success l r
          (accepted t g port)
          (record f { contexts = (x, c) ∷ cs })
        ≡ some (record f { contexts = (x, (is_duplicate_notification r c).0) ∷ more }))
keeps_first a valid success r t g port l x c cs rest true f current apart e =
    (rest, rw (screened l r (record f { contexts = (x, c) ∷ cs }) _ true current e) refl)
keeps_first a valid success r t g port l x c cs rest false f current apart e =
    let d = (is_duplicate_notification r c).0 in
    let (more, k) =
      opened-first a valid success l x d (create_context f t g port) rest f current apart in
    (more, rw (screened l r (record f { contexts = (x, c) ∷ cs }) _ false current e) (ap some k))

-- A notification that asks for a tunnel, comes while the feature has one, and comes again before
-- anything else happens to the feature, is recognized the second time: it changes nothing, and
-- opens no tunnel.
pub repeat_ignored :
    (a b : ℕ) (valid success valid_again success_again : Bool) (r : NotifyResponse) (t g : Text)
    (port generation l x : ℕ) (c : Context) (cs : List (ℕ × Context)) (f : Feature)
    → admit generation f ≡ some l
    → read_response (pos 0) (some r) ≡ accepted t g port
    → (x == a) ≡ false
    → (h : Feature) × (on_notification a valid success
          (pos 0)
          (some r)
          generation
          (record f { contexts = (x, c) ∷ cs })
        ≡ some h)
      × ((screen l r h).1 ≡ false)
      × (on_notification b valid_again success_again (pos 0) (some r) generation h ≡ some h)
repeat_ignored a b valid success valid_again success_again r t g port generation l x c cs f admitted
      asks apart =
    let d = (is_duplicate_notification r c).0 in
    let current = admit-current generation l f admitted in
    let (rest, e) = screened_first r x c cs in
    let (more, k) =
      keeps_first a valid success r t g port l x c cs rest (mark_seen r ((x, c) ∷ cs)).1 f current
        apart (ap (λ q. (q, (mark_seen r ((x, c) ∷ cs)).1)) e) in
    let h = record f { contexts = (x, d) ∷ more } in
    let idle =
      screened l r h ((x, d) ∷ more) true current
        (seen_first r x d more (marked_is_duplicate r c)) in
    (
      h,
      notification-accepted a valid success r t g port generation l
            (record f { contexts = (x, c) ∷ cs })
            (admit-contexts generation ((x, c) ∷ cs) f ∙ admitted) asks
          ∙ k,
      rw idle refl,
      notification-accepted b valid_again success_again r t g port generation l h
            (admit-contexts generation ((x, d) ∷ more) f ∙ admitted) asks
          ∙ rw idle refl,
    )

-- The tunnel that a notification opens does not know it: where the feature has no tunnel yet and the
-- SDK connects, a notification that comes twice opens two.
pub first_repeat_opens :
    (a b : ℕ) (valid success : Bool) (r : NotifyResponse) (t g : Text) (port generation l : ℕ)
    (f : Feature)
    → admit generation f ≡ some l
    → read_response (pos 0) (some r) ≡ accepted t g port
    → (connect_to_secure_tunnel valid success (create_context f t g port)).1 ≡ true
    → (h : Feature) × (n : Feature) × (on_notification a valid success
          (pos 0)
          (some r)
          generation
          (record f { contexts = [] })
        ≡ some h)
      × (on_notification b valid success (pos 0) (some r) generation h ≡ some n)
      × (map (λ p. p.0) n.contexts ≡ a ∷ b ∷ [])
unfolding mark_seen new_context
first_repeat_opens a b valid success r t g port generation l f admitted asks joined =
    let current = admit-current generation l f admitted in
    let c = create_context f t g port in
    let k = (connect_to_secure_tunnel valid success c).0 in
    let h = record f { contexts = (a, k) ∷ [] } in
    let d = (is_duplicate_notification r k).0 in
    let unseen = unseen_only r a k (connect-seen valid success c) in
    (
      h,
      record f { contexts = put_context b k ((a, d) ∷ (b, c) ∷ []) },
      notification-accepted a valid success r t g port generation l (record f { contexts = [] })
            (admit-contexts generation [] f ∙ admitted) asks
          ∙ opens a valid success r t g port l (record f { contexts = [] }) [] current refl joined
          ∙ ap (λ cs. some (record f { contexts = cs })) (put-own a k c),
      notification-accepted b valid success r t g port generation l h
            (admit-contexts generation h.contexts f ∙ admitted) asks
          ∙ opens b valid success r t g port l h ((a, d) ∷ []) current unseen joined,
      map-put b k ((a, d) ∷ (b, c) ∷ []),
    )
