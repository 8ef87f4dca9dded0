-- ===== src/Jobs/JobDocument/Validity.antt =====
-- Which job documents are valid.
use aws_iot_device_client.Base.{
  ◌≡◌, ◌≢◌, ◌↔◌, ◌⊎◌, inl, inr, refl, sym, subst, Bool, true, false, List, [], ◌∷◌, Option, none,
  some, Text, text_eq, text_eq_iff, is_empty_iff, any, All, arith, Bool-cases,
}
use aws_iot_device_client.Jobs.JobDocument.{
  ActionHandlerInput, ActionCommandInput, JobAction, JobCondition, PlainJobDocument, run_handler,
  run_command, is_space, validate_condition, validate_handler_input, validate_command,
  validate_command_input, validate_action, validate_steps, validate_conditions, validate, deref,
  conditions_ok, final_ok, steps_ok,
}

abbrev pub ConditionIsValid : JobCondition → Type 0
ConditionIsValid c = (c.condition_key ≢ []) × (c.condition_value ≢ [])

-- A command has a first word, and that holds no white space.
abbrev pub CommandIsValid : ActionCommandInput → Type 0
CommandIsValid i =
    (first : Text) × (rest : List Text) × (i.command ≡ first ∷ rest)
    × All (λ c. is_space c ≡ false) first

-- An action has a name, and the input that its type calls for.
abbrev pub ActionIsValid : JobAction → Type 0
ActionIsValid a =
    (a.name ≢ [])
    × (((a.type ≡ run_handler)
          × ((i : ActionHandlerInput) × (a.handler_input ≡ some i) × (i.handler ≢ [])))
        ⊎ ((a.type ≡ run_command)
            × ((i : ActionCommandInput) × (a.command_input ≡ some i) × CommandIsValid i)))

abbrev ConditionsAreValid : Option (List JobCondition) → Type 0
ConditionsAreValid none = Unit
ConditionsAreValid (some cs) = All ConditionIsValid cs

abbrev FinalIsValid : Option JobAction → Type 0
FinalIsValid none = Unit
FinalIsValid (some a) = ActionIsValid a

pub record DocumentIsValid (d : PlainJobDocument) : Type 0 where
  pub versioned : d.version ≢ []
  pub conditions_valid : ConditionsAreValid d.conditions
  pub has_steps : d.steps ≢ []
  pub steps_valid : All ActionIsValid d.steps
  pub final_valid : FinalIsValid d.final_step

-- The tests that the loops make, as conjunctions.
any_lem :
    (b x : Bool)
    → (◌≡◌ {A = Bool} (elim b [ true ↦ true | false ↦ x ]) false) ↔ ((b ≡ false) × (x ≡ false))
any_lem true x = ground arith
any_lem false x = ground arith

all_lem :
    (b x : Bool)
    → (◌≡◌ {A = Bool} (elim b [ true ↦ x | false ↦ false ]) true) ↔ ((b ≡ true) × (x ≡ true))
all_lem true x = ground arith
all_lem false x = ground arith

both_lem :
    (m x : Option Bool)
    → (◌≡◌ {A = Option Bool}
        (elim m [ none ↦ none | some ok ↦ elim ok [ true ↦ x | false ↦ some false ] ])
        (some true))
      ↔ ((m ≡ some true) × (x ≡ some true))
both_lem none x = ground arith
both_lem (some true) x = ground arith
both_lem (some false) x = ground arith

deref_lem :
    {A : Type 0} (validate' : A → Bool) (o : Option A)
    → (deref validate' o ≡ some true) ↔ ((a : A) × (o ≡ some a) × (validate' a ≡ true))
deref_lem validate' none = (λ h. absurd (cc), λ (a, e, h). absurd (cc))
deref_lem validate' (some a) = (λ h. (a, refl, ground arith), λ (b, e, h). ground arith)

no_space : (s : Text) → (any is_space s ≡ false) ↔ All (λ c. is_space c ≡ false) s
no_space [] = (λ h. tt, λ h. refl)
no_space (c ∷ s) =
    let l = any_lem (is_space c) (any is_space s) in
    (λ h. ((l.0 h).0, (no_space s).0 (l.0 h).1), λ h. l.1 (h.0, (no_space s).1 h.1))

condition_iff : (c : JobCondition) → (validate_condition c ≡ true) ↔ ConditionIsValid c
unfolding validate_condition
condition_iff c = ground (arith, is_empty_iff c.condition_key, is_empty_iff c.condition_value)

conditions_iff :
    (cs : List JobCondition) → (validate_conditions cs ≡ true) ↔ All ConditionIsValid cs
unfolding validate_conditions
conditions_iff [] = (λ h. tt, λ h. refl)
conditions_iff (c ∷ cs) =
    let l = all_lem (validate_condition c) (validate_conditions cs) in
    (
      λ h. ((condition_iff c).0 (l.0 h).0, (conditions_iff cs).0 (l.0 h).1),
      λ h. l.1 ((condition_iff c).1 h.0, (conditions_iff cs).1 h.1),
    )

command_cases :
    (command : List Text)
    → (validate_command command ≡ true) ↔ (
        (first : Text) × (rest : List Text) × (command ≡ first ∷ rest)
        × All (λ c. is_space c ≡ false) first)
command_cases [] = (λ h. absurd (cc), λ (first, rest, e, h). absurd (cc))
command_cases (first ∷ rest) = (
  λ h. (first, rest, refl, (no_space first).0 (ground (arith, h))),
  λ (f, r, e, h).
      rw ((no_space first).1 (subst (All (λ c. is_space c ≡ false)) (sym (cons-first e)) h)),
)
  where
    cons-first : {f : Text} {r : List Text} → first ∷ rest ≡ f ∷ r → first ≡ f
    cons-first e = cc

command_iff : (i : ActionCommandInput) → (validate_command_input i ≡ true) ↔ CommandIsValid i
unfolding validate_command_input
command_iff i = command_cases i.command

handler_iff : (i : ActionHandlerInput) → (validate_handler_input i ≡ true) ↔ (i.handler ≢ [])
unfolding validate_handler_input
handler_iff i = ground (arith, is_empty_iff i.handler)

module _ (a : JobAction) where
  name_lem : validate_action a ≡ some true → a.name ≢ []
  unfolding validate_action
  name_lem h = ground (arith, is_empty_iff a.name)

  handler_lem :
      validate_action a ≡ some true
      → text_eq a.type run_handler ≡ true
      → deref validate_handler_input a.handler_input ≡ some true
  unfolding validate_action
  handler_lem h t = ground arith

  command_lem :
      validate_action a ≡ some true
      → text_eq a.type run_handler ≡ false
      → (text_eq a.type run_command ≡ true)
        × (deref validate_command_input a.command_input ≡ some true)
  unfolding validate_action
  command_lem h t = ground arith

  action_sound : validate_action a ≡ some true → ActionIsValid a
  action_sound h = elim (Bool-cases (text_eq a.type run_handler)) [
    | inl t ↦
        let (i, e, k) = (deref_lem validate_handler_input a.handler_input).0 (handler_lem h t) in
        (name_lem h, inl ((text_eq_iff a.type run_handler).0 t, (i, e, (handler_iff i).0 k)))
    | inr t ↦
        let (c, d) = command_lem h t in
        let (i, e, k) = (deref_lem validate_command_input a.command_input).0 d in
        (name_lem h, inr ((text_eq_iff a.type run_command).0 c, (i, e, (command_iff i).0 k)))
  ]

  action_complete : ActionIsValid a → validate_action a ≡ some true
  unfolding validate_action
  action_complete (n, inl (t, (i, e, k))) =
      let d = (deref_lem validate_handler_input a.handler_input).1 (i, e, (handler_iff i).1 k) in
      rw t (ground (arith, is_empty_iff a.name, d))
  action_complete (n, inr (t, (i, e, k))) =
      let d = (deref_lem validate_command_input a.command_input).1 (i, e, (command_iff i).1 k) in
      rw t (ground (arith, is_empty_iff a.name, d))

action_iff : (a : JobAction) → (validate_action a ≡ some true) ↔ ActionIsValid a
action_iff a = (action_sound a, action_complete a)

steps_iff : (steps : List JobAction) → (validate_steps steps ≡ some true) ↔ All ActionIsValid steps
unfolding validate_steps
steps_iff [] = (λ h. tt, λ h. refl)
steps_iff (a ∷ rest) =
    let l = both_lem (validate_action a) (validate_steps rest) in
    (
      λ h. ((action_iff a).0 (l.0 h).0, (steps_iff rest).0 (l.0 h).1),
      λ h. l.1 ((action_iff a).1 h.0, (steps_iff rest).1 h.1),
    )

parts_lem :
    (d : PlainJobDocument)
    → (validate d ≡ some true) ↔ (
        (d.version ≢ [])
        × (conditions_ok d.conditions ≡ true)
        × (steps_ok d.steps d.final_step ≡ some true))
unfolding validate
parts_lem d = ground (arith, is_empty_iff d.version)

conditions_part :
    (cs : Option (List JobCondition)) → (conditions_ok cs ≡ true) ↔ ConditionsAreValid cs
conditions_part none = (λ h. tt, λ h. refl)
conditions_part (some cs) = conditions_iff cs

final_part : (f : Option JobAction) → (final_ok f ≡ some true) ↔ FinalIsValid f
final_part none = (λ h. tt, λ h. refl)
final_part (some a) = action_iff a

steps_part :
    (steps : List JobAction) (f : Option JobAction)
    → (steps_ok steps f ≡ some true) ↔ ((steps ≢ []) × All ActionIsValid steps × FinalIsValid f)
steps_part [] f = (λ h. absurd (cc), λ h. absurd (h.0 refl))
steps_part (a ∷ rest) f =
    let l = both_lem (validate_steps (a ∷ rest)) (final_ok f) in
    (
      λ h. (λ e. cc, (steps_iff (a ∷ rest)).0 (l.0 h).0, (final_part f).0 (l.0 h).1),
      λ h. l.1 ((steps_iff (a ∷ rest)).1 h.1, (final_part f).1 h.2),
    )

-- Validate accepts exactly the documents that have a version, at least one step, and only valid
-- conditions, steps and final step: conditions with a key and a value, actions with a name and the
-- input that their type calls for, which names a handler, or a command whose first word holds no
-- white space.
pub validate_iff : (d : PlainJobDocument) → (validate d ≡ some true) ↔ DocumentIsValid d
validate_iff d = (
  λ h.
      let (v, c, s) = (parts_lem d).0 h in
      let (n, k, f) = (steps_part d.steps d.final_step).0 s in
      record {
        versioned = v;
        conditions_valid = (conditions_part d.conditions).0 c;
        has_steps = n;
        steps_valid = k;
        final_valid = f;
      },
  λ h. (parts_lem d).1 (
    h.versioned,
    (conditions_part d.conditions).1 h.conditions_valid,
    (steps_part d.steps d.final_step).1 (h.has_steps, h.steps_valid, h.final_valid),
  ),
)
