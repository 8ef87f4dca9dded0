-- ===== src/Config/CommandLine/Parsing.antt =====
-- What ParseCliArgs accepts.
use mathlib.Core.List.{append-nil, append_assoc}
use aws_iot_device_client.Base.{
  ◌≡◌, ◌≢◌, ◌⊎◌, ◌↔◌, refl, sym, ap, subst, ◌∙◌, Bool, true, false, List, [], ◌∷◌, ◌++◌, Option,
  none, some, Text, text_eq, Bool-cases, Option-cases, inl, inr, arith,
}
use aws_iot_device_client.Config.CommandLine.{
  CliArgs, cli_export_default_settings, definition, count, Outcome, after_flag, parse_from,
  parse_cli_args,
}

-- The command line that spells out some flags and values.
abbrev print_one : Option Bool → Text → Text → List Text
print_one (some true) flag value = flag ∷ value ∷ []
print_one _ flag value = flag ∷ []

unfoldable pub print : CliArgs → List Text
print [] = []
print ((flag, value) ∷ entries) = print_one (definition flag) flag value ++ print entries

-- The values of the flag that exports the default settings.
unfoldable pub exports : CliArgs → List Text
exports [] = []
exports ((flag, value) ∷ entries) = elim (text_eq flag cli_export_default_settings) [
  | true ↦ value ∷ exports entries
  | false ↦ exports entries
]

-- Each flag is known, has a value only where it takes one, and was not given before.
abbrev pub IsGiven : CliArgs → CliArgs → Type 0
IsGiven before [] = Unit
IsGiven before ((flag, value) ∷ entries) =
    ((definition flag ≡ some true) ⊎ ((definition flag ≡ some false) × (value ≡ [])))
    × (count flag before ≡ false)
    × IsGiven (before ++ ((flag, value) ∷ [])) entries

after-result : (flag value : Text) (o : Outcome) → (after_flag flag value o).0 ≡ o.0
after-result flag value (result, exported) =
    elim (Bool-cases (text_eq flag cli_export_default_settings)) [
      | inl is_export ↦ rw (is_export, after_flag) refl
      | inr other ↦ rw (other, after_flag) refl
    ]

value_step :
    (flag value : Text) (args : List Text) (before : CliArgs)
    → definition flag ≡ some true
    → count flag before ≡ false
    → parse_from (flag ∷ value ∷ args) before
      ≡ after_flag flag value (parse_from args (before ++ ((flag, value) ∷ [])))
unfolding parse_from
value_step flag value args before known first = rw (known, first, parse_from) refl

flag_step :
    (flag : Text) (args : List Text) (before : CliArgs)
    → definition flag ≡ some false
    → count flag before ≡ false
    → parse_from (flag ∷ args) before
      ≡ after_flag flag [] (parse_from args (before ++ ((flag, []) ∷ [])))
unfolding parse_from
flag_step flag [] before known first = rw (known, first, parse_from) refl
flag_step flag (b ∷ args) before known first = rw (known, first, parse_from) refl

collect :
    (flag value : Text) (entries before : CliArgs)
    → after_flag flag value (some ((before ++ ((flag, value) ∷ [])) ++ entries), exports entries)
      ≡ (some (before ++ ((flag, value) ∷ entries)), exports ((flag, value) ∷ entries))
unfolding exports
collect flag value entries before =
    rw (append_assoc before ((flag, value) ∷ []) entries)
      (elim (Bool-cases (text_eq flag cli_export_default_settings)) [
        | inl is_export ↦ rw (is_export, after_flag, exports) refl
        | inr other ↦ rw (other, after_flag, exports) refl
      ])

nothing_left : (before : CliArgs) → parse_from [] before ≡ (some (before ++ []), exports [])
unfolding parse_from exports
nothing_left before = rw (append-nil before) refl

pub parse_print :
    (entries before : CliArgs)
    → IsGiven before entries
    → parse_from (print entries) before ≡ (some (before ++ entries), exports entries)
unfolding print
parse_print [] before given = nothing_left before
parse_print ((flag, value) ∷ entries) before (inl known, first, given) = rw known (
    value_step flag value (print entries) before known first
    ∙ (ap (after_flag flag value) (parse_print entries (before ++ ((flag, value) ∷ [])) given)
        ∙ collect flag value entries before))
parse_print ((flag, value) ∷ entries) before (inr (known, no_value), first, given) =
    rw (no_value, known)
      (flag_step flag (print entries) before known first
        ∙ (ap (after_flag flag []) (
              parse_print entries (before ++ ((flag, []) ∷ []))
                (subst (λ v. IsGiven (before ++ ((flag, v) ∷ [])) entries) no_value given))
            ∙ collect flag [] entries before))

-- What the parser accepts is spelled out by its result.
abbrev Reads : List Text → CliArgs → CliArgs → Type 0
Reads args before u =
    (entries : CliArgs) × (u ≡ before ++ entries) × (args ≡ print entries) × IsGiven before entries

read_more :
    (flag value : Text) (args : List Text) (before u : CliArgs)
    → ((definition flag ≡ some true) ⊎ ((definition flag ≡ some false) × (value ≡ [])))
    → count flag before ≡ false
    → Reads args (before ++ ((flag, value) ∷ [])) u
    → Reads (print_one (definition flag) flag value ++ args) before u
unfolding print
read_more flag value args before u known first (entries, e, spelled, given) = (
  (flag, value) ∷ entries,
  e ∙ append_assoc before ((flag, value) ∷ []) entries,
  ap (λ l. print_one (definition flag) flag value ++ l) spelled,
  (known, first, given),
)

no_result : (o : Option CliArgs) (u : CliArgs) → o ≡ none → o ≢ some u
no_result o u e h = absurd (ground (arith, e, h))

not_complete :
    (a : Text) (before : CliArgs) → definition a ≡ some true → (parse_from (a ∷ []) before).0 ≡ none
unfolding parse_from
not_complete a before known = rw (known, parse_from) refl

unknown_fails :
    (a : Text) (args : List Text) (before : CliArgs)
    → definition a ≡ none
    → (parse_from (a ∷ args) before).0 ≡ none
unfolding parse_from
unknown_fails a [] before unknown = rw (unknown, parse_from) refl
unknown_fails a (b ∷ args) before unknown = rw (unknown, parse_from) refl

again_fails :
    (a : Text) (args : List Text) (before : CliArgs) (needs : Bool)
    → definition a ≡ some needs
    → count a before ≡ true
    → (parse_from (a ∷ args) before).0 ≡ none
unfolding parse_from
again_fails a [] before true known again = rw (known, parse_from) refl
again_fails a [] before false known again = rw (known, again, parse_from) refl
again_fails a (b ∷ args) before true known again = rw (known, again, parse_from) refl
again_fails a (b ∷ args) before false known again = rw (known, again, parse_from) refl

step_result :
    (a v : Text) (args rest : List Text) (before u : CliArgs)
    → parse_from args before ≡ after_flag a v (parse_from rest (before ++ ((a, v) ∷ [])))
    → (parse_from args before).0 ≡ some u
    → (parse_from rest (before ++ ((a, v) ∷ []))).0 ≡ some u
step_result a v args rest before u step h =
    sym (after-result a v (parse_from rest (before ++ ((a, v) ∷ []))))
    ∙ (sym (ap (λ (o : Outcome). o.0) step) ∙ h)

injective : (a b : CliArgs) → some a ≡ some b → a ≡ b
injective a b h = cc h

parse_next :
    (needs : Bool) (a b : Text) (args : List Text) (before u : CliArgs)
    → definition a ≡ some needs
    → count a before ≡ false
    → (parse_from (a ∷ b ∷ args) before).0 ≡ some u
    → ((parse_from args (before ++ ((a, b) ∷ []))).0 ≡ some u
        → Reads args (before ++ ((a, b) ∷ [])) u)
    → ((parse_from (b ∷ args) (before ++ ((a, []) ∷ []))).0 ≡ some u
        → Reads (b ∷ args) (before ++ ((a, []) ∷ [])) u)
    → Reads (a ∷ b ∷ args) before u
parse_next true a b args before u known first h with_value without =
    let k =
      step_result a b (a ∷ b ∷ args) args before u (value_step a b args before known first) h in
    rw known at (read_more a b args before u (inl known) first (with_value k))
parse_next false a b args before u known first h with_value without =
    let k =
      step_result a [] (a ∷ b ∷ args) (b ∷ args) before u
        (flag_step a (b ∷ args) before known first) h in
    rw known at (read_more a [] (b ∷ args) before u (inr (known, refl)) first (without k))

nil_sound : (before u : CliArgs) → (parse_from [] before).0 ≡ some u → Reads [] before u
unfolding parse_from print
nil_sound before u h = ([], sym (injective before u h) ∙ sym (append-nil before), refl, tt)

parse_sound :
    (args : List Text) (before u : CliArgs)
    → (parse_from args before).0 ≡ some u
    → Reads args before u
parse_sound [] before u h = nil_sound before u h
parse_sound (a ∷ []) before u h = elim (Option-cases (definition a)) [
  | inl unknown ↦ absurd (no_result _ u (unknown_fails a [] before unknown) h)
  | inr (true, known) ↦ absurd (no_result _ u (not_complete a before known) h)
  | inr (false, known) ↦ elim (Bool-cases (count a before)) [
    | inl again ↦ absurd (no_result _ u (again_fails a [] before false known again) h)
    | inr first ↦
        let k = step_result a [] (a ∷ []) [] before u (flag_step a [] before known first) h in
        rw known at (
          read_more a [] [] before u (inr (known, refl)) first
            (nil_sound (before ++ ((a, []) ∷ [])) u k))
  ]
]
parse_sound (a ∷ b ∷ args) before u h = elim (Option-cases (definition a)) [
  | inl unknown ↦ absurd (no_result _ u (unknown_fails a (b ∷ args) before unknown) h)
  | inr (needs, known) ↦ elim (Bool-cases (count a before)) [
    | inl again ↦ absurd (no_result _ u (again_fails a (b ∷ args) before needs known again) h)
    | inr first ↦
        parse_next needs a b args before u known first h
          (parse_sound args (before ++ ((a, b) ∷ [])) u)
          (parse_sound (b ∷ args) (before ++ ((a, []) ∷ [])) u)
  ]
]

-- The command line is accepted with some flags and values exactly when it spells them out in their
-- order, and each flag is known, is given once, and has a value just where it takes one.
pub parse_iff :
    (args : List Text) (entries : CliArgs)
    → ((parse_cli_args args).0 ≡ some entries) ↔ ((args ≡ print entries) × IsGiven [] entries)
parse_iff args entries = (
  λ h.
      let (own, e, spelled, given) = parse_sound args [] entries h in
      (spelled ∙ ap print (sym e), subst (IsGiven []) (sym e) given),
  λ (spelled, given).
      ap (λ a. (parse_cli_args a).0) spelled
      ∙ ap (λ (o : Outcome). o.0) (parse_print entries [] given),
)
