-- ===== src/Config/LogConfig/Loading.antt =====
-- Which settings of the loggers are accepted.
use aws_iot_device_client.Base.{
  or_else, ℕ, ◌≡◌, ◌⊎◌, ◌↔◌, refl, sym, ap, ◌∙◌, Bool, true, false, ◌&&◌, List, [], ◌∷◌, Option,
  none, some, Text, text, map, All, text_eq, text_eq_iff, Bool-cases, Option-cases, inl, inr, arith,
}
use aws_iot_device_client.Base.Json.{JsonApi}
use aws_iot_device_client.Config.CommandLine.{CliArgs, find}
use aws_iot_device_client.Config.LogConfig.{
  LogLevel, error, warn, info, debug, trace, SdkLogLevel, sdk_trace, sdk_debug, sdk_info, sdk_warn,
  sdk_error, sdk_fatal, LogConfig, to_upper, to_lower, level_names, sdk_level_names,
  parse_device_client_log_level, parse_sdk_log_level, parse_device_client_log_type,
  stringify_device_client_log_level, load_one, and_then, put_level, put_type, put_sdk_level,
  json_string, load_from_json, load_from_cli_args,
}

-- The names of the levels of the CRT.
abbrev pub sdk_name : SdkLogLevel → Text
sdk_name sdk_trace = text "TRACE"
sdk_name sdk_debug = text "DEBUG"
sdk_name sdk_info = text "INFO"
sdk_name sdk_warn = text "WARN"
sdk_name sdk_error = text "ERROR"
sdk_name sdk_fatal = text "FATAL"

-- A setting that is absent, or whose text is, folded, the name of a value.
abbrev pub Accepts {ℓ} : {A : Type ℓ} → (ℕ → ℕ) → (A → Text) → Option Text → Type ℓ
Accepts {A = A} fold name given =
    (given ≡ none) ⊎ ((s : Text) × (a : A) × (given ≡ some s) × (map fold s ≡ name a))

some_injective {ℓ} : {A : Type ℓ} (a b : A) → some a ≡ some b → a ≡ b
some_injective a b h = cc h

find-All :
    {A : Type 0} (name : A → Text) (table : List (Text × A)) (s : Text) (a : A)
    → All (λ e. e.0 ≡ name e.1) table
    → find s table ≡ some a
    → s ≡ name a
find-All name [] s a h e = absurd (ground (arith, e))
find-All name ((t, b) ∷ table) s a (this, rest) e = elim (Bool-cases (text_eq s t)) [
  | inl same ↦
      (text_eq_iff s t).0 same ∙ (this ∙ ap name (some_injective b a (rw (same, find) at e)))
  | inr other ↦ find-All name table s a rest (rw (other, find) at e)
]

-- Whether a setting can be loaded.
abbrev fine : {A : Type 0} → Option Text → (Text → Option A) → Bool
fine given parse = or_else given (λ s. or_else (parse s) (λ a. true) false) true

load_one-fine :
    {A : Type 0} (given : Option Text) (parse : Text → Option A) (put : A → LogConfig → LogConfig)
    (c : LogConfig)
    → (load_one given parse put c).1 ≡ fine given parse
load_one-fine none parse put c = refl
load_one-fine (some s) parse put c = elim (Option-cases (parse s)) [
  | inl e ↦ rw e refl
  | inr (a, e) ↦ rw e refl
]

and_then-flag :
    (r : LogConfig × Bool) (next : LogConfig → LogConfig × Bool) (b : Bool)
    → ((c : LogConfig) → (next c).1 ≡ b)
    → (and_then r next).1 ≡ (r.1 && b)
and_then-flag (c, true) next b h = h c
and_then-flag (c, false) next b h = refl

fine-Accepts :
    {A B : Type 0} (fold : ℕ → ℕ) (name : A → Text) (given : Option Text) (parse : Text → Option B)
    → ((s : Text) (b : B) → parse s ≡ some b → (a : A) × (map fold s ≡ name a))
    → ((s : Text) (a : A) → map fold s ≡ name a → (b : B) × (parse s ≡ some b))
    → (fine given parse ≡ true) ↔ Accepts fold name given
fine-Accepts fold name none parse sound complete = (λ h. inl refl, λ h. refl)
fine-Accepts fold name (some s) parse sound complete = (
  λ h. elim (Option-cases (parse s)) [
    | inl e ↦ absurd (ground (arith, rw e at h))
    | inr (b, e) ↦ let (a, named) = sound s b e in inr (s, a, refl, named)
  ],
  λ h. elim h [
    | inl e ↦ absurd (ground (arith, e))
    | inr (t, a, e, named) ↦
        let (b, parsed) = complete s a (ap (map fold) (some_injective s t e) ∙ named) in
        rw parsed refl
  ],
)

level_sound :
    (s : Text) (l : LogLevel)
    → parse_device_client_log_level s ≡ some l
    → map to_upper s ≡ stringify_device_client_log_level l
unfolding parse_device_client_log_level stringify_device_client_log_level
level_sound s l h =
    find-All stringify_device_client_log_level level_names (map to_upper s) l
      (refl, (refl, (refl, (refl, (refl, tt))))) h

level_complete :
    (s : Text) (l : LogLevel)
    → map to_upper s ≡ stringify_device_client_log_level l
    → parse_device_client_log_level s ≡ some l
unfolding parse_device_client_log_level stringify_device_client_log_level
level_complete s error h = rw h refl
level_complete s warn h = rw h refl
level_complete s info h = rw h refl
level_complete s debug h = rw h refl
level_complete s trace h = rw h refl

sdk_sound :
    (s : Text) (l : SdkLogLevel) → parse_sdk_log_level s ≡ some l → map to_upper s ≡ sdk_name l
unfolding parse_sdk_log_level
sdk_sound s l h =
    find-All sdk_name sdk_level_names (map to_upper s) l
      (refl, (refl, (refl, (refl, (refl, (refl, tt)))))) h

sdk_complete :
    (s : Text) (l : SdkLogLevel) → map to_upper s ≡ sdk_name l → parse_sdk_log_level s ≡ some l
unfolding parse_sdk_log_level
sdk_complete s sdk_trace h = rw h refl
sdk_complete s sdk_debug h = rw h refl
sdk_complete s sdk_info h = rw h refl
sdk_complete s sdk_warn h = rw h refl
sdk_complete s sdk_error h = rw h refl
sdk_complete s sdk_fatal h = rw h refl

-- The types of the log.
pub data LogType : Type 0 where
  file stdout : LogType

abbrev pub type_name : LogType → Text
type_name file = text "file"
type_name stdout = text "stdout"

type_sound :
    (s t : Text)
    → parse_device_client_log_type s ≡ some t
    → (l : LogType) × (map to_lower s ≡ type_name l)
unfolding parse_device_client_log_type
type_sound s t h = elim (Bool-cases (text_eq (map to_lower s) (text "file"))) [
  | inl is_file ↦ (file, (text_eq_iff (map to_lower s) (text "file")).0 is_file)
  | inr other ↦ elim (Bool-cases (text_eq (map to_lower s) (text "stdout"))) [
    | inl is_stdout ↦ (stdout, (text_eq_iff (map to_lower s) (text "stdout")).0 is_stdout)
    | inr neither ↦ absurd (ground (arith, rw (other, neither, find) at h))
  ]
]

type_complete :
    (s : Text) (l : LogType)
    → map to_lower s ≡ type_name l
    → (t : Text) × (parse_device_client_log_type s ≡ some t)
unfolding parse_device_client_log_type
type_complete s file h = (text "file", rw h refl)
type_complete s stdout h = (text "stdout", rw h refl)

-- The settings that LoadFromJson and LoadFromCliArgs parse.
abbrev pub AcceptsAll : Option Text → Option Text → Option Text → Type 0
AcceptsAll level type sdk_level =
    Accepts to_upper stringify_device_client_log_level level
    × Accepts to_lower type_name type
    × Accepts to_upper sdk_name sdk_level

accepts_all :
    (level type sdk_level : Option Text) (b : Bool)
    → b ≡ (
        fine level parse_device_client_log_level
        && (fine type parse_device_client_log_type && fine sdk_level parse_sdk_log_level))
    → (b ≡ true) ↔ AcceptsAll level type sdk_level
accepts_all level type sdk_level b e =
    let l =
      fine-Accepts to_upper stringify_device_client_log_level level parse_device_client_log_level
        (λ s a h. (a, level_sound s a h)) (λ s a h. (a, level_complete s a h)) in
    let t =
      fine-Accepts to_lower type_name type parse_device_client_log_type type_sound type_complete in
    let k =
      fine-Accepts to_upper sdk_name sdk_level parse_sdk_log_level (λ s a h. (a, sdk_sound s a h))
        (λ s a h. (a, sdk_complete s a h)) in
    (
      λ h.
          let all = sym e ∙ h in
          (l.0 (ground (arith, all)), t.0 (ground (arith, all)), k.0 (ground (arith, all))),
      λ (x, y, z). e ∙ (rw (l.1 x, t.1 y, k.1 z) refl),
    )

stage :
    {A : Type 0} (given : Option Text) (parse : Text → Option A) (put : A → LogConfig → LogConfig)
    (c : LogConfig) (next : LogConfig → LogConfig × Bool) (b : Bool)
    → ((d : LogConfig) → (next d).1 ≡ b)
    → (and_then (load_one given parse put c) next).1 ≡ (fine given parse && b)
stage given parse put c next b h =
    and_then-flag (load_one given parse put c) next b h
    ∙ ap (λ f. f && b) (load_one-fine given parse put c)

and_true : (b : Bool) → (b && true) ≡ b
and_true b = ground arith

module _ (expand : Text → Text) where
  json-fine :
      (api : JsonApi) (json : api.View) (c : LogConfig)
      → (load_from_json expand api json c).1 ≡ (
          fine (json_string api json "level") parse_device_client_log_level
          && (fine (json_string api json "type") parse_device_client_log_type
              && fine (json_string api json "sdk-log-level") parse_sdk_log_level))
  unfolding load_from_json
  json-fine api json c =
      stage (json_string api json "level") parse_device_client_log_level put_level c _ _ (λ c1.
        stage (json_string api json "type") parse_device_client_log_type put_type c1 _ _ (λ c2.
          stage (json_string api json "sdk-log-level") parse_sdk_log_level put_sdk_level _ _ true
            (λ c4. refl)
          ∙ and_true (fine (json_string api json "sdk-log-level") parse_sdk_log_level)))

  cli-fine :
      (args : CliArgs) (c : LogConfig)
      → (load_from_cli_args expand args c).1 ≡ (
          fine (find (text "--log-level") args) parse_device_client_log_level
          && (fine (find (text "--log-type") args) parse_device_client_log_type
              && fine (find (text "--sdk-log-level") args) parse_sdk_log_level))
  unfolding load_from_cli_args
  cli-fine args c =
      stage (find (text "--log-level") args) parse_device_client_log_level put_level c _ _ (λ c1.
        stage (find (text "--log-type") args) parse_device_client_log_type put_type c1 _ _ (λ c2.
          load_one-fine (find (text "--sdk-log-level") args) parse_sdk_log_level put_sdk_level _))

  -- The settings of the loggers in the configuration file, and those of the command line, are
  -- loaded exactly when each level that is given is, in any case of its letters, the name of a
  -- level, and the type is file or stdout; FATAL is a level of the SDK only. In the file an empty
  -- string counts as not given.
  pub loads_iff :
      (api : JsonApi) (json : api.View) (args : CliArgs) (c : LogConfig)
      → (((load_from_json expand api json c).1 ≡ true)
          ↔ AcceptsAll
              (json_string api json "level")
              (json_string api json "type")
              (json_string api json "sdk-log-level"))
        × (((load_from_cli_args expand args c).1 ≡ true)
            ↔ AcceptsAll
                (find (text "--log-level") args)
                (find (text "--log-type") args)
                (find (text "--sdk-log-level") args))
  loads_iff api json args c =
      (accepts_all _ _ _ _ (json-fine api json c), accepts_all _ _ _ _ (cli-fine args c))
