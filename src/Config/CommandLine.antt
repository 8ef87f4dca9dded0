-- ===== src/Config/CommandLine.antt =====
-- config/Config.cpp: the reading of the command line.
pub mod Parsing
use aws_iot_device_client.Base.{
  Bool, true, false, List, [], ◌∷◌, ◌++◌, Option, none, some, Text, text, text_eq,
}

-- The flags and values that were given, a std::map.
abbrev pub CliArgs : Type 0
CliArgs = List (Text × Text)

abbrev pub cli_export_default_settings : Text
cli_export_default_settings = text "--export-default-settings"

-- argumentDefinitions: the flags, and whether an argument follows.
abbrev pub argument_definitions : List (Text × Bool)
argument_definitions =
    (text "--export-default-settings", true)
    ∷ (text "--config-file", true)
    ∷ (text "--endpoint", true)
    ∷ (text "--cert", true)
    ∷ (text "--key", true)
    ∷ (text "--root-ca", true)
    ∷ (text "--thing-name", true)
    ∷ (text "--mqtt-keep-alive-seconds", true)
    ∷ (text "--mqtt-ping-timeout-ms", true)
    ∷ (text "--log-level", true)
    ∷ (text "--log-type", true)
    ∷ (text "--log-file", true)
    ∷ (text "--enable-sdk-logging", false)
    ∷ (text "--sdk-log-level", true)
    ∷ (text "--sdk-log-file", true)
    ∷ (text "--enable-jobs", true)
    ∷ (text "--jobs-handler-dir", true)
    ∷ (text "--enable-tunneling", true)
    ∷ (text "--tunneling-region", true)
    ∷ (text "--tunneling-service", true)
    ∷ (text "--tunneling-disable-notification", false)
    ∷ (text "--enable-device-defender", true)
    ∷ (text "--device-defender-interval", true)
    ∷ (text "--enable-fleet-provisioning", true)
    ∷ (text "--fleet-provisioning-template-name", true)
    ∷ (text "--fleet-provisioning-template-parameters", true)
    ∷ (text "--csr-file", true)
    ∷ (text "--device-key", true)
    ∷ (text "--enable-pub-sub", true)
    ∷ (text "--publish-topic", true)
    ∷ (text "--publish-file", true)
    ∷ (text "--subscribe-topic", true)
    ∷ (text "--subscribe-file", true)
    ∷ (text "--enable-sample-shadow", true)
    ∷ (text "--shadow-name", true)
    ∷ (text "--shadow-input-file", true)
    ∷ (text "--shadow-output-file", true)
    ∷ (text "--enable-config-shadow", true)
    ∷ (text "--enable-secure-element", true)
    ∷ (text "--pkcs11-lib", true)
    ∷ (text "--secure-element-pin", true)
    ∷ (text "--secure-element-key-label", true)
    ∷ (text "--secure-element-slot-id", true)
    ∷ (text "--secure-element-token-label", true)
    ∷ (text "--http-proxy-config", true)
    ∷ []

abbrev pub find {ℓ} : {A : Type ℓ} → Text → List (Text × A) → Option A
find flag [] = none
find flag ((a, x) ∷ entries) = elim (text_eq flag a) [ true ↦ some x | false ↦ find flag entries ]

-- The search in argumentDefinitionMap.
unfoldable pub definition : Text → Option Bool
definition flag = find flag argument_definitions

unfoldable pub count : Text → CliArgs → Bool
count flag table = elim (find flag table) [ none ↦ false | some value ↦ true ]

-- CheckTerminalArgs, for the arguments after the program's name.
unfoldable pub check_terminal_args : List Text → Bool
check_terminal_args [] = false
check_terminal_args (a ∷ args) = elim (text_eq a (text "--help")) [
  | true ↦ true
  | false ↦ elim (text_eq a (text "--version")) [ true ↦ true | false ↦ check_terminal_args args ]
]

-- The files that ExportDefaultSetting is called on.
abbrev pub Outcome : Type 0
Outcome = Option CliArgs × List Text

abbrev pub failed : Outcome
failed = (none, [])

abbrev pub after_flag : Text → Text → Outcome → Outcome
after_flag flag value (result, exports) = elim (text_eq flag cli_export_default_settings) [
  | true ↦ (result, value ∷ exports)
  | false ↦ (result, exports)
]

-- The loop of ParseCliArgs.
unfoldable pub parse_from : List Text → CliArgs → Outcome
parse_from [] table = (some table, [])
parse_from (a ∷ []) table = elim (definition a) [
  | none ↦ failed
  | some true ↦ failed
  | some false ↦ elim (count a table) [
    | true ↦ failed
    | false ↦ after_flag a [] (some (table ++ ((a, []) ∷ [])), [])
  ]
]
parse_from (a ∷ b ∷ args) table = elim (definition a) [
  | none ↦ failed
  | some true ↦ elim (count a table) [
    | true ↦ failed
    | false ↦ after_flag a b (parse_from args (table ++ ((a, b) ∷ [])))
  ]
  | some false ↦ elim (count a table) [
    | true ↦ failed
    | false ↦ after_flag a [] (parse_from (b ∷ args) (table ++ ((a, []) ∷ [])))
  ]
]

-- ParseCliArgs, for the arguments after the program's name.
abbrev pub parse_cli_args : List Text → Outcome
parse_cli_args args = parse_from args []
