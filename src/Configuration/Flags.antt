-- ===== src/Configuration/Flags.antt =====
-- What the command line makes of the configuration.
use near_object_framework.Common.{
  ◌≡◌, Bool, true, false, ◌&&◌, List, [], ◌∷◌, none, some, arith, ◌↔◌, ◌⊎◌, inl, inr, Bool-cases,
  subst, sym,
}
use near_object_framework.Configuration.{
  NearObjectServiceConfiguration, OptionName, dash_d, dash_v, Parser, from_command_line_arguments,
  parse_cli_app_options, configure_cli_app_options, raise_given, default_configuration, named,
  same_option,
}

-- The option is among the names.
pub data Given (name : OptionName) : List OptionName → Type 0 where
  first : {names : List OptionName} → Given name (name ∷ names)
  further :
      {other : OptionName} {names : List OptionName} → Given name names → Given name (other ∷ names)

-- The configuration says what the names say.
pub record Reflects (names : List OptionName) (c : NearObjectServiceConfiguration) : Type 0 where
  pub background : (c.run_in_background ≡ true) ↔ Given dash_d names
  pub verbose : (c.verbose_logging ≡ true) ↔ Given dash_v names

same_option_iff : (a b : OptionName) → (same_option a b ≡ true) ↔ (a ≡ b)
same_option_iff dash_d dash_d = ground arith
same_option_iff dash_d dash_v = ground arith
same_option_iff dash_v dash_d = ground arith
same_option_iff dash_v dash_v = ground arith

named_of_Given :
    (name : OptionName) (names : List OptionName) → Given name names → named name names ≡ true
named_of_Given name [] g = elim g [ ]
named_of_Given name (other ∷ names) first = ground (arith, same_option_iff name name)
named_of_Given name (other ∷ names) (further g) = ground (arith, named_of_Given name names g)

Given_of_named :
    (name : OptionName) (names : List OptionName) → named name names ≡ true → Given name names
Given_of_named name [] e = absurd (ground arith)
Given_of_named name (other ∷ names) e = elim (Bool-cases (same_option other name)) [
  | inl same ↦ subst (λ o. Given name (o ∷ names)) (sym ((same_option_iff other name).0 same)) first
  | inr differs ↦ further (Given_of_named name names (ground arith))
]

abbrev configured : List OptionName → NearObjectServiceConfiguration
configured names = record {
  run_in_background = named dash_d names;
  verbose_logging = named dash_v names;
}

raised :
    (names : List OptionName)
    → raise_given names
        (configure_cli_app_options (record { flags = [] })).flags
        default_configuration
      ≡ configured names
unfolding raise_given configure_cli_app_options default_configuration
raised names = ground arith

-- FromCommandLineArguments throws exactly if the parser does and the caller wants to know of it. In
-- every other case, and so after a parse error that is not reported too, the service is to run in the
-- background exactly if "-d" was stored, and to log verbosely exactly if "-v" was.
pub from_command_line_arguments_lem :
    {Args : Type 0} (parser : Parser Args) (args : Args) (throws : Bool)
    → let result = from_command_line_arguments parser args throws in
      (((parser.parse_error args && throws) ≡ true) × (result ≡ none))
      ⊎ (((parser.parse_error args && throws) ≡ false)
          × (c : NearObjectServiceConfiguration) × (result ≡ some c)
          × Reflects (parser.stored args) c)
unfolding from_command_line_arguments parse_cli_app_options configure_cli_app_options raise_given
    default_configuration
from_command_line_arguments_lem parser args throws =
    let names = parser.stored args in
    elim (Bool-cases (parser.parse_error args && throws)) [
      | inl thrown ↦ inl (thrown, (ground arith))
      | inr kept ↦ inr (
        kept,
        configured names,
        (ground (arith, raised names)),
        record {
          background = (Given_of_named dash_d names, named_of_Given dash_d names);
          verbose = (Given_of_named dash_v names, named_of_Given dash_v names);
        },
      )
    ]
