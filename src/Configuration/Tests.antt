-- ===== src/Configuration/Tests.antt =====
-- A parser of one letter for each option, with any other letter as a parse error.
use near_object_framework.Common.{
  ◌≡◌, Bool, true, false, ◌&&◌, List, [], ◌∷◌, none, some, ◌⊎◌, refl, ◌==◌, ℕ, if◌then◌else◌,
}
use near_object_framework.Configuration.{
  NearObjectServiceConfiguration, OptionName, dash_d, dash_v, Parser, from_command_line_arguments,
  parse_cli_app_options, configure_cli_app_options, raise_given, default_configuration,
}
use near_object_framework.Configuration.Flags.{Reflects, from_command_line_arguments_lem}

abbrev letters : List ℕ → List OptionName
letters [] = []
letters (c ∷ cs) =
    let rest = letters cs in
    if c == b'd' then dash_d ∷ rest else if c == b'v' then dash_v ∷ rest else rest

abbrev other_letter : List ℕ → Bool
other_letter [] = false
other_letter (c ∷ cs) =
    let rest = other_letter cs in if c == b'd' then rest else if c == b'v' then rest else true

abbrev pub letter_parser : Parser (List ℕ)
letter_parser = record { stored = letters; parse_error = other_letter }

error_ignored :
    from_command_line_arguments letter_parser (b'x' ∷ b'd' ∷ []) false
    ≡ some (record { run_in_background = true; verbose_logging = false })
unfolding from_command_line_arguments parse_cli_app_options configure_cli_app_options raise_given
    default_configuration
error_ignored = refl

from_command_line_arguments_example :
    (((letter_parser.parse_error (b'x' ∷ b'd' ∷ []) && false) ≡ true)
      × (from_command_line_arguments letter_parser (b'x' ∷ b'd' ∷ []) false ≡ none))
    ⊎ (((letter_parser.parse_error (b'x' ∷ b'd' ∷ []) && false) ≡ false)
        × (c : NearObjectServiceConfiguration) × (from_command_line_arguments letter_parser
              (b'x' ∷ b'd' ∷ [])
              false
            ≡ some c)
        × Reflects (letter_parser.stored (b'x' ∷ b'd' ∷ [])) c)
from_command_line_arguments_example =
    from_command_line_arguments_lem letter_parser (b'x' ∷ b'd' ∷ []) false
