-- ===== src/Configuration.antt =====
-- lib/nearobject/service: NearObjectServiceConfiguration.{hxx,cxx}. The command-line library is a
-- parameter: what it makes of the arguments, given the options that it has been told of.
mod Flags
mod Tests
use near_object_framework.Common.{
  Bool, true, false, ◌||◌, List, [], ◌∷◌, ◌++◌, Option, none, some, if◌then◌else◌,
}

-- NearObjectServiceConfiguration, with its default values.
pub record NearObjectServiceConfiguration : Type 0 where
  pub run_in_background : Bool
  pub verbose_logging : Bool

unfoldable pub default_configuration : NearObjectServiceConfiguration
default_configuration = record { run_in_background = false; verbose_logging = false }

-- The names of the options, "-d" and "-v".
pub data OptionName : Type 0 where
  dash_d dash_v : OptionName

-- CLI::App::add_flag with a reference to a Boolean member: what a flag that is given does.
pub record Flag : Type 0 where
  pub name : OptionName
  pub raise : NearObjectServiceConfiguration → NearObjectServiceConfiguration

-- What the code uses of CLI::App: the flags that it knows. Its name and description are only printed.
pub record App : Type 0 where
  pub flags : List Flag

abbrev add_flag : Flag → App → App
add_flag flag app = record { flags = app.flags ++ flag ∷ [] }

-- details::ConfigureCliAppOptions.
unfoldable pub configure_cli_app_options : App → App
configure_cli_app_options app =
    add_flag (record { name = dash_v; raise = λ c. record c { verbose_logging = true } })
      (add_flag (record { name = dash_d; raise = λ c. record c { run_in_background = true } }) app)

-- CLI::App::parse: the names that are given and that it stores before it returns or throws, and
-- whether it throws a CLI::ParseError.
pub record Parser (Args : Type 0) : Type 0 where
  pub stored : Args → List OptionName
  pub parse_error : Args → Bool

abbrev same_option : OptionName → OptionName → Bool
same_option dash_d dash_d = true
same_option dash_d dash_v = false
same_option dash_v dash_d = false
same_option dash_v dash_v = true

abbrev named : OptionName → List OptionName → Bool
named name [] = false
named name (other ∷ names) = same_option other name || named name names

-- The flags that are given have their effect, in the order in which they were added.
unfoldable pub raise_given :
    List OptionName → List Flag → NearObjectServiceConfiguration → NearObjectServiceConfiguration
raise_given given [] c = c
raise_given given (flag ∷ flags) c =
    raise_given given flags (if named flag.name given then flag.raise c else c)

module _ {Args : Type 0} where
  -- details::ParseCliAppOptions: `none` if the ParseError is thrown on.
  unfoldable pub parse_cli_app_options :
      Parser Args → Bool → Args → Option NearObjectServiceConfiguration
  unfolding configure_cli_app_options raise_given default_configuration
  parse_cli_app_options parser throw_on_parse_error args =
      let app = configure_cli_app_options (record { flags = [] }) in
      let configuration = raise_given (parser.stored args) app.flags default_configuration in
      if parser.parse_error args
      then if throw_on_parse_error then none else some configuration
      else some configuration

  -- NearObjectServiceConfiguration::FromCommandLineArguments, with argc and argv or with a vector.
  unfoldable pub from_command_line_arguments :
      Parser Args → Args → Bool → Option NearObjectServiceConfiguration
  unfolding parse_cli_app_options
  from_command_line_arguments parser args throw_on_parse_error =
      parse_cli_app_options parser throw_on_parse_error args
