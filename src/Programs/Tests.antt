-- ===== src/Programs/Tests.antt =====
-- The services run in concrete environments: a path is its text, the one directory is the home directory,
-- and every directory can be created.
use near_object_framework.Common.{
  ℕ, ◌≡◌, refl, Bool, true, false, none, some, ◌==◌, if◌then◌else◌, List, [], ◌∷◌, ◌++◌, is_empty,
}
use near_object_framework.Configuration.{
  NearObjectServiceConfiguration, dash_d, Parser, from_command_line_arguments,
  parse_cli_app_options, configure_cli_app_options, raise_given, default_configuration,
}
use near_object_framework.Manager
use near_object_framework.Persister.{Directories, make_persister}
use near_object_framework.ProfileManager.{make_profile_manager}
use near_object_framework.UwbAgent.{Windows, device_interface_arrival}
use near_object_framework.UwbAgent.Delivery.{Notification, notify_all, events_of}
use near_object_framework.Manager.Devices.{present}
use near_object_framework.Programs.{
  Paths, Objects, Schedule, returns, waits, no_home_path, in_child, done, failed, objects_in,
  make_profiles, make_objects, linux_get_user_home_path, linux_main, windows_main, windows_devices,
  agent_address,
}
use near_object_framework.Programs.Runtime.{stays}
use near_object_framework.Programs.Linux.{background_waits}
use near_object_framework.Programs.WindowsService.{
  service_hears_notifications, service_ends_at_once,
}

abbrev directories : Directories (List ℕ)
directories = record {
  exists = λ p. false;
  create_directories = λ p. true;
  append_profiles = λ p. p ++ b'/' ∷ b'P' ∷ [];
  parent_path = λ p. p;
}

abbrev paths : Paths (List ℕ)
paths = record {
  empty_path = [];
  is_empty_path = is_empty;
  append_suffix = λ p. p ++ b'/' ∷ b'.' ∷ b'n' ∷ [];
  directories = directories;
}

-- Every argument is "-d".
abbrev parser : Parser ℕ
parser = record { stored = λ n. if n == 0 then [] else dash_d ∷ []; parse_error = λ n. false }

abbrev home : List ℕ
home = b'/' ∷ b'r' ∷ []

abbrev settings : Bool → NearObjectServiceConfiguration
settings background = record { run_in_background = background; verbose_logging = false }

settings_read :
    (from_command_line_arguments parser 0 false ≡ some (settings false))
    × (from_command_line_arguments parser 1 false ≡ some (settings true))
unfolding from_command_line_arguments parse_cli_app_options configure_cli_app_options raise_given
    default_configuration
settings_read = (refl, refl)

abbrev objects : Objects (List ℕ)
objects =
    make_objects
      (record { m_profiles = []; m_persister = home ++ b'/' ∷ b'.' ∷ b'n' ∷ b'/' ∷ b'P' ∷ [] })
      Manager.create

objects_made :
    objects_in paths (linux_get_user_home_path paths (some home)) Manager.create ≡ done objects
unfolding objects_in make_profiles make_persister make_profile_manager linux_get_user_home_path
objects_made = refl

no_home :
    objects_in paths (linux_get_user_home_path paths none) Manager.create ≡ failed no_home_path
unfolding objects_in linux_get_user_home_path
no_home = refl

abbrev schedule : ℕ → Schedule
schedule steps = record {
  start_spurious = false;
  stop_spurious = false;
  before = steps;
  between = 0;
  during = 4;
  woken = none;
}

background_run : linux_main paths parser 1 (some home) in_child (schedule 7) ≡ waits
background_run =
    background_waits paths parser 1 (some home) (settings true) objects (schedule 7) settings_read.1
      refl objects_made refl

abbrev windows : Windows
windows = record {
  registered = some 9;
  configuration_manager = record {
    get_device_interface_list_size = some 1;
    get_device_interface_list = λ size. some (0 ∷ []);
  };
}

abbrev arrivals : List Notification
arrivals = (device_interface_arrival, (b'a' ∷ [])) ∷ []

service_hears_notifications_example :
    ((notify_all arrivals
        (windows_devices windows [] true false).1
        (some (windows_devices windows [] true false).0)).1
      ≡ some (
          present agent_address
            (events_of arrivals (windows_devices windows [] true false).1.derived)
            (windows_devices windows [] true false).0))
    × ((windows_devices windows [] true false).0.m_near_object_devices ≡ [])
service_hears_notifications_example = service_hears_notifications windows [] true false arrivals

service_made :
    (o : Objects (List ℕ)) × (objects_in paths home (windows_devices windows [] true false).0
      ≡ done o)
unfolding objects_in make_profiles make_persister make_profile_manager
service_made =
    (make_objects objects.profile_manager (windows_devices windows [] true false).0, refl)

service_ends_at_once_example :
    windows_main paths 0 (some home) windows [] true false (schedule 5)
    ≡ some (if stays (schedule 5) then waits else returns 0)
service_ends_at_once_example =
    service_ends_at_once paths home windows [] true false service_made.0 (schedule 5) 3
      service_made.1 refl refl refl tt
