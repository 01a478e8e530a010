-- ===== src/Programs/Linux.antt =====
-- How the Linux service ends.
use near_object_framework.Common.{◌≡◌, true, false, Option, some, ◌∙◌}
use near_object_framework.Configuration.{
  NearObjectServiceConfiguration, Parser, from_command_line_arguments,
}
use near_object_framework.Manager
use near_object_framework.Programs.{
  Paths, Objects, Schedule, waits, Daemon, in_child, done, objects_in, linux_get_user_home_path,
  linux_main, daemonize,
}
use near_object_framework.Programs.Runtime.{
  place_after, running_at, started_runtime_lem, leave_without_thread_lem,
}

-- The main of the Linux service, where nothing fails before the runtime is started.
module _ {P Args : Type 0} (paths : Paths P) (parser : Parser Args) (args : Args) (home : Option P)
    (configuration : NearObjectServiceConfiguration) (objects : Objects P)
    (schedule : Schedule) where
  reached :
      (daemon : Daemon)
      → from_command_line_arguments parser args false ≡ some configuration
      → objects_in paths (linux_get_user_home_path paths home) Manager.create ≡ done objects
      → schedule.start_spurious ≡ false
      → linux_main paths parser args home daemon schedule
        ≡ daemonize configuration.run_in_background daemon schedule
            (running_at objects.service (place_after schedule.before))
  unfolding linux_main
  reached daemon configured made starts =
      rw configured (rw made (rw (started_runtime_lem schedule objects.service starts)))

  -- Where the command line asks for the background, main makes its objects, and the exchange of
  -- Start does not fail spuriously: the child that daemon forks waits in the destructor of the
  -- runtime, whatever steps the thread had before and however the exchange of Stop fares.
  pub background_waits :
      from_command_line_arguments parser args false ≡ some configuration
      → configuration.run_in_background ≡ true
      → objects_in paths (linux_get_user_home_path paths home) Manager.create ≡ done objects
      → schedule.start_spurious ≡ false
      → linux_main paths parser args home in_child schedule ≡ waits
  unfolding daemonize
  background_waits configured back made starts =
      reached in_child configured made starts
      ∙ rw back (leave_without_thread_lem schedule objects.service)
