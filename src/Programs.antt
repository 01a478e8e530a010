-- ===== src/Programs.antt =====
-- linux/nearobjectd/Main.cxx and windows/nearobjectsvc/Main.cxx. What a run depends on outside the program
-- is a parameter: the environment, the file system, the arguments, how a compare_exchange_weak fares and
-- how many steps the thread of the runtime has had. The objects that main makes with make_shared have
-- different addresses.
mod Runtime
mod Linux
mod WindowsService
mod Tests
use near_object_framework.Common.{
  ℕ, zero, suc, ◌+◌, Bool, true, false, List, [], ◌∷◌, ◌++◌, Option, none, some, if◌then◌else◌,
  ◌>>=◌, ◌==◌,
}
use near_object_framework.Configuration.{
  NearObjectServiceConfiguration, Parser, from_command_line_arguments,
}
use near_object_framework.DiscoveryAgent
use near_object_framework.DiscoveryAgent.{Agent, AgentImpl}
use near_object_framework.Manager
use near_object_framework.Manager.{NearObjectDeviceControllerManager, add_discovery_agent}
use near_object_framework.Persister.{Directories, make_persister}
use near_object_framework.ProfileManager.{NearObjectProfileManager, make_profile_manager}
use near_object_framework.Service
use near_object_framework.Service.{NearObjectService}
use near_object_framework.ServiceRuntime
use near_object_framework.ServiceRuntime.{ServiceRuntime, set_service_instance}
use near_object_framework.UwbAgent.{Devices, Windows, uwb_impl}
use near_object_framework.DeviceEnumerator.{Name}

-- What leaves main, as an exception or by the end of the program.
pub data Failure : Type 0 where
  no_home_path cannot_persist terminated : Failure
  cannot_daemonize : ℕ → Failure

-- How a process ends: it returns from main, it ends by a failure, it ends inside daemon because it is the
-- parent, or it waits in the destructor of the runtime.
pub data Ending : Type 0 where
  returns : ℕ → Ending
  fails : Failure → Ending
  parent_exits waits : Ending

-- std::filesystem: whether a path is empty, and PathSuffix behind a path.
pub record Paths (P : Type 0) : Type 0 where
  pub empty_path : P
  pub is_empty_path : P → Bool
  pub append_suffix : P → P
  pub directories : Directories P

-- How the threads fare: whether the exchanges of Start and Stop fail spuriously, and how many steps the
-- thread of the runtime has between Start and the destruction, in the destruction between the exchange
-- of Stop and its notification, behind that, and after a spurious wakeup, if there is one.
pub record Schedule : Type 0 where
  pub start_spurious : Bool
  pub stop_spurious : Bool
  pub before : ℕ
  pub between : ℕ
  pub during : ℕ
  pub woken : Option ℕ

-- What is there before the runtime is started.
pub record Objects (P : Type 0) : Type 0 where
  pub profile_manager : NearObjectProfileManager P
  pub device_manager : NearObjectDeviceControllerManager
  pub service : NearObjectService

abbrev profile_manager_address : ℕ
profile_manager_address = 1

abbrev device_manager_address : ℕ
device_manager_address = 2

abbrev service_address : ℕ
service_address = 3

abbrev pub agent_address : ℕ
agent_address = 4

-- What a new UWB agent keeps, and a heap with the objects of main.
abbrev pub no_devices : Devices
no_devices = record {
  m_uwb_hcm_notification_handle = none;
  m_near_object_device_cache = [];
  heap = record { live = []; next = 5 };
  controllers = [];
}

-- NearObjectService::Create with the pointers to the managers.
abbrev pub make_objects :
    {P : Type 0} → NearObjectProfileManager P → NearObjectDeviceControllerManager → Objects P
make_objects profiles devices = record {
  profile_manager = profiles;
  device_manager = devices;
  service = Service.create service_address (record {
    profile_manager = profile_manager_address;
    device_manager = device_manager_address;
  });
}

-- A result, or the failure that ends the program.
pub data Result {ℓ} (A : Type ℓ) : Type ℓ where
  done : A → Result A
  failed : Failure → Result A

-- An exception of a call, as the failure of the program.
abbrev required {ℓ} : {A : Type ℓ} → Failure → Option A → Result A
required failure none = failed failure
required failure (some a) = done a

-- The rest of main, if it is reached.
abbrev pub proceed {ℓ} : {A : Type ℓ} → Result A → (A → Ending) → Ending
proceed (failed failure) rest = fails failure
proceed (done a) rest = rest a

module _ {P : Type 0} (paths : Paths P) where
  -- The profile manager over a new persister: what may throw is the persister's constructor.
  pub make_profiles : P → Option (NearObjectProfileManager P)
  make_profiles home = make_persister paths.directories (paths.append_suffix home) >>= λ persister.
      make_profile_manager (some persister)

  -- The objects of main, from the home path on, with the device manager that it makes.
  pub objects_in : P → NearObjectDeviceControllerManager → Result (Objects P)
  unfolding make_profiles
  objects_in home devices =
      if paths.is_empty_path home
      then failed no_home_path
      else elim (required cannot_persist (make_profiles home)) [
        | failed failure ↦ failed failure
        | done profiles ↦ done (make_objects profiles devices)
      ]

  -- GetUserHomePath on Linux: what std::getenv gives, or the empty path.
  pub linux_get_user_home_path : Option P → P
  linux_get_user_home_path none = paths.empty_path
  linux_get_user_home_path (some value) = value

  -- GetUserHomePath on Windows, by what _dupenv_s returns and the buffer that it gives: `none` where a
  -- path is made from a null pointer.
  pub windows_get_user_home_path : ℕ → Option P → Option P
  windows_get_user_home_path error buffer = if error == 0 then buffer else some paths.empty_path

-- The runtime that main starts, after the steps that its thread has had.
pub started_runtime : Schedule → NearObjectService → Option ServiceRuntime
started_runtime schedule service =
    ServiceRuntime.start schedule.start_spurious
      (set_service_instance (some service.address) ServiceRuntime.create)
    >>= λ runtime. some (ServiceRuntime.run_steps schedule.before runtime)

-- Whether the destructor of the runtime returns.
abbrev pub ending_of : Option ServiceRuntime → Ending
ending_of none = waits
ending_of (some over) = returns 0

-- The end of main's scope, where the runtime is destroyed.
pub leave : Schedule → ServiceRuntime → Ending
leave schedule runtime = ending_of (
    ServiceRuntime.destroy_in schedule.stop_spurious schedule.between schedule.during schedule.woken
      runtime)

-- The same in a process that does not have the thread, which so has no step.
pub leave_without_thread : Schedule → ServiceRuntime → Ending
unfolding leave
leave_without_thread schedule runtime =
    leave (record schedule { between = 0; during = 0; woken = none }) runtime

-- How a call of daemon returns: with an error, or without one in the child that it forks. The parent
-- does not return from it.
pub data Daemon : Type 0 where
  daemon_fails : ℕ → Daemon
  in_parent in_child : Daemon

-- The last part of the Linux main. The child has the runtime but not its thread, which stays as it was.
pub daemonize : Bool → Daemon → Schedule → ServiceRuntime → Ending
unfolding leave leave_without_thread
daemonize false daemon schedule runtime = leave schedule runtime
daemonize true (daemon_fails error) schedule runtime = fails (cannot_daemonize error)
daemonize true in_parent schedule runtime = parent_exits
daemonize true in_child schedule runtime = leave_without_thread schedule runtime

-- main of linux/nearobjectd.
pub linux_main :
    {P Args : Type 0} → Paths P → Parser Args → Args → Option P → Daemon → Schedule → Ending
unfolding objects_in linux_get_user_home_path daemonize started_runtime
linux_main paths parser args home daemon schedule =
    proceed (required terminated (from_command_line_arguments parser args false)) λ configuration.
      proceed (objects_in paths (linux_get_user_home_path paths home) Manager.create) λ objects.
        proceed (required terminated (started_runtime schedule objects.service))
          λ runtime. daemonize configuration.run_in_background daemon schedule runtime

-- The agent and the manager that the Windows main makes.
pub windows_devices :
    Windows
    → List Name
    → Bool
    → Bool
    → NearObjectDeviceControllerManager × Agent Devices (Option NearObjectDeviceControllerManager)
windows_devices windows names in_time spurious =
    let agent = DiscoveryAgent.make_agent agent_address none no_devices in
    add_discovery_agent (uwb_impl windows names in_time) spurious agent Manager.create

-- main of windows/nearobjectsvc: `none` where its behaviour is undefined.
pub windows_main :
    {P : Type 0}
    → Paths P
    → ℕ
    → Option P
    → Windows
    → List Name
    → Bool
    → Bool
    → Schedule
    → Option Ending
unfolding windows_devices objects_in windows_get_user_home_path leave started_runtime
windows_main paths error buffer windows names in_time spurious schedule =
    let (devices, agent) = windows_devices windows names in_time spurious in
    windows_get_user_home_path paths error buffer >>= λ home. some (
      proceed (objects_in paths home devices) λ objects.
        proceed (required terminated (started_runtime schedule objects.service))
          λ runtime. leave schedule runtime)
