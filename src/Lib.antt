-- ===== src/Lib.antt =====
-- The near object framework: sessions with near objects, the devices that make them possible, and
-- the tools that they stand on. Paths below are from the root of the repository.
--
-- A task queue (lib/shared/notstd) runs callables on a thread of its own. A session
-- (lib/nearobject) keeps the near objects that take part and a ranging session, and tells its
-- client of every change by a callable that it posts to its own task queue. A controller
-- (lib/nearobject/service) stands for a device that starts sessions. A manager keeps the
-- controllers: discovery agents tell it which devices arrive and depart, through a callback that
-- it registers. The Windows UWB agent keeps a cache of weak pointers to the controllers that it
-- has made, by the names of the device interfaces, which the device enumerator lists. Connection
-- profiles are kept by a manager in memory and by a persister in a file of JSON. The service
-- runtime is the thread of the service. The TLV codec and the APDU command are for smart cards,
-- and scope_exit runs a callable at the end of a scope. The main programs read the command line
-- and the environment, build a service of the managers, and start the runtime.
--
--   Common           the names, tests and list lemmas that the others share
--   TaskQueue        lib/shared/notstd/task_queue.cxx and its header: task_queue::post is `post`,
--                    task_queue::stop `stop`, a turn of process_queue `process_queue_step`; clients
--                    and worker are interleaved by the relation `Step`, and `TaskQueue.Fifo` has
--                    the contract
--   Tlv              lib/shared/tlv/TlvSimple.cxx: TlvSimple::Parse is `parse`, with a uint16_t length
--   NearObject       lib/nearobject/NearObject.cxx, NearObjectCapabilities.hxx: values and equality
--   Session          lib/nearobject/NearObjectSession.cxx: a method is a function on the state that
--                    may throw, under the method's name;
--                    `Session.Threads` has them in steps, with their mutexes and many threads
--   Controller       lib/nearobject/service/NearObjectDeviceController.cxx and its UWB variant
--   DiscoveryAgent   lib/nearobject/service/NearObjectDeviceControllerDiscoveryAgent.cxx: the virtual
--                    functions are the record `AgentImpl`; `DiscoveryAgent.Gate` has the callback with its
--                    mutex and many threads
--   Manager          lib/nearobject/service/NearObjectDeviceControllerManager.cxx
--   DeviceEnumerator windows/devices/util/DeviceEnumerator.cxx
--   UwbAgent         windows/nearobject/service/NearObjectDeviceDiscoveryAgentUwb.cxx
--   LinuxAgent       linux/nearobject/service/NearObjectDeviceDiscoveryAgentUwb.cxx
--   Discovery        lib/nearobject/discovery, and the stubs of SecureDevice.cxx and NearObjectManager.cxx
--   Profile          lib/nearobject/NearObjectProfile.cxx, NearObjectProfileSecurity.cxx
--   Persister        lib/nearobject/persist and lib/shared/jsonify: the JSON library is the record
--                    `Json`, and what its documentation says `RoundTrip.JsonLaws`
--   ProfileManager   lib/nearobject/service/NearObjectProfileManager.cxx: `ProfileManager.Additions` has
--                    AddProfile in steps, on many threads
--   ServiceRuntime   lib/nearobject/service/ServiceRuntime.cxx: Run is `run_step`, a step at a time
--   ScopeExit        lib/shared/notstd/include/notstd/scope.hxx: all lambda_call objects of a callable
--   Apdu             lib/smartcard/Apdu.cxx: the command and its views
--   Smartcard        lib/smartcard/Smartcard.cxx and windows/devices/smartcard/Smartcard.cxx: the pending
--                    transmission; a future is its number
--   UwbSystem        the UWB agent and the manager together, where the manager owns the devices
--   Configuration    lib/nearobject/service/NearObjectServiceConfiguration.cxx: the command-line
--                    library is the record `Parser`
--   Service          lib/nearobject/service/NearObjectService.cxx and its injector
--   Programs         linux/nearobjectd/Main.cxx is `linux_main`, windows/nearobjectsvc/Main.cxx
--                    `windows_main`
--   UwbDevice        windows/devices/uwb/UwbDevice.cxx, over the open handles of the process
--   Fira             lib/nearobject/include/nearobject/protocols/fira: the enumerations
--   SecureElement    lib/se
--   StatusCodes      lib/nearobject/include/nearobject/protocols/fira/uci/StatusCodes.hxx
--   Range            lib/shared/notstd/include/notstd/range.hxx
--   ToString         lib/shared/notstd/include/notstd/tostring.hxx and the ToString functions
--   Guid             windows/shared/notstd/guid.hxx
--
-- The theorems on a component are in modules below it, named for what they prove, and its tests
-- and examples are in its Tests.
--
-- A function that takes a lock for its whole body is one step; `Session.Threads` and
-- `DiscoveryAgent.Gate` take such functions apart. Functions that no lock covers as a whole are
-- in steps in `Session.Whole` (EndSession), `DiscoveryAgent.Overlap` (Start and Stop) and
-- `ProfileManager.Additions` (AddProfile). No other client calls stop while
-- stop_and_wait_for_task_completion joins the worker of a task queue. A std::shared_ptr is the
-- address of its object with the value that it holds, a std::weak_ptr an address; no two objects
-- ever have one address. The type double and its comparison, the JSON library, the derived
-- classes of a controller and of an agent, and the calls of Windows are parameters.
-- compare_exchange_weak may fail spuriously wherever it is called. A read outside a buffer is
-- `none`.
--
-- Some loops run on fuel. The worker of a task queue that has been stopped gets as many steps as
-- it has tasks, and four more (`TaskQueue.enough`): one for each task, and the others to end a
-- batch, to take the next, to end that and to leave. The loop over the names of a buffer gets the
-- length of the buffer, since every turn moves the pointer on. The thread that the destructor of
-- the service runtime joins gets numbers of steps as arguments.
--
-- TransmitAsync of a smart card runs on fuel as well, and no fuel is enough for it: it calls
-- itself. The loop over a range gets its turns as an argument, one more than it has elements.
--
-- Not modelled: std::bad_alloc and the failure of a lock; a read of the profiles' file while a
-- thread is in the middle of writing a text to it (it is empty before that); the parts that are
-- empty so far (FiRa messages, UWB sessions, BER-TLV, the command-line tool).
pub mod Common
pub mod Apdu
pub mod Configuration
pub mod Controller
pub mod DeviceEnumerator
pub mod Discovery
pub mod DiscoveryAgent
pub mod Fira
pub mod Guid
pub mod LinuxAgent
pub mod Manager
pub mod NearObject
pub mod Persister
pub mod Profile
pub mod ProfileManager
pub mod Programs
pub mod Range
pub mod ScopeExit
pub mod SecureElement
pub mod Service
pub mod ServiceRuntime
pub mod Session
pub mod Smartcard
pub mod StatusCodes
pub mod TaskQueue
pub mod Tlv
pub mod ToString
pub mod UwbAgent
pub mod UwbDevice
pub mod UwbSystem
