-- ===== src/DiscoveryAgent/Gate.antt =====
-- lib/nearobject/service/NearObjectDeviceControllerDiscoveryAgent.cxx with any number of threads in
-- DevicePresenceChanged and RegisterDiscoveryEventCallback, and m_onDevicePresenceChangedGate, which
-- the former share and the latter have alone. What such a thread does is taken in steps.
mod Running
mod Registered
mod Reentry
mod Tests
use near_object_framework.Common.{
  ℕ, zero, suc, ◌≡◌, ◌+◌, Bool, true, false, not, List, [], ◌∷◌, ◌++◌, Option, none, some,
  if◌then◌else◌, ltb,
}
use near_object_framework.Controller.{NearObjectDeviceController}
use near_object_framework.DiscoveryAgent.{
  Agent, Callback, NearObjectDevicePresence, register_discovery_event_callback,
}

-- How far a thread has come. In DevicePresenceChanged: before the shared lock, behind it, in the
-- callback, and before the unlock; and in a callback that calls RegisterDiscoveryEventCallback on the
-- same agent. In RegisterDiscoveryEventCallback: before the lock, behind it, and before the unlock.
pub data Thread (W : Type 0) : Type 0 where
  to_tell telling : NearObjectDevicePresence → NearObjectDeviceController → Thread W
  calling : Callback W → NearObjectDevicePresence → NearObjectDeviceController → Thread W
  registering_within :
      Callback W
      → NearObjectDevicePresence
      → NearObjectDeviceController
      → Option (Callback W)
      → Thread W
  told : Thread W
  to_register registering registered : Option (Callback W) → Thread W
  done : Thread W

-- The agent, the world that the callbacks act on, and the threads.
pub record Gate (S W : Type 0) : Type 0 where
  pub agent : Agent S W
  pub world : W
  pub threads : List (Thread W)

module _ {W : Type 0} where
  -- How often a thread holds the mutex, shared and alone.
  abbrev pub shared_by : Thread W → ℕ
  shared_by (to_tell presence device) = 0
  shared_by (telling presence device) = 1
  shared_by (calling f presence device) = 1
  shared_by (registering_within f presence device g) = 1
  shared_by told = 1
  shared_by (to_register g) = 0
  shared_by (registering g) = 0
  shared_by (registered g) = 0
  shared_by done = 0

  abbrev pub alone_by : Thread W → ℕ
  alone_by (to_tell presence device) = 0
  alone_by (telling presence device) = 0
  alone_by (calling f presence device) = 0
  alone_by (registering_within f presence device g) = 0
  alone_by told = 0
  alone_by (to_register g) = 0
  alone_by (registering g) = 1
  alone_by (registered g) = 1
  alone_by done = 0

  abbrev pub shared : List (Thread W) → ℕ
  shared [] = 0
  shared (t ∷ ts) = shared_by t + shared ts

  abbrev pub alone : List (Thread W) → ℕ
  alone [] = 0
  alone (t ∷ ts) = alone_by t + alone ts

  -- The callback that a thread is in.
  abbrev pub runs : Thread W → Option (Callback W)
  runs (to_tell presence device) = none
  runs (telling presence device) = none
  runs (calling f presence device) = some f
  runs (registering_within f presence device g) = some f
  runs told = none
  runs (to_register g) = none
  runs (registering g) = none
  runs (registered g) = none
  runs done = none

  -- What lock_shared and lock wait for.
  abbrev pub lets_share : List (Thread W) → Bool
  lets_share ts = not (ltb 0 (alone ts))

  abbrev pub lets_alone : List (Thread W) → Bool
  lets_alone ts = not (ltb 0 (shared ts + alone ts))

  -- The test for a callback behind the shared lock.
  abbrev pub tests :
      Option (Callback W) → NearObjectDevicePresence → NearObjectDeviceController → Thread W
  tests none presence device = told
  tests (some f) presence device = calling f presence device

module _ {S W : Type 0} where
  -- The next step of a thread, and what it makes of the agent and the world. A thread that waits for
  -- the lock stays where it is.
  pub go : Gate S W → Thread W → Thread W × Agent S W × W
  go g (to_tell presence device) =
      let next =
        if lets_share g.threads then telling presence device else to_tell presence device in
      (next, g.agent, g.world)
  go g (telling presence device) =
      (tests g.agent.m_on_device_presence_changed presence device, g.agent, g.world)
  go g (calling f presence device) = (told, g.agent, f presence device g.world)
  go g (registering_within f presence device h) =
      if lets_alone g.threads
      then (calling f presence device, register_discovery_event_callback h g.agent, g.world)
      else (registering_within f presence device h, g.agent, g.world)
  go g told = (done, g.agent, g.world)
  go g (to_register h) =
      let next = if lets_alone g.threads then registering h else to_register h in
      (next, g.agent, g.world)
  go g (registering h) = (registered h, register_discovery_event_callback h g.agent, g.world)
  go g (registered h) = (done, g.agent, g.world)
  go g done = (done, g.agent, g.world)

  -- A thread between two others has its next step.
  pub go_between : List (Thread W) → Thread W → List (Thread W) → Gate S W → Gate S W
  unfolding go
  go_between front t back g =
      let (t', agent, world) = go g t in
      record { agent = agent; world = world; threads = front ++ t' ∷ back }

  -- What may happen next: a thread calls one of the functions, a callback that is running calls
  -- RegisterDiscoveryEventCallback, or a thread goes on.
  pub data Step (g : Gate S W) : Gate S W → Type 0 where
    tells :
        (presence : NearObjectDevicePresence) (device : NearObjectDeviceController)
        → Step g (record g { threads = to_tell presence device ∷ g.threads })
    registers :
        (f : Option (Callback W)) → Step g (record g { threads = to_register f ∷ g.threads })
    registers_within :
        (front back : List (Thread W)) (f : Callback W) (presence : NearObjectDevicePresence)
        (device : NearObjectDeviceController) (h : Option (Callback W))
        → g.threads ≡ front ++ calling f presence device ∷ back
        → Step g (record g { threads = front ++ registering_within f presence device h ∷ back })
    goes_on :
        (front back : List (Thread W)) (t : Thread W)
        → g.threads ≡ front ++ t ∷ back
        → Step g (go_between front t back g)

  pub data Reach (g : Gate S W) : Gate S W → Type 0 where
    here : Reach g g
    later : {h k : Gate S W} → Reach g h → Step h k → Reach g k

-- No thread is in a function of the agent.
abbrev pub idle : {S W : Type 0} → Agent S W → W → Gate S W
idle agent world = record { agent = agent; world = world; threads = [] }
