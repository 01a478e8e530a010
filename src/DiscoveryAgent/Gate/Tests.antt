-- ===== src/DiscoveryAgent/Gate/Tests.antt =====
-- Threads that register callbacks and tell presence changes. The callbacks count.
use near_object_framework.Common.{ℕ, ◌+◌, ◌≡◌, refl, List, [], ◌∷◌, some, inl, inr}
use near_object_framework.Controller.{
  NearObjectDeviceController, make_uwb_controller, make_controller,
}
use near_object_framework.DiscoveryAgent.{
  Agent, Callback, arrived, make_agent, register_discovery_event_callback,
}
use near_object_framework.DiscoveryAgent.Gate.{
  Thread, to_tell, telling, calling, registering_within, told, to_register, registering, registered,
  done, Gate, shared, alone, go, go_between, tells, registers, registers_within, goes_on, Reach,
  here, later, idle,
}
use near_object_framework.DiscoveryAgent.Gate.Registered.{
  Among, only_registered_runs, registered_alone,
}
use near_object_framework.DiscoveryAgent.Gate.Reentry.{register_within_waits}

device : NearObjectDeviceController
unfolding make_uwb_controller make_controller
device = make_uwb_controller 5

abbrev one_more : Callback ℕ
one_more presence d n = n + 1

abbrev two_more : Callback ℕ
two_more presence d n = n + 2

-- An agent with a callback.
fresh : Agent Unit ℕ
unfolding make_agent
fresh = make_agent 1 (some one_more) tt

abbrev with_threads : List (Thread ℕ) → Gate Unit ℕ
with_threads ts = record { agent = fresh; world = 0; threads = ts }

-- A thread is in the callback while another one waits to register the other callback.
abbrev busy : Gate Unit ℕ
busy = with_threads (to_register (some two_more) ∷ calling one_more arrived device ∷ [])

busy-Reach : Reach (idle fresh 0) busy
unfolding go_between go fresh make_agent
busy-Reach =
    later
      (later
        (later
          (later (later here (tells arrived device)) (goes_on [] [] (to_tell arrived device) refl))
          (goes_on [] [] (telling arrived device) refl))
        (registers (some two_more)))
      (goes_on [] (calling one_more arrived device ∷ []) (to_register (some two_more)) refl)

only_registered_runs_example :
    (busy.agent.m_on_device_presence_changed ≡ some one_more) × (alone busy.threads ≡ 0)
only_registered_runs_example =
    only_registered_runs fresh 0 (calling one_more arrived device) one_more busy-Reach
      (inr (inl refl)) refl

-- The callback has run, and the other one is registered.
exchanged : Gate Unit ℕ
unfolding register_discovery_event_callback
exchanged = record {
  agent = register_discovery_event_callback (some two_more) fresh;
  world = 1;
  threads = registered (some two_more) ∷ done ∷ [];
}

exchanged-Reach : Reach (idle fresh 0) exchanged
unfolding go_between go exchanged register_discovery_event_callback
exchanged-Reach =
    later
      (later
        (later
          (later busy-Reach
            (goes_on (to_register (some two_more) ∷ []) [] (calling one_more arrived device) refl))
          (goes_on (to_register (some two_more) ∷ []) [] told refl))
        (goes_on [] (done ∷ []) (to_register (some two_more)) refl))
      (goes_on [] (done ∷ []) (registering (some two_more)) refl)

exchanged-Among : Among (registered (some two_more)) exchanged.threads
unfolding exchanged
exchanged-Among = inl refl

registered_alone_example :
    (exchanged.agent.m_on_device_presence_changed ≡ some two_more) × (shared exchanged.threads ≡ 0)
registered_alone_example = registered_alone fresh 0 (some two_more) exchanged-Reach exchanged-Among

-- The callback registers the other one by itself, and another thread tells a presence change.
abbrev within : Thread ℕ
within = registering_within one_more arrived device (some two_more)

abbrev stuck : Gate Unit ℕ
stuck = with_threads (to_register (some two_more) ∷ within ∷ [])

abbrev later_on : Gate Unit ℕ
later_on = with_threads (to_tell arrived device ∷ to_register (some two_more) ∷ within ∷ [])

stuck-Reach : Reach (idle fresh 0) stuck
stuck-Reach = later busy-Reach (
    registers_within (to_register (some two_more) ∷ []) [] one_more arrived device (some two_more)
      refl)

later_on-Reach : Reach stuck later_on
unfolding go_between go
later_on-Reach =
    later (later here (goes_on (to_register (some two_more) ∷ []) [] within refl))
      (tells arrived device)

register_within_waits_example :
    Among within later_on.threads
    × (later_on.agent.m_on_device_presence_changed ≡ some one_more)
    × (alone later_on.threads ≡ 0)
register_within_waits_example =
    register_within_waits one_more arrived device (some two_more) fresh 0 stuck-Reach
      (inr (inl refl)) later_on-Reach
