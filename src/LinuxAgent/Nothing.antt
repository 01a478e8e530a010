-- ===== src/LinuxAgent/Nothing.antt =====
-- A Linux agent at a manager.
use near_object_framework.Common.{arith, ◌≡◌, ap, ◌∙◌, Bool, true, false, [], ◌∷◌, ◌++◌, append-nil}
use near_object_framework.DiscoveryAgent.{Agent}
use near_object_framework.Manager.{NearObjectDeviceControllerManager, add_discovery_agent}
use near_object_framework.Manager.Agents.{World, brings, add_discovery_agent_lem}
use near_object_framework.LinuxAgent.{linux_impl, probe}

brings_nothing :
    (in_time : Bool) (agent : Agent Unit World) → brings (linux_impl in_time) agent ≡ []
unfolding linux_impl probe
brings_nothing true agent = ground arith
brings_nothing false agent = ground arith

-- AddDiscoveryAgent with a Linux agent gives the manager the agent and no device, whether the agent was
-- started or not, and whether its probe is in time or not.
pub linux_agent_brings_nothing :
    (in_time spurious : Bool) (agent : Agent Unit World) (m : NearObjectDeviceControllerManager)
    → let r = add_discovery_agent (linux_impl in_time) spurious agent m in
      (r.0.m_near_object_devices ≡ m.m_near_object_devices)
      × (r.0.m_discovery_agents ≡ m.m_discovery_agents ++ agent.address ∷ [])
linux_agent_brings_nothing in_time spurious agent m =
    let added = add_discovery_agent_lem (linux_impl in_time) spurious agent m in
    (
      added.0
          ∙ (ap (λ ds. m.m_near_object_devices ++ ds) (brings_nothing in_time agent)
              ∙ append-nil m.m_near_object_devices),
      added.1,
    )
