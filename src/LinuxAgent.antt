-- ===== src/LinuxAgent.antt =====
-- linux/nearobject/service: NearObjectDeviceDiscoveryAgentUwb.{hxx,cxx}. It overrides the probe only, and
-- keeps nothing beside the base class.
mod Nothing
use near_object_framework.Common.{Bool, List, [], if◌then◌else◌}
use near_object_framework.Controller.{NearObjectDeviceController}
use near_object_framework.DiscoveryAgent.{AgentImpl, ready, timed_out, base_impl}

-- NearObjectDeviceDiscoveryAgentUwb::Probe.
pub probe : List NearObjectDeviceController
probe = []

-- The virtual functions, where the thread of the probe is in time or not for the caller that waits for it.
unfoldable pub linux_impl : Bool → AgentImpl Unit
unfolding probe base_impl
linux_impl in_time = record {
  start_impl = base_impl.start_impl;
  stop_impl = base_impl.stop_impl;
  probe_async_impl = λ s. (s, if in_time then ready probe else timed_out);
}
