-- ===== src/Fira.antt =====
-- lib/nearobject/include/nearobject/protocols/fira: FiraDevice.hxx and, in uci, DeviceState.hxx,
-- SessionState.hxx, ControlMessage.hxx and ControlPacket.hxx, the enumerations of the FiRa
-- specifications. The status codes are in StatusCodes.

-- DeviceRole.
pub data DeviceRole : Type 0 where
  initiator responder : DeviceRole

-- DeviceType.
pub data DeviceType : Type 0 where
  controller controlee : DeviceType

-- StsPacketConfiguration.
pub data StsPacketConfiguration : Type 0 where
  sp0 sp1 sp3 : StsPacketConfiguration

-- RangingMethod.
pub data RangingMethod : Type 0 where
  single_sided_two_way double_sided_two_way : RangingMethod

-- MultiNodeMode.
pub data MultiNodeMode : Type 0 where
  unicast one_to_many : MultiNodeMode

-- SchedulingMode.
pub data SchedulingMode : Type 0 where
  time_based : SchedulingMode

-- MeasurementReportMode.
pub data MeasurementReportMode : Type 0 where
  deferred non_deferred : MeasurementReportMode

-- BlockBasedMode.
pub data BlockBasedMode : Type 0 where
  round_hopping hopping_sequence block_striding : BlockBasedMode

-- uci::DeviceState.
pub data DeviceState : Type 0 where
  ready active error : DeviceState

-- uci::SessionState.
pub data SessionState : Type 0 where
  deinit init idle active : SessionState
