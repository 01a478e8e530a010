-- ===== src/StatusCodes.antt =====
-- lib/nearobject/include/nearobject/protocols/fira/uci/StatusCodes.hxx: the status codes of the FiRa command
-- interface.
use near_object_framework.Common.{ℕ}

-- StatusCode.
pub data StatusCode : Type 0 where
  ok rejected failed syntax_error : StatusCode
  invalid_parameter invalid_range invalid_message_size unknown_gid : StatusCode
  unknown_oid read_only command_retry uwb_session_not_exist : StatusCode
  uwb_session_duplicate uwb_session_active uwb_session_max_sessions_exceeded
        uwb_session_session_not_configured :
      StatusCode
  uwb_session_active_sessions_ongoing uwb_session_multicast_list_full uwb_session_address_not_found
        uwb_session_address_already_present :
      StatusCode
  ranging_tx_failed ranging_rx_timeout ranging_rx_phy_decoding_failed ranging_rx_phy_toa_failed :
      StatusCode
  ranging_rx_phy_sts_failed ranging_rx_mac_decoding_failed ranging_rx_mac_ie_decoded_failed
        ranging_rx_max_ie_missing :
      StatusCode

-- The conversion to the underlying std::uint8_t.
pub value_of : StatusCode → ℕ
value_of ok = 0x00
value_of rejected = 0x01
value_of failed = 0x02
value_of syntax_error = 0x03
value_of invalid_parameter = 0x04
value_of invalid_range = 0x05
value_of invalid_message_size = 0x06
value_of unknown_gid = 0x07
value_of unknown_oid = 0x08
value_of read_only = 0x09
value_of command_retry = 0x0A
value_of uwb_session_not_exist = 0x11
value_of uwb_session_duplicate = 0x12
value_of uwb_session_active = 0x13
value_of uwb_session_max_sessions_exceeded = 0x14
value_of uwb_session_session_not_configured = 0x15
value_of uwb_session_active_sessions_ongoing = 0x16
value_of uwb_session_multicast_list_full = 0x17
value_of uwb_session_address_not_found = 0x18
value_of uwb_session_address_already_present = 0x19
value_of ranging_tx_failed = 0x20
value_of ranging_rx_timeout = 0x21
value_of ranging_rx_phy_decoding_failed = 0x22
value_of ranging_rx_phy_toa_failed = 0x23
value_of ranging_rx_phy_sts_failed = 0x24
value_of ranging_rx_mac_decoding_failed = 0x25
value_of ranging_rx_mac_ie_decoded_failed = 0x26
value_of ranging_rx_max_ie_missing = 0x27

-- The three kinds of codes that the comments tell apart.
pub data Group : Type 0 where
  generic session ranging : Group

pub group_of : StatusCode → Group
group_of ok = generic
group_of rejected = generic
group_of failed = generic
group_of syntax_error = generic
group_of invalid_parameter = generic
group_of invalid_range = generic
group_of invalid_message_size = generic
group_of unknown_gid = generic
group_of unknown_oid = generic
group_of read_only = generic
group_of command_retry = generic
group_of uwb_session_not_exist = session
group_of uwb_session_duplicate = session
group_of uwb_session_active = session
group_of uwb_session_max_sessions_exceeded = session
group_of uwb_session_session_not_configured = session
group_of uwb_session_active_sessions_ongoing = session
group_of uwb_session_multicast_list_full = session
group_of uwb_session_address_not_found = session
group_of uwb_session_address_already_present = session
group_of ranging_tx_failed = ranging
group_of ranging_rx_timeout = ranging
group_of ranging_rx_phy_decoding_failed = ranging
group_of ranging_rx_phy_toa_failed = ranging
group_of ranging_rx_phy_sts_failed = ranging
group_of ranging_rx_mac_decoding_failed = ranging
group_of ranging_rx_mac_ie_decoded_failed = ranging
group_of ranging_rx_max_ie_missing = ranging
