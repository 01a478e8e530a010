-- ===== src/SecureElement.antt =====
-- lib/se: SecureElement.cxx and SecureElementChannel.cxx. A pointer to a channel is the channel.
use near_object_framework.Common.{ℕ, Option, none}

-- SecureElementChannel, by its number, a byte.
pub record SecureElementChannel : Type 0 where
  pub channel_id : ℕ

-- SecureElementChannel::SecureElementChannel.
pub make_channel : ℕ → SecureElementChannel
make_channel channel_id = record { channel_id = channel_id }

-- SecureElementChannel::Close does nothing so far.
pub close : SecureElementChannel → SecureElementChannel
close channel = channel

-- SecureElementChannel::~SecureElementChannel.
pub destroy : SecureElementChannel → SecureElementChannel
unfolding close
destroy channel = close channel

-- SecureElement::OpenChannel: it throws a logic_error.
pub open_channel : Option SecureElementChannel
open_channel = none
