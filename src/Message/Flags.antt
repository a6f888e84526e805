-- ===== src/Message/Flags.antt =====
-- message/flags.go: the flag bytes of the two headers, with their accessors. A flag byte is a
-- number below 256.
use go_matter.Base.{ℕ, bit_and, Bool, not, ◌==◌}

abbrev pub message_flag_source_node_id_present : ℕ
message_flag_source_node_id_present = 0x04

abbrev pub message_flag_dsiz_mask : ℕ
message_flag_dsiz_mask = 0x03

abbrev pub message_flag_dsiz_absent : ℕ
message_flag_dsiz_absent = 0x00

abbrev pub message_flag_dsiz_unicast : ℕ
message_flag_dsiz_unicast = 0x01

abbrev pub message_flag_dsiz_group : ℕ
message_flag_dsiz_group = 0x02

abbrev pub message_version_mask : ℕ
message_version_mask = 0xF0

abbrev pub message_version_shift : ℕ
message_version_shift = 4

-- `MessageFlags.SourcePresent`
abbrev pub source_present : ℕ → Bool
source_present f = not (bit_and f message_flag_source_node_id_present == 0)

-- `MessageFlags.DSIZ`
abbrev pub dsiz : ℕ → ℕ
dsiz f = bit_and f message_flag_dsiz_mask

abbrev pub security_flag_session_type_mask : ℕ
security_flag_session_type_mask = 0x03

abbrev pub session_type_unicast : ℕ
session_type_unicast = 0x00

-- `SecurityFlags.SessionType`
abbrev pub session_type : ℕ → ℕ
session_type f = bit_and f security_flag_session_type_mask

abbrev pub exchange_flag_initiator : ℕ
exchange_flag_initiator = 0x01

abbrev pub exchange_flag_acknowledgement : ℕ
exchange_flag_acknowledgement = 0x02

abbrev pub exchange_flag_reliability : ℕ
exchange_flag_reliability = 0x04

abbrev pub exchange_flag_vendor_present : ℕ
exchange_flag_vendor_present = 0x10

-- `ExchangeFlags.Has`
abbrev pub has : ℕ → ℕ → Bool
has f mask = bit_and f mask == mask
