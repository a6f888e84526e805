-- ===== src/Message/Builder.antt =====
-- message/builder.go: the fluent constructor of frames. A method returns the builder after it;
-- the receiver is never shared, so passing the value is the same as passing the pointer.
-- `V` stands for the Go values that `tlv.Marshal` encodes, and `marshal` for `tlv.Marshal`,
-- which Tlv.Encoder has.
pub mod Flags
pub mod Canonical
use go_matter.Base.{
  ℕ, ◌-◌, ◌+◌, ◌%◌, ◌^◌, Bool, true, false, [], ◌==◌, ◌&&◌, if◌then◌else◌, bit_and, bit_or, Option,
  none, some, Result, ok, err,
}
use go_matter.Base.Bytes.{Bytes}
use go_matter.Message.Flags.{
  message_flag_source_node_id_present, message_flag_dsiz_mask, message_flag_dsiz_unicast,
  message_flag_dsiz_group, security_flag_session_type_mask, session_type_unicast,
  exchange_flag_initiator, exchange_flag_reliability, exchange_flag_acknowledgement,
  exchange_flag_vendor_present,
}
use go_matter.Message.Header.{Header}
use go_matter.Message.PayloadHeader.{PayloadHeader}
use go_matter.Message.Frame.{Frame}

-- What `Build` reports: a payload that `tlv.Marshal` refused, or no protocol and opcode.
pub data Error (E : Type 0) : Type 0 where
  payload_marshal : E → Error E
  missing_protocol_opcode : Error E

pub record Builder (E : Type 0) : Type 0 where
  pub frame : Frame
  pub has_payload : Bool
  pub failed : Option (Error E)

-- The zero `Frame`.
abbrev pub empty_frame : Frame
empty_frame = record {
  header = record {
    flags = 0;
    session_id = 0;
    security_flags = 0;
    message_counter = 0;
    source_node_id = 0;
    dest_node_id = 0;
  };
  payload_header = record {
    exchange_flags = 0;
    opcode = 0;
    exchange_id = 0;
    protocol_id = 0;
    vendor_id = 0;
    ack_counter = 0;
  };
  payload = [];
}

-- `f &^ mask` on bytes.
abbrev pub and_not : ℕ → ℕ → ℕ
and_not f mask = bit_and f (255 - mask)

-- The forms of `Payload`'s argument: nil, a []byte, and any other value.
pub data Argument (V : Type 0) : Type 0 where
  nothing : Argument V
  raw : Bytes → Argument V
  value : V → Argument V

module _ {E : Type 0} where
  abbrev pub map_header : (Header → Header) → Builder E → Builder E
  map_header g b = record b { frame = record (b.frame) { header = g b.frame.header } }

  abbrev pub map_payload_header : (PayloadHeader → PayloadHeader) → Builder E → Builder E
  map_payload_header g b = record b {
    frame = record (b.frame) { payload_header = g b.frame.payload_header };
  }

  unfoldable pub new_builder : Builder E
  new_builder = record { frame = empty_frame; has_payload = false; failed = none }

  unfoldable pub session_id : ℕ → Builder E → Builder E
  session_id id = map_header λ h. record h { session_id = id }

  unfoldable pub message_counter : ℕ → Builder E → Builder E
  message_counter c = map_header λ h. record h { message_counter = c }

  unfoldable pub source_node_id : ℕ → Builder E → Builder E
  source_node_id id = map_header λ h. record h {
    source_node_id = id;
    flags = bit_or h.flags message_flag_source_node_id_present;
  }

  unfoldable pub dest_node_id : ℕ → Builder E → Builder E
  dest_node_id id = map_header λ h. record h {
    dest_node_id = id;
    flags = bit_or (and_not h.flags message_flag_dsiz_mask) message_flag_dsiz_unicast;
  }

  unfoldable pub dest_group_id : ℕ → Builder E → Builder E
  dest_group_id id = map_header λ h. record h {
    dest_node_id = id;
    flags = bit_or (and_not h.flags message_flag_dsiz_mask) message_flag_dsiz_group;
  }

  unfoldable pub unsecured : Builder E → Builder E
  unsecured = map_header λ h. record h {
    session_id = 0;
    security_flags =
        bit_or (and_not h.security_flags security_flag_session_type_mask) session_type_unicast;
  }

  unfoldable pub protocol : ℕ → Builder E → Builder E
  protocol id = map_payload_header λ p. record p { protocol_id = id }

  unfoldable pub opcode : ℕ → Builder E → Builder E
  opcode op = map_payload_header λ p. record p { opcode = op }

  unfoldable pub exchange_id : ℕ → Builder E → Builder E
  exchange_id id = map_payload_header λ p. record p { exchange_id = id }

  unfoldable pub initiator : Builder E → Builder E
  initiator =
      map_payload_header
        λ p. record p { exchange_flags = bit_or p.exchange_flags exchange_flag_initiator }

  unfoldable pub request_ack : Builder E → Builder E
  request_ack =
      map_payload_header
        λ p. record p { exchange_flags = bit_or p.exchange_flags exchange_flag_reliability }

  unfoldable pub ack_counter : ℕ → Builder E → Builder E
  ack_counter c = map_payload_header λ p. record p {
    ack_counter = c;
    exchange_flags = bit_or p.exchange_flags exchange_flag_acknowledgement;
  }

  unfoldable pub vendor : ℕ → Builder E → Builder E
  vendor id = map_payload_header λ p. record p {
    vendor_id = id;
    exchange_flags = bit_or p.exchange_flags exchange_flag_vendor_present;
  }

  abbrev pub set_payload : Bytes → Builder E → Builder E
  set_payload bytes b = record b {
    frame = record (b.frame) { payload = bytes };
    has_payload = true;
  }

  -- The first error stays.
  abbrev pub fail : Option (Error E) → E → Option (Error E)
  fail none e = some (payload_marshal e)
  fail (some old) e = some old

  abbrev pub set_encoded : Result E Bytes → Builder E → Builder E
  set_encoded (ok encoded) b = set_payload encoded b
  set_encoded (err e) b = record b { has_payload = true; failed = fail b.failed e }

  -- `Builder.Payload`
  unfoldable pub payload : {V : Type 0} → (V → Result E Bytes) → Argument V → Builder E → Builder E
  payload marshal nothing b = set_payload [] b
  payload marshal (raw bytes) b = set_payload bytes b
  payload marshal (value v) b = set_encoded (marshal v) b

  -- `Builder.Build`
  abbrev pub build_frame : Option (Error E) → Frame → Result (Error E) Frame
  build_frame (some e) f = err e
  build_frame none f =
      if f.payload_header.protocol_id == 0 && f.payload_header.opcode == 0
      then err missing_protocol_opcode
      else ok f

  unfoldable pub build : Builder E → Result (Error E) Frame
  build b = build_frame b.failed b.frame
