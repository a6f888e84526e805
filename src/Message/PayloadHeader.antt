-- ===== src/Message/PayloadHeader.antt =====
-- message/payload_header.go: the exchange header and its wire form. As for the message header, a
-- failed `Unmarshal` is an error and nothing else.
pub mod RoundTrip
use go_matter.Base.{
  ℕ, ◌+◌, ◌^◌, ◌<◌, ◌≡◌, Bool, true, false, List, [], ◌∷◌, ◌++◌, ltb, if◌then◌else◌, bit_and,
  length, get_or, replicate, Result, ok, err, ◌>>=◌, ◌>>◌, refuse,
}
use go_matter.Base.Bytes.{Bytes, slice, put_at, put_le, get_le}
use go_matter.Message.Wire.{Error, payload_header_too_short, optional_field}
use go_matter.Message.Flags.{has, exchange_flag_vendor_present, exchange_flag_acknowledgement}

pub record PayloadHeader : Type 0 where
  pub exchange_flags : ℕ
  pub opcode : ℕ
  pub exchange_id : ℕ
  pub protocol_id : ℕ
  pub vendor_id : ℕ
  pub ack_counter : ℕ

abbrev pub payload_header_fixed_size : ℕ
payload_header_fixed_size = 6

abbrev pub vendor_present : ℕ → Bool
vendor_present f = has f exchange_flag_vendor_present

abbrev pub acknowledges : ℕ → Bool
acknowledges f = has f exchange_flag_acknowledgement

-- `PayloadHeader.Marshal`, which has no error.
unfoldable pub marshal : PayloadHeader → Bytes
marshal p =
    let vendor_size : ℕ = if vendor_present p.exchange_flags then 2 else 0 in
    let ack_size : ℕ = if acknowledges p.exchange_flags then 4 else 0 in
    let buf = replicate (payload_header_fixed_size + vendor_size + ack_size) 0 in
    let buf = put_at 0 (p.exchange_flags ∷ []) buf in
    let buf = put_at 1 (p.opcode ∷ []) buf in
    let buf = put_at 2 (put_le 2 p.exchange_id) buf in
    let buf = put_at 4 (put_le 2 p.protocol_id) buf in
    let sold =
      if vendor_present p.exchange_flags
      then put_at payload_header_fixed_size (put_le 2 p.vendor_id) buf
      else buf in
    if acknowledges p.exchange_flags
    then put_at (payload_header_fixed_size + vendor_size) (put_le 4 p.ack_counter) sold
    else sold

-- `PayloadHeader.Unmarshal`: the header and the number of bytes consumed.
unfoldable pub unmarshal : Bytes → Result Error (PayloadHeader × ℕ)
unmarshal b = do
  refuse (ltb (length b) payload_header_fixed_size) payload_header_too_short
  let flags = get_or b 0 0
  (vendor, off) ←
      optional_field payload_header_too_short (vendor_present flags) 2 payload_header_fixed_size b
  (ack, end) ← optional_field payload_header_too_short (acknowledges flags) 4 off b
  ok (
    record {
      exchange_flags = flags;
      opcode = get_or b 1 0;
      exchange_id = get_le (slice 2 4 b);
      protocol_id = get_le (slice 4 6 b);
      vendor_id = vendor;
      ack_counter = ack;
    },
    end,
  )

-- The headers that the wire form holds: every field in the range of its Go type, and what the
-- flags leave out is 0.
pub record IsCanonical (p : PayloadHeader) : Type 0 where
  pub flags_byte : p.exchange_flags < 256
  pub opcode_byte : p.opcode < 256
  pub exchange_word : p.exchange_id < 2 ^ 16
  pub protocol_word : p.protocol_id < 2 ^ 16
  pub vendor_word : p.vendor_id < 2 ^ 16
  pub vendor_absent : vendor_present p.exchange_flags ≡ false → p.vendor_id ≡ 0
  pub ack_word : p.ack_counter < 2 ^ 32
  pub ack_absent : acknowledges p.exchange_flags ≡ false → p.ack_counter ≡ 0
