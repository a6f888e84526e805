-- ===== src/Message/Header.antt =====
-- message/header.go: the message header and its wire form. A failed `Unmarshal` leaves its
-- receiver half filled in; every caller drops it, so `unmarshal` returns a header or an error.
pub mod Layout
pub mod RoundTrip
use go_matter.Base.{
  ℕ, ◌+◌, ◌/◌, ◌%◌, ◌^◌, ◌<◌, ◌≡◌, Bool, true, false, not, List, [], ◌∷◌, ltb, ◌==◌, if◌then◌else◌,
  bit_and, length, get_or, replicate, Result, ok, err, ◌>>=◌, ◌>>◌, refuse,
}
use go_matter.Base.Bytes.{Bytes, slice, put_at, put_le, get_le}
use go_matter.Message.Wire.{
  Error, header_too_short, header_reserved_dsiz, header_unknown_version, optional_field,
}
use go_matter.Message.Flags.{
  source_present, dsiz, message_flag_dsiz_absent, message_flag_dsiz_unicast,
  message_flag_dsiz_group, message_version_mask, message_version_shift,
}

pub record Header : Type 0 where
  pub flags : ℕ
  pub session_id : ℕ
  pub security_flags : ℕ
  pub message_counter : ℕ
  pub source_node_id : ℕ
  pub dest_node_id : ℕ

abbrev pub header_fixed_size : ℕ
header_fixed_size = 8

-- The first switch on `h.Flags.DSIZ()`: the size of the destination field.
abbrev pub dest_size : ℕ → Result Error ℕ
dest_size d =
    if d == message_flag_dsiz_absent
    then ok 0
    else if d == message_flag_dsiz_unicast
    then ok 8
    else if d == message_flag_dsiz_group
    then ok 2
    else err header_reserved_dsiz

-- The second switch: the destination field, written at `off`.
abbrev pub put_dest : Header → ℕ → Bytes → Bytes
put_dest h off buf =
    if dsiz h.flags == message_flag_dsiz_unicast
    then put_at off (put_le 8 h.dest_node_id) buf
    else if dsiz h.flags == message_flag_dsiz_group
    then put_at off (put_le 2 (h.dest_node_id % 2 ^ 16)) buf
    else buf

-- `Header.Marshal`: a zeroed buffer of the size that the flags ask for, filled at fixed offsets.
unfoldable pub marshal : Header → Result Error Bytes
marshal h = do
  let source_size : ℕ = if source_present h.flags then 8 else 0
  dest ← dest_size (dsiz h.flags)
  let buf = replicate (header_fixed_size + source_size + dest) 0
  let buf = put_at 0 (h.flags ∷ []) buf
  let buf = put_at 1 (put_le 2 h.session_id) buf
  let buf = put_at 3 (h.security_flags ∷ []) buf
  let buf = put_at 4 (put_le 4 h.message_counter) buf
  let sourced =
      if source_present h.flags
      then put_at header_fixed_size (put_le 8 h.source_node_id) buf
      else buf
  ok (put_dest h (header_fixed_size + source_size) sourced)

-- The switch on DSIZ of `Unmarshal`.
abbrev pub read_dest : ℕ → ℕ → Bytes → Result Error (ℕ × ℕ)
read_dest d off b =
    if d == message_flag_dsiz_absent
    then ok (0, off)
    else if d == message_flag_dsiz_unicast
    then optional_field header_too_short true 8 off b
    else if d == message_flag_dsiz_group
    then optional_field header_too_short true 2 off b
    else err header_reserved_dsiz

-- `Header.Unmarshal`: the header and the number of bytes consumed.
unfoldable pub unmarshal : Bytes → Result Error (Header × ℕ)
unmarshal b = do
  refuse (ltb (length b) header_fixed_size) header_too_short
  let flags = get_or b 0 0
  let version = bit_and flags message_version_mask
  refuse (not (version == 0)) (header_unknown_version (version / 2 ^ message_version_shift))
  (source, off) ← optional_field header_too_short (source_present flags) 8 header_fixed_size b
  (dest, end) ← read_dest (dsiz flags) off b
  ok (
    record {
      flags = flags;
      session_id = get_le (slice 1 3 b);
      security_flags = get_or b 3 0;
      message_counter = get_le (slice 4 8 b);
      source_node_id = source;
      dest_node_id = dest;
    },
    end,
  )

-- What a destination may be under each DSIZ: 3 is reserved, and an absent field is 0.
abbrev pub IsDest : ℕ → ℕ → Type 0
IsDest d dest =
    if d == message_flag_dsiz_absent
    then dest ≡ 0
    else if d == message_flag_dsiz_unicast
    then dest < 2 ^ 64
    else if d == message_flag_dsiz_group
    then dest < 2 ^ 16
    else ⊥

-- The headers that the wire form holds: version 0, every field in the range of its Go type, and
-- what the flags leave out is 0.
pub record IsCanonical (h : Header) : Type 0 where
  pub flags_byte : h.flags < 256
  pub version : bit_and h.flags message_version_mask ≡ 0
  pub session_word : h.session_id < 2 ^ 16
  pub security_byte : h.security_flags < 256
  pub counter_word : h.message_counter < 2 ^ 32
  pub source_word : h.source_node_id < 2 ^ 64
  pub source_absent : source_present h.flags ≡ false → h.source_node_id ≡ 0
  pub dest : IsDest (dsiz h.flags) h.dest_node_id
