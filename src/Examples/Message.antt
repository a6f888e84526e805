-- ===== src/Examples/Message.antt =====
-- message/: a unicast frame with a source, an acknowledgement and a payload.
use go_matter.Base.{◌≡◌, refl, arith, [], ◌∷◌, ◌++◌, List, take, Result, ok, err}
use go_matter.Base.Bytes.{Bytes, put_le, get_le}
use go_matter.Message.Header
use go_matter.Message.Header.{Header}
use go_matter.Message.PayloadHeader
use go_matter.Message.PayloadHeader.{PayloadHeader}
use go_matter.Message.Frame
use go_matter.Message.Frame.{Frame}
use go_matter.Message.Frame.RoundTrip.{decode-encode, encode-decode}
use go_matter.Message.Wire.{header_too_short, header_reserved_dsiz, header_unknown_version}
use go_matter.Message.Builder
use go_matter.Message.Builder.Canonical.{Call, IsTyped, calls, build-decode}
use go_matter.Message.Builder.Canonical

abbrev header : Header
header = record {
  flags = 0x05;
  session_id = 0x1234;
  security_flags = 0;
  message_counter = 7;
  source_node_id = 1;
  dest_node_id = 2;
}

abbrev header_bytes : Bytes
header_bytes =
    0x05 ∷ 0x34 ∷ 0x12 ∷ 0 ∷ 7 ∷ 0 ∷ 0 ∷ 0 ∷ 1 ∷ 0 ∷ 0 ∷ 0 ∷ 0 ∷ 0 ∷ 0 ∷ 0 ∷ 2 ∷ 0 ∷ 0 ∷ 0 ∷ 0 ∷ 0
    ∷ 0 ∷ 0 ∷ []

header_runs : Header.marshal header ≡ ok header_bytes
unfolding Header.marshal put_le
header_runs = refl

header_reads : Header.unmarshal (header_bytes ++ (9 ∷ [])) ≡ ok (header, 24)
unfolding Header.unmarshal get_le
header_reads = refl

short_header : Header.unmarshal (take 20 header_bytes) ≡ err header_too_short
unfolding Header.unmarshal get_le
short_header = refl

reserved_header : Header.unmarshal (0x03 ∷ take 7 header_bytes) ≡ err header_reserved_dsiz
unfolding Header.unmarshal get_le
reserved_header = refl

version_header : Header.unmarshal (0x10 ∷ take 7 header_bytes) ≡ err (header_unknown_version 1)
unfolding Header.unmarshal get_le
version_header = refl

header-IsCanonical : Header.IsCanonical header
header-IsCanonical = ground arith

abbrev payload_header : PayloadHeader
payload_header = record {
  exchange_flags = 0x03;
  opcode = 0x22;
  exchange_id = 5;
  protocol_id = 0;
  vendor_id = 0;
  ack_counter = 6;
}

payload_header-IsCanonical : PayloadHeader.IsCanonical payload_header
payload_header-IsCanonical = ground arith

abbrev payload_header_bytes : Bytes
payload_header_bytes = 0x03 ∷ 0x22 ∷ 5 ∷ 0 ∷ 0 ∷ 0 ∷ 6 ∷ 0 ∷ 0 ∷ 0 ∷ []

payload_header_reads : PayloadHeader.unmarshal payload_header_bytes ≡ ok (payload_header, 10)
unfolding PayloadHeader.unmarshal get_le
payload_header_reads = refl

abbrev frame : Frame
frame = record { header = header; payload_header = payload_header; payload = 0x15 ∷ 0x18 ∷ [] }

abbrev frame_bytes : Bytes
frame_bytes = header_bytes ++ (payload_header_bytes ++ (0x15 ∷ 0x18 ∷ []))

frame_reads : Frame.decode frame_bytes ≡ ok frame
unfolding Frame.decode Header.unmarshal PayloadHeader.unmarshal get_le
frame_reads = refl

decode-encode_example : (b : Bytes) × (Frame.encode frame ≡ ok b) × (Frame.decode b ≡ ok frame)
decode-encode_example =
    decode-encode frame
      (record { header = header-IsCanonical; payload_header = payload_header-IsCanonical })

encode-decode_example : Frame.IsCanonical frame × (Frame.encode frame ≡ ok frame_bytes)
encode-decode_example = encode-decode frame_bytes frame (ground arith) frame_reads

-- The commissioner's first frame, with a payload that is already encoded.
abbrev first_calls : List (Call Bytes)
first_calls =
    Canonical.unsecured
    ∷ Canonical.message_counter 1
    ∷ Canonical.source_node_id 1
    ∷ Canonical.dest_group_id 2
    ∷ Canonical.dest_node_id 2
    ∷ Canonical.protocol 0
    ∷ Canonical.opcode 0x20
    ∷ Canonical.exchange_id 1
    ∷ Canonical.initiator
    ∷ Canonical.request_ack
    ∷ Canonical.payload (Builder.value (0x15 ∷ 0x18 ∷ []))
    ∷ []

abbrev encode_bytes : Bytes → Result (Unit {0}) Bytes
encode_bytes b = ok b

abbrev first_frame : Frame
first_frame = record {
  header = record {
    flags = 0x05;
    session_id = 0;
    security_flags = 0;
    message_counter = 1;
    source_node_id = 1;
    dest_node_id = 2;
  };
  payload_header = record {
    exchange_flags = 0x05;
    opcode = 0x20;
    exchange_id = 1;
    protocol_id = 0;
    vendor_id = 0;
    ack_counter = 0;
  };
  payload = 0x15 ∷ 0x18 ∷ [];
}

first_build : Builder.build (calls encode_bytes first_calls Builder.new_builder) ≡ ok first_frame
unfolding calls Canonical.call Builder.build Builder.new_builder
first_build = refl

build-decode_example :
    (w : Bytes) × (Frame.encode first_frame ≡ ok w) × (Frame.decode w ≡ ok first_frame)
build-decode_example = build-decode encode_bytes first_calls first_frame (ground arith) first_build
