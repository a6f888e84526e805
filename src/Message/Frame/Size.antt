-- ===== src/Message/Frame/Size.antt =====
-- How many bytes a frame adds to its payload.
use go_matter.Base.{
  ◌+◌, ◌≤◌, ◌≡◌, arith, ◌++◌, length, length-append, ok, bind-ok, ok-injective, ap,
}
use go_matter.Base.Bytes.{Bytes, put_le}
use go_matter.Message.Header
use go_matter.Message.Header.{Header}
use go_matter.Message.PayloadHeader
use go_matter.Message.PayloadHeader.{PayloadHeader}
use go_matter.Message.Frame.{Frame, encode}

pub length-header : (h : Header) (b : Bytes) → Header.marshal h ≡ ok b → length b ≤ 24
unfolding Header.marshal put_le
length-header h b e = ground arith

pub length-payload_header : (p : PayloadHeader) → length (PayloadHeader.marshal p) ≤ 12
unfolding PayloadHeader.marshal put_le
length-payload_header p = ground arith

-- A frame that encodes has at most 36 bytes beside its payload: 24 of the message header and 12 of
-- the exchange header.
pub length-encode : (f : Frame) (b : Bytes) → encode f ≡ ok b → length b ≤ 36 + length f.payload
unfolding encode
length-encode f b e =
    let (hdr, written, e') = bind-ok (Header.marshal f.header) _ e in
    let phdr = PayloadHeader.marshal f.payload_header in
    let whole : length (hdr ++ (phdr ++ f.payload)) ≡ length b = ap length (ok-injective e') in
    omega (
      arith,
      length-append hdr (phdr ++ f.payload),
      length-append phdr f.payload,
      length-header f.header hdr written,
      length-payload_header f.payload_header,
    )
