-- ===== src/Message/Frame.antt =====
-- message/frame.go: a whole message, and its wire form.
pub mod RoundTrip
pub mod Size
use go_matter.Base.{ℕ, ◌+◌, ◌++◌, Result, ok, err, ◌>>=◌, length, drop}
use go_matter.Base.Bytes.{Bytes}
use go_matter.Message.Wire.{Error}
use go_matter.Message.Header
use go_matter.Message.Header.{Header}
use go_matter.Message.PayloadHeader
use go_matter.Message.PayloadHeader.{PayloadHeader}

-- A nil payload and an empty one are the same list.
pub record Frame : Type 0 where
  pub header : Header
  pub payload_header : PayloadHeader
  pub payload : Bytes

-- `Frame.Encode`
unfoldable pub encode : Frame → Result Error Bytes
encode f = do
  hdr ← Header.marshal f.header
  let phdr = PayloadHeader.marshal f.payload_header
  ok (hdr ++ (phdr ++ f.payload))

-- `Decode`
unfoldable pub decode : Bytes → Result Error Frame
decode b = do
  (header, n) ← Header.unmarshal b
  (payload_header, m) ← PayloadHeader.unmarshal (drop n b)
  ok (record { header = header; payload_header = payload_header; payload = drop (n + m) b })

-- A frame that the wire form holds.
pub record IsCanonical (f : Frame) : Type 0 where
  pub header : Header.IsCanonical f.header
  pub payload_header : PayloadHeader.IsCanonical f.payload_header
