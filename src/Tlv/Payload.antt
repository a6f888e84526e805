-- ===== src/Tlv/Payload.antt =====
-- commissioning/commissioning.go: `decodePayload`, one element with all its children, decoded.
use go_matter.Base.{if◌then◌else◌, Result, ok, ◌>>=◌, wrap}
use go_matter.Base.Bytes.{Bytes}
use go_matter.Tlv.Types
use go_matter.Tlv.Types.{Element, is_container}
use go_matter.Tlv.Reader.{read_element, read_container_children, type_of, with_children}
use go_matter.Tlv.Decoder
use go_matter.Tlv.Decoder.{GoType, El, zero_value, decode}

pub data Error : Type 0 where
  reading : Types.Error → Error
  decoding : Decoder.Error → Error

-- The reading part.
unfoldable pub read_item : Bytes → Result Types.Error (Element × Bytes)
read_item b = do
  (elem, rest) ← read_element b
  let nested = (do (subs, rest) ← read_container_children rest; ok (with_children elem subs, rest))
  if is_container (type_of elem) then nested else ok (elem, rest)

-- `decodePayload` into a new variable of type `t`; what follows the element is not looked at.
unfoldable pub decode_payload : (t : GoType) → Bytes → Result Error (El t)
unfolding read_item
decode_payload t b = do
  (elem, _) ← wrap reading (read_item b)
  wrap decoding (decode t elem (zero_value t))
