-- ===== src/Examples/Values.antt =====
-- tlv/: Go values encoded and decoded.
use go_matter.Base.{◌≡◌, ◌≢◌, ◌≤◌, refl, arith, true, [], ◌∷◌, ◌++◌, some, ok, err, inl, inr}
use go_matter.Base.Bytes.{Bytes, equal, get_le}
use go_matter.Tlv.Types.{element, nil, context_tag, eof, reading_tag}
use go_matter.Tlv.Reader.{read_element, read_full, read_tag, read_value, read_container_children}
use go_matter.Tlv.Writer.{write_tag}
use go_matter.Tlv.StructTags.{dash}
use go_matter.Tlv.Encoder.{Value, encode_value, marshal, field_id, is_skipped}
use go_matter.Tlv.Decoder.{GoType, FieldTypes, El, view, view_fields, decode}
use go_matter.Tlv.Payload.{decode_payload}
use go_matter.Tlv.Decoder.InRange.{InRange, decode_payload-InRange}
use go_matter.Tlv.Encoder.Size.{size_bound, length-marshal}
use go_matter.Tlv.RoundTrip.Structs.{decode_payload-marshal}
use go_matter.Tlv.RoundTrip.Mismatch.{nil_pointer-misread, without_dash, dash_field-refused}
use go_matter.Commissioning.Messages.{pake1, pbkdf_param_response}
use go_matter.Commissioning.Fitting.{pbkdf_param_response-Fits}

marshal_run : marshal (view pake1 (1 ∷ 2 ∷ [], tt)) ≡ ok (0x15 ∷ 0x30 ∷ 1 ∷ 2 ∷ 1 ∷ 2 ∷ 0x18 ∷ [])
unfolding marshal view field_id is_skipped equal encode_value write_tag
marshal_run = refl

abbrev toy_response : El pbkdf_param_response
toy_response = (1 ∷ [], (2 ∷ [], (300, (some (1000, (7 ∷ 8 ∷ [], tt)), tt))))

decode_payload-marshal_example :
    (bs : Bytes) × (marshal (view pbkdf_param_response toy_response) ≡ ok bs)
    × (decode_payload pbkdf_param_response (bs ++ (9 ∷ [])) ≡ ok toy_response)
decode_payload-marshal_example = decode_payload-marshal pbkdf_param_response toy_response (9 ∷ []) (
    pbkdf_param_response-Fits (1 ∷ []) (2 ∷ []) 300 (some (1000, (7 ∷ 8 ∷ [], tt))) (omega arith)
      (omega arith) (omega arith) (omega arith, omega arith))

nil_pointer-misread_example :
    (encode_value Value.nil_pointer (context_tag 2) ≡ ok (0x34 ∷ []))
    × (read_element (0x34 ∷ []) ≡ err (reading_tag eof))
    × (read_element (0x34 ∷ 0x18 ∷ []) ≡ ok (element (context_tag 0x18) 0x14 [] nil, []))
nil_pointer-misread_example = nil_pointer-misread 2 0x18 [] (omega arith)

-- A field with the tag "1" and one with the tag "-".
abbrev dashed : FieldTypes
dashed =
    FieldTypes.field (b'1' ∷ []) true (GoType.uint 8)
      (FieldTypes.field dash true (GoType.uint 8) FieldTypes.end)

dash_field-refused_example :
    (marshal (view (GoType.struct dashed) (3, (4, tt)))
      ≡ marshal (Value.struct (without_dash (view_fields dashed (3, (4, tt))))))
    × (decode_payload (GoType.struct dashed) (0x15 ∷ 0x24 ∷ 1 ∷ 3 ∷ 0x18 ∷ []) ≢ ok (3, (4, tt)))
dash_field-refused_example =
    dash_field-refused dashed (3, (4, tt)) (0x15 ∷ 0x24 ∷ 1 ∷ 3 ∷ 0x18 ∷ []) (3, (4, tt))
      (inr (inl (refl, refl)))

-- The payload of the response, with a session id of two bytes.
abbrev response_bytes : Bytes
response_bytes =
    0x15 ∷ 0x30 ∷ 1 ∷ 1 ∷ 1 ∷ 0x30 ∷ 2 ∷ 1 ∷ 2 ∷ 0x25 ∷ 3 ∷ 44 ∷ 1 ∷ 0x35 ∷ 4 ∷ 0x25 ∷ 1 ∷ 232 ∷ 3
    ∷ 0x30 ∷ 2 ∷ 2 ∷ 7 ∷ 8 ∷ 0x18 ∷ 0x18 ∷ []

response_decodes : decode_payload pbkdf_param_response response_bytes ≡ ok toy_response
unfolding decode_payload read_element read_full read_tag read_value read_container_children get_le
    decode
response_decodes = refl

decode_payload-InRange_example : InRange pbkdf_param_response toy_response
decode_payload-InRange_example =
    decode_payload-InRange pbkdf_param_response response_bytes toy_response response_decodes

length-marshal_example : 7 ≤ size_bound (view pake1 (1 ∷ 2 ∷ [], tt))
length-marshal_example =
    length-marshal (view pake1 (1 ∷ 2 ∷ [], tt)) (0x15 ∷ 0x30 ∷ 1 ∷ 2 ∷ 1 ∷ 2 ∷ 0x18 ∷ [])
      marshal_run
