-- ===== src/Tlv/RoundTrip/Mismatch.antt =====
-- Where encoder and decoder do not fit together.
use go_matter.Base.{
  ℕ, ◌<◌, ◌≡◌, ◌≢◌, ◌⊎◌, refl, arith, true, [], ◌∷◌, ok, err, if◌then◌else◌, inl, inr, Bool-cases,
  bind-ok, wrap, wrap-ok,
}
use go_matter.Base.Bytes.{Bytes, equal, get_le}
use go_matter.Tlv.Types.{context_tag, element, nil, Elements, eof, reading_tag}
use go_matter.Tlv.Reader.{read_element, read_full, read_tag, read_value}
use go_matter.Tlv.StructTags.{dash}
use go_matter.Tlv.Encoder.{Value, Fields, encode_value, encode_struct, is_skipped, marshal}
use go_matter.Tlv.Decoder.{
  GoType, FieldTypes, Els, decode, decode_struct, wanted_id, invalid_tag, zero_values, children_of,
  view, view_fields,
}
use go_matter.Tlv.Payload.{decode_payload, read_item, reading, decoding}
use go_matter.Tlv.Decoder.InRange.{field-ok, refuse-ok}

-- A nil pointer under a context-specific tag is written as a control byte that announces a tag id,
-- with no id behind it: read alone it fails, and else the byte that follows is taken for the id.
pub nil_pointer-misread :
    (id x : ℕ) (rest : Bytes)
    → x < 256
    → (encode_value Value.nil_pointer (context_tag id) ≡ ok (0x34 ∷ []))
      × (read_element (0x34 ∷ []) ≡ err (reading_tag eof))
      × (read_element (0x34 ∷ x ∷ rest) ≡ ok (element (context_tag x) 0x14 [] nil, rest))
unfolding encode_value read_element read_full read_tag read_value get_le
nil_pointer-misread id x rest h = (refl, refl, ground arith)

-- Some exported field has the tag "-".
abbrev pub HasDash : FieldTypes → Type 0
HasDash FieldTypes.end = ⊥
HasDash (FieldTypes.field text exported t ts) = (text ≡ dash) × (exported ≡ true) ⊎ HasDash ts

-- The fields that have another tag.
unfoldable pub without_dash : Fields → Fields
unfolding equal
without_dash Fields.end = Fields.end
without_dash (Fields.field text v fs) =
    let rest = without_dash fs in if equal text dash then rest else Fields.field text v rest

encode_struct-without_dash : (fs : Fields) → encode_struct fs ≡ encode_struct (without_dash fs)
unfolding encode_struct is_skipped without_dash
encode_struct-without_dash Fields.end = refl
encode_struct-without_dash (Fields.field text v fs) = elim (Bool-cases (equal text dash)) [
  | inl is ↦ ground (arith, encode_struct-without_dash fs)
  | inr differs ↦ ground (arith, encode_struct-without_dash fs)
]

-- The decoder fails when it comes to such a field, or before.
decode_struct-HasDash :
    (ts : FieldTypes) (es : Elements) (vs vs' : Els ts)
    → HasDash ts
    → decode_struct ts es vs ≢ ok vs'
unfolding decode_struct
decode_struct-HasDash FieldTypes.end es vs vs' none h = none
decode_struct-HasDash (FieldTypes.field text exported t ts) es (v, vs) vs' (inl (is, seen)) h =
    let fails : decode_struct (FieldTypes.field text exported t ts) es (v, vs)
        ≡ err (invalid_tag dash) =
      rw (is, seen) in
    cc
decode_struct-HasDash (FieldTypes.field text exported t ts) es (v, vs) (v', vs') (inr more) h =
    let (_, rest) = field-ok _ (wanted_id text) _ (decode_struct ts es vs) v v' vs' h in
    decode_struct-HasDash ts es vs vs' more rest

-- A struct that has an exported field with the tag "-" anywhere is encoded as if the fields with
-- this tag were not there; no bytes at all, these included, decode into such a struct.
pub dash_field-refused :
    (ts : FieldTypes) (vs : Els ts) (b : Bytes) (v : Els ts)
    → HasDash ts
    → (marshal (view (GoType.struct ts) vs)
        ≡ marshal (Value.struct (without_dash (view_fields ts vs))))
      × (decode_payload (GoType.struct ts) b ≢ ok v)
unfolding marshal encode_value decode_payload decode view
dash_field-refused ts vs b v has = (
  rw (encode_struct-without_dash (view_fields ts vs)),
  λ h.
      let ((e, rest), read, h') = bind-ok (wrap reading (read_item b)) _ h in
      let decoded = wrap-ok decoding _ h' in
      decode_struct-HasDash ts (children_of e) (zero_values ts) v has (refuse-ok _ _ _ v decoded),
)
