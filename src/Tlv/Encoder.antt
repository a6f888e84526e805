-- ===== src/Tlv/Encoder.antt =====
-- tlv/encoder.go. A Go value is what reflection shows of it: its kind with the value, for a struct
-- each field with its `tlv` tag. Every integer type is one kind here, since `v.Int()` and `v.Uint()`
-- widen to 64 bits.
pub mod Size
use go_matter.Base.{
  ℕ, Bool, true, false, not, [], ◌++◌, ◌==◌, ◌&&◌, ◌||◌, if◌then◌else◌, length, Option, none, some,
  Result, ok, err, ◌>>=◌, wrap,
}
use go_matter.Base.Bytes.{Bytes, equal}
use go_matter.Base.Int.{ℤ, pos, negsuc}
use go_matter.Tlv.Types
use go_matter.Tlv.Types.{Tag, anonymous, context_tag, type_null, type_array, type_structure}
use go_matter.Tlv.Writer.{
  write_control_byte, put_signed_int, put_unsigned_int, put_boolean, put_string, put_bytes,
  start_container, end_container,
}
use go_matter.Tlv.StructTags.{split, first_part, options, has_option, parse_uint8, omit_empty, dash}

-- `other` stands for the kinds that the encoder does not take (arrays, maps, floats, functions);
-- its flag says whether the value is empty.
mutual
  pub data Value : Type 0 where
    int : ℤ → Value
    uint : ℕ → Value
    bool : Bool → Value
    string : Bytes → Value
    bytes : Bytes → Value
    slice : Values → Value
    struct : Fields → Value
    pointer : Value → Value
    interface : Value → Value
    nil_pointer nil_interface : Value
    other : Bool → Value

  pub data Values : Type 0 where
    none_left : Values
    value : Value → Values → Values

  -- Fields in order, each with its `tlv` tag; a field with no tag has an empty one.
  pub data Fields : Type 0 where
    end : Fields
    field : Bytes → Value → Fields → Fields

pub data Error : Type 0 where
  writer : Types.Error → Error
  unsupported_type : Error
  invalid_tag_id : Bytes → Error

-- `isEmptyValue`
abbrev pub is_zero : ℤ → Bool
is_zero (pos n) = n == 0
is_zero (negsuc n) = false

abbrev pub no_values : Values → Bool
no_values none_left = true
no_values (value v vs) = false

unfoldable pub is_empty_value : Value → Bool
is_empty_value (int n) = is_zero n
is_empty_value (uint n) = n == 0
is_empty_value (bool b) = not b
is_empty_value (string s) = length s == 0
is_empty_value (bytes b) = length b == 0
is_empty_value (slice vs) = no_values vs
is_empty_value (struct fs) = false
is_empty_value (pointer v) = false
is_empty_value (interface v) = false
is_empty_value nil_pointer = true
is_empty_value nil_interface = true
is_empty_value (other empty) = empty

-- The two `continue`s of `encodeStruct`.
unfoldable pub is_skipped : Bytes → Value → Bool
unfolding equal split has_option is_empty_value
is_skipped text v =
    equal text []
    || equal text dash
    || (has_option omit_empty (options (split text)) && is_empty_value v)

abbrev pub tag_id_or : Bytes → Option ℕ → Result Error ℕ
tag_id_or text none = err (invalid_tag_id text)
tag_id_or text (some id) = ok id

-- The id of a field's tag.
unfoldable pub field_id : Bytes → Result Error ℕ
unfolding split parse_uint8
field_id text = tag_id_or (first_part (split text)) (parse_uint8 (first_part (split text)))

unfoldable mutual
  unfolding is_skipped field_id put_signed_int put_unsigned_int put_boolean put_string put_bytes
      start_container end_container

  -- `Encoder.encodeValue`
  pub encode_value : Value → Tag → Result Error Bytes
  encode_value (int n) tag = wrap writer (put_signed_int tag n)
  encode_value (uint n) tag = wrap writer (put_unsigned_int tag n)
  encode_value (bool b) tag = wrap writer (put_boolean tag b)
  encode_value (string s) tag = wrap writer (put_string tag s)
  encode_value (bytes b) tag = wrap writer (put_bytes tag b)
  encode_value (slice vs) tag = do
    start ← wrap writer (start_container tag type_array)
    body ← encode_container vs
    ok (start ++ (body ++ end_container))
  encode_value (struct fs) tag = do
    start ← wrap writer (start_container tag type_structure)
    body ← encode_struct fs
    ok (start ++ (body ++ end_container))
  encode_value (pointer v) tag = encode_value v tag
  encode_value (interface v) tag = encode_value v tag
  encode_value nil_pointer tag = ok (write_control_byte tag.class type_null)
  encode_value nil_interface tag = ok (write_control_byte tag.class type_null)
  encode_value (other empty) tag = err unsupported_type

  -- The loop of `Encoder.encodeContainer`
  pub encode_container : Values → Result Error Bytes
  encode_container none_left = ok []
  encode_container (value v vs) = do
    item ← encode_value v anonymous
    items ← encode_container vs
    ok (item ++ items)

  -- The loop of `Encoder.encodeStruct`
  pub encode_struct : Fields → Result Error Bytes
  encode_struct end = ok []
  encode_struct (field text v fs) =
      let rest = encode_struct fs in
      let written = (do
        id ← field_id text
        item ← encode_value v (context_tag id)
        items ← rest
        ok (item ++ items)) in
      if is_skipped text v then rest else written

-- `Marshal`, of the value that its argument holds.
unfoldable pub marshal : Value → Result Error Bytes
unfolding encode_value
marshal v = encode_value v anonymous
