-- ===== src/Tlv/Decoder.antt =====
-- tlv/decoder.go. Where `Decode` writes is a Go type, read as the type of its values; `decode`
-- takes what stands there and gives what stands there afterwards.
mod GoTypes
pub mod InRange
unfoldable pub use GoTypes.*
use go_matter.Base.{
  ℕ, ◌+◌, ◌-◌, ◌^◌, Bool, false, not, List, [], ◌∷◌, ◌++◌, ◌==◌, ◌||◌, ◌&&◌, ltb, if◌then◌else◌,
  bit_and, get_or, Option, none, some, Result, ok, err, ◌>>=◌, ◌>>◌, refuse, wrap,
}
use go_matter.Base.Bytes.{Bytes, equal}
use go_matter.Base.Int.{ℤ, pos, negsuc}
use go_matter.Tlv.Types.{
  Tag, Element, Elements, element, nil, cons, type_signed_int, type_unsigned_int, type_boolean,
  type_utf8_string, type_byte_string, type_null, type_structure, type_array, type_list, anonymous,
}
use go_matter.Tlv.Reader.{type_of}
use go_matter.Tlv.Integers
use go_matter.Tlv.Integers.{parse_signed_int, parse_unsigned_int}
use go_matter.Tlv.StructTags.{split, first_part, atoi, minus_one}
use go_matter.Tlv.Encoder.{Value, Values, Fields}

pub data Error : Type 0 where
  expected_boolean expected_string expected_bytes expected_signed expected_unsigned : Error
  expected_array expected_structure : Error
  overflows unexpected_type : Error
  integer : Integers.Error → Error
  invalid_tag : Bytes → Error

abbrev pub raw_of : Element → Bytes
raw_of (element tag type raw subs) = raw

abbrev pub children_of : Element → Elements
children_of (element tag type raw subs) = subs

abbrev pub tag_of : Element → Tag
tag_of (element tag type raw subs) = tag

-- `tlv.Type & 0xFC`
abbrev pub base_of : Element → ℕ
base_of e = bit_and (type_of e) 0xFC

-- `decodeBool`
unfoldable pub decode_bool : Element → Result Error Bool
decode_bool e = do
  refuse (not (type_of e == type_boolean || type_of e == type_boolean + 1)) expected_boolean
  ok (get_or (raw_of e) 0 0 == 1)

-- `decodeString`
unfoldable pub decode_string : Element → Result Error Bytes
decode_string e = do refuse (not (base_of e == type_utf8_string)) expected_string; ok (raw_of e)

-- `decodeBytes`
unfoldable pub decode_bytes : Element → Result Error Bytes
decode_bytes e = do refuse (not (base_of e == type_byte_string)) expected_bytes; ok (raw_of e)

-- `checkType`, which nothing calls.
unfoldable pub check_type : Element → ℕ → Result Error Bool
check_type e expected = do
  let is_null = type_of e == type_null
  refuse (not is_null && not (type_of e == expected)) unexpected_type
  ok (not is_null)

-- `OverflowInt` for a type of `w` bits.
abbrev pub overflows_int : ℕ → ℤ → Bool
overflows_int w (pos n) = not (ltb n (2 ^ (w - 1)))
overflows_int w (negsuc n) = not (ltb n (2 ^ (w - 1)))

-- `decodeInt`
unfoldable pub decode_int : ℕ → Element → Result Error ℤ
unfolding parse_signed_int
decode_int w e = do
  refuse (not (base_of e == type_signed_int)) expected_signed
  n ← wrap integer (parse_signed_int (raw_of e))
  refuse (overflows_int w n) overflows
  ok n

-- `decodeUint`
unfoldable pub decode_uint : ℕ → Element → Result Error ℕ
unfolding parse_unsigned_int
decode_uint w e = do
  refuse (not (base_of e == type_unsigned_int)) expected_unsigned
  n ← wrap integer (parse_unsigned_int (raw_of e))
  refuse (not (ltb n (2 ^ w))) overflows
  ok n

-- The loop of `decodeSlice`, from the elements that stand there.
unfoldable pub decode_items :
    {A : Type 0} → (Element → Result Error A) → Elements → List A → Result Error (List A)
decode_items f nil xs = ok xs
decode_items f (cons e es) xs = do x ← f e; decode_items f es (xs ++ (x ∷ []))

-- The conditions of the `continue` in `decodeStruct`.
unfoldable pub is_ignored : Bytes → Bool → Bool
unfolding equal split
is_ignored text exported =
    let name = first_part (split text) in equal name [] || equal name minus_one || not exported

abbrev pub found_tag : Bytes → Option ℤ → Result Error ℤ
found_tag text none = err (invalid_tag text)
found_tag text (some id) = ok id

-- `strconv.Atoi(tags[0])`
unfoldable pub wanted_id : Bytes → Result Error ℤ
unfolding split atoi
wanted_id text = found_tag (first_part (split text)) (atoi (first_part (split text)))

-- `uint64(tagID)`
abbrev pub to_uint64 : ℤ → ℕ
to_uint64 (pos n) = n
to_uint64 (negsuc n) = 2 ^ 64 - 1 - n

-- The first child with the id, whatever the class of its tag.
unfoldable pub find_child : ℕ → Elements → Option Element
find_child id nil = none
find_child id (cons e es) = if (tag_of e).id == id then some e else find_child id es

abbrev pub or_keep : {A : Type 0} → (Element → Result Error A) → A → Option Element → Result Error A
or_keep f v none = ok v
or_keep f v (some e) = f e

abbrev pub pointee : {A : Type 0} → A → Option A → A
pointee z none = z
pointee z (some v) = v

abbrev pub address : {A : Type 0} → Result Error A → Result Error (Option A)
address (ok v) = ok (some v)
address (err x) = err x

unfoldable mutual
  unfolding zero_value decode_bool decode_string decode_bytes decode_int decode_uint decode_items
      is_ignored wanted_id find_child

  -- `Decode`
  pub decode : (t : GoType) → Element → El t → Result Error (El t)
  decode bool e v = decode_bool e
  decode string e v = decode_string e
  decode bytes e v = decode_bytes e
  decode raw_element e v = ok e
  decode other e v = ok v
  decode (int w) e v = decode_int w e
  decode (uint w) e v = decode_uint w e
  decode (slice t) e v = do
    refuse (not (type_of e == type_array || type_of e == type_list)) expected_array
    decode_items (λ child. decode t child (zero_value t)) (children_of e) v
  decode (pointer t) e v =
      let inner = decode t e (pointee (zero_value t) v) in
      if type_of e == type_null then ok none else address inner
  decode (struct ts) e v = do
    refuse (not (type_of e == type_structure)) expected_structure
    decode_struct ts (children_of e) v

  -- The loop of `decodeStruct`
  pub decode_struct : (ts : FieldTypes) → Elements → Els ts → Result Error (Els ts)
  decode_struct end es vs = ok tt
  decode_struct (field text exported t ts) es (v, vs) =
      let rest = decode_struct ts es vs in
      let kept = (do vs' ← rest; ok (v, vs')) in
      let read = (do
        id ← wanted_id text
        v' ← or_keep (λ e. decode t e v) v (find_child (to_uint64 id) es)
        vs' ← rest
        ok (v', vs')) in
      if is_ignored text exported then kept else read
