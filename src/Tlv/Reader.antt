-- ===== src/Tlv/Reader.antt =====
-- tlv/tlv.go: `Reader`, over the bytes that are left. A read that fails ends the whole decoding,
-- so what it consumed is not kept.
pub mod Fuel
use Prim.Native.Nat.{zero, suc}
use go_matter.Base.{
  ℕ, ◌+◌, ◌-◌, ◌^◌, Bool, true, false, [], ◌∷◌, ◌==◌, ◌||◌, ltb, leb, ◌&&◌, if◌then◌else◌, bit_and,
  length, take, drop, get_or, Result, ok, err, ◌>>=◌, ◌>>◌, refuse, wrap,
}
use go_matter.Base.Bytes.{Bytes, get_le, slice}
use go_matter.Tlv.Types.{
  Tag, Element, Elements, element, nil, cons, Error, eof, unexpected_eof, unknown_tag_control,
  unsupported_element_type, string_too_long, reading_tag, reading_value, out_of_fuel, is_container,
  type_signed_int, type_unsigned_int, type_boolean, type_utf8_string, type_byte_string, type_null,
  type_end_of_container, tag_control_anonymous, tag_control_context_specific,
  tag_control_common_profile2, tag_control_common_profile4, tag_control_implicit_profile2,
  tag_control_implicit_profile4, tag_control_fully_qualified6, tag_control_fully_qualified8,
}

-- `io.ReadFull` into a buffer of `n` bytes: the bytes, and what is left.
unfoldable pub read_full : ℕ → Bytes → Result Error (Bytes × Bytes)
read_full n b =
    if ltb (length b) n
    then err (if length b == 0 then eof else unexpected_eof)
    else ok (take n b, drop n b)

-- A tag whose data is an id of `n` bytes.
abbrev pub read_id : ℕ → ℕ → Bytes → Result Error (Tag × Bytes)
read_id control n b = do
  (buf, rest) ← read_full n b
  ok (record { class = control; id = get_le buf; profile = 0 }, rest)

-- A fully qualified tag: four bytes of profile, four of id.
abbrev pub read_profile : ℕ → Bytes → Result Error (Tag × Bytes)
read_profile control b = do
  (buf, rest) ← read_full 8 b
  ok (
    record { class = control; id = get_le (slice 4 8 buf); profile = get_le (slice 0 4 buf) },
    rest,
  )

-- `Reader.readTag`
unfoldable pub read_tag : ℕ → Bytes → Result Error (Tag × Bytes)
unfolding read_full
read_tag control b =
    if control == tag_control_anonymous
    then ok (record { class = control; id = 0; profile = 0 }, b)
    else if control == tag_control_context_specific
    then read_id control 1 b
    else if control == tag_control_common_profile2
    then read_id control 2 b
    else if control == tag_control_common_profile4
    then read_id control 4 b
    else if control == tag_control_implicit_profile2
    then read_id control 2 b
    else if control == tag_control_implicit_profile4
    then read_id control 4 b
    else if control == tag_control_fully_qualified6
    then read_profile control b
    else if control == tag_control_fully_qualified8
    then read_profile control b
    else err unknown_tag_control

abbrev pub max_int32 : ℕ
max_int32 = 2 ^ 31 - 1

-- `Reader.readStringOrBytes`: a length of 1, 2, 4 or 8 bytes, and as many bytes.
unfoldable pub read_string_or_bytes : ℕ → Bytes → Result Error (Bytes × Bytes)
unfolding read_full
read_string_or_bytes len_len_bits b = do
  (len_buf, rest) ← read_full (2 ^ len_len_bits) b
  let size = get_le len_buf
  refuse (ltb max_int32 size) string_too_long
  read_full size rest

-- `int(t) >= int(base) && int(t) <= int(base)+3`
abbrev pub is_sized : ℕ → ℕ → Bool
is_sized base type = leb base type && leb type (base + 3)

-- `Reader.readValue`
unfoldable pub read_value : ℕ → Bytes → Result Error (Bytes × Bytes)
unfolding read_full read_string_or_bytes
read_value type b =
    let sub = bit_and type 0x03 in
    if is_sized type_signed_int type
    then read_full (2 ^ sub) b
    else if is_sized type_unsigned_int type
    then read_full (2 ^ sub) b
    else if type == type_boolean
    then ok (0 ∷ [], b)
    else if type == type_boolean + 1
    then ok (1 ∷ [], b)
    else if is_sized type_utf8_string type
    then read_string_or_bytes sub b
    else if is_sized type_byte_string type
    then read_string_or_bytes sub b
    else if type == type_null
    then ok ([], b)
    else if is_container type
    then ok ([], b)
    else err (unsupported_element_type type)

-- `Reader.ReadElement`
unfoldable pub read_element : Bytes → Result Error (Element × Bytes)
read_element b = do
  (buf, rest) ← read_full 1 b
  let control = get_or buf 0 0
  let type = bit_and control 0x1F
  (tag, rest) ← wrap reading_tag (read_tag (bit_and control 0xE0) rest)
  (value, rest) ←
      if type == type_end_of_container
      then ok ([], rest)
      else wrap reading_value (read_value type rest)
  ok (element tag type value nil, rest)

abbrev pub type_of : Element → ℕ
type_of (element tag type value subs) = type

abbrev pub with_children : Element → Elements → Element
with_children (element tag type value subs) children = element tag type value children

-- `Reader.ReadContainerChildren`. Every element takes a byte at least, so fuel above the number
-- of bytes left is enough.
unfoldable pub read_children : ℕ → Bytes → Result Error (Elements × Bytes)
read_children zero b = err out_of_fuel
read_children (suc f) b = do
  (elem, rest) ← read_element b
  let nested = do
    (subs, rest) ← read_children f rest
    (more, rest) ← read_children f rest
    ok (cons (with_children elem subs) more, rest)
  let plain = do (more, rest) ← read_children f rest; ok (cons elem more, rest)
  if type_of elem == type_end_of_container
      then ok (nil, rest)
      else (if is_container (type_of elem) then nested else plain)

unfoldable pub read_container_children : Bytes → Result Error (Elements × Bytes)
unfolding read_children
read_container_children b = read_children (suc (length b)) b
