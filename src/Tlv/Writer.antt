-- ===== src/Tlv/Writer.antt =====
-- tlv/tlv.go: `Writer`. A method gives the bytes that it writes, or its error; the bytes written
-- before an error are dropped by `Marshal`, the only user.
pub mod Tags
pub mod Values
pub mod Signed
pub mod Strings
pub mod Qualified
use go_matter.Base.{
  ℕ, ◌+◌, ◌-◌, ◌/◌, ◌%◌, ◌^◌, Bool, true, false, [], ◌∷◌, ◌++◌, ◌==◌, ltb, leb, if◌then◌else◌,
  bit_and, bit_or, length, Result, ok, err, ◌>>=◌, ◌>>◌, refuse,
}
use go_matter.Base.Bytes.{Bytes, put_le}
use go_matter.Base.Int.{ℤ, pos, negsuc}
use go_matter.Tlv.Types.{
  Tag, Error, length_exceeds, tag_id_exceeds, unsupported_tag_control, type_signed_int,
  type_unsigned_int, type_boolean, type_utf8_string, type_byte_string, type_end_of_container,
  tag_control_anonymous, tag_control_context_specific, tag_control_common_profile2,
  tag_control_common_profile4, tag_control_implicit_profile2, tag_control_implicit_profile4,
  tag_control_fully_qualified6, tag_control_fully_qualified8,
}

-- `Writer.writeControlByte`
abbrev pub write_control_byte : ℕ → ℕ → Bytes
write_control_byte control type = bit_or control type ∷ []

-- The vendor and the profile half of `tag.Profile`.
abbrev pub profile_bytes : Tag → Bytes
profile_bytes tag =
    put_le 2 (tag.profile / 2 ^ 16 % 2 ^ 16) ++ put_le 2 (tag.profile % 2 ^ 16 % 2 ^ 16)

-- `Writer.writeTag`
unfoldable pub write_tag : Tag → Result Error Bytes
write_tag tag =
    if tag.class == tag_control_anonymous
    then ok []
    else if tag.class == tag_control_context_specific
    then (do refuse (ltb 255 tag.id) (tag_id_exceeds tag.id); ok (tag.id % 256 ∷ []))
    else if tag.class == tag_control_common_profile2
    then ok (put_le 2 (tag.id % 2 ^ 16))
    else if tag.class == tag_control_common_profile4
    then ok (put_le 4 (tag.id % 2 ^ 32))
    else if tag.class == tag_control_implicit_profile2
    then ok (put_le 2 (tag.id % 2 ^ 16))
    else if tag.class == tag_control_implicit_profile4
    then ok (put_le 4 (tag.id % 2 ^ 32))
    else if tag.class == tag_control_fully_qualified6
    then ok (profile_bytes tag ++ put_le 2 (tag.id % 2 ^ 16))
    else if tag.class == tag_control_fully_qualified8
    then ok (profile_bytes tag ++ put_le 4 (tag.id % 2 ^ 32))
    else err (unsupported_tag_control tag.class)

-- The control byte, the tag, and what follows them.
unfoldable pub write_element : Tag → ℕ → Bytes → Result Error Bytes
write_element tag type body = do
  tag_bytes ← write_tag tag
  ok (write_control_byte tag.class type ++ (tag_bytes ++ body))

-- The two's complement pattern of an integer in `w` bits.
abbrev pub to_word : ℕ → ℤ → ℕ
to_word w (pos n) = n % 2 ^ w
to_word w (negsuc n) = 2 ^ w - 1 - n % 2 ^ w

-- `value >= math.MinIntW && value <= math.MaxIntW`, for W = w + 1.
abbrev pub fits_int : ℕ → ℤ → Bool
fits_int w (pos n) = ltb n (2 ^ w)
fits_int w (negsuc n) = ltb n (2 ^ w)

-- The width class of `PutSignedInt`: 0, 1, 2, 3 for 1, 2, 4, 8 bytes.
abbrev pub signed_width : ℤ → ℕ
signed_width value =
    if fits_int 7 value
    then 0
    else if fits_int 15 value
    then 1
    else if fits_int 31 value
    then 2
    else 3

abbrev pub word_bytes : ℕ → ℤ → Bytes
word_bytes width value =
    if width == 0
    then to_word 8 value ∷ []
    else if width == 1
    then put_le 2 (to_word 16 value)
    else if width == 2
    then put_le 4 (to_word 32 value)
    else put_le 8 (to_word 64 value)

-- `Writer.PutSignedInt`
unfoldable pub put_signed_int : Tag → ℤ → Result Error Bytes
unfolding write_element
put_signed_int tag value =
    let width = signed_width value in
    write_element tag (bit_or type_signed_int width) (word_bytes width value)

-- `Writer.PutUnsignedInt`
unfoldable pub put_unsigned_int : Tag → ℕ → Result Error Bytes
unfolding write_element
put_unsigned_int tag value =
    if leb value 0xFF
    then write_element tag type_unsigned_int (value % 2 ^ 8 ∷ [])
    else if leb value 0xFFFF
    then write_element tag (bit_or type_unsigned_int 0x01) (put_le 2 (value % 2 ^ 16))
    else if leb value 0xFFFF_FFFF
    then write_element tag (bit_or type_unsigned_int 0x02) (put_le 4 (value % 2 ^ 32))
    else write_element tag (bit_or type_unsigned_int 0x03) (put_le 8 value)

-- `Writer.PutBoolean`
unfoldable pub put_boolean : Tag → Bool → Result Error Bytes
unfolding write_element
put_boolean tag value = write_element tag (if value then type_boolean + 1 else type_boolean) []

-- `Writer.writeStringOrBytes`
unfoldable pub write_string_or_bytes : Tag → ℕ → Bytes → Result Error Bytes
unfolding write_element
write_string_or_bytes tag base bytes =
    let size = length bytes in
    if leb size 0xFF
    then write_element tag (bit_or base 0x00) (size % 2 ^ 8 ∷ bytes)
    else if leb size 0xFFFF
    then write_element tag (bit_or base 0x01) (put_le 2 (size % 2 ^ 16) ++ bytes)
    else if leb size 0xFFFF_FFFF
    then write_element tag (bit_or base 0x02) (put_le 4 (size % 2 ^ 32) ++ bytes)
    else err length_exceeds

-- `Writer.PutString`, of the bytes of the string.
unfoldable pub put_string : Tag → Bytes → Result Error Bytes
unfolding write_string_or_bytes
put_string tag value = write_string_or_bytes tag type_utf8_string value

-- `Writer.PutBytes`
unfoldable pub put_bytes : Tag → Bytes → Result Error Bytes
unfolding write_string_or_bytes
put_bytes tag value = write_string_or_bytes tag type_byte_string value

-- `Writer.StartContainer`
unfoldable pub start_container : Tag → ℕ → Result Error Bytes
unfolding write_element
start_container tag type = write_element tag type []

-- `Writer.EndContainer`
unfoldable pub end_container : Bytes
end_container = write_control_byte tag_control_anonymous type_end_of_container
