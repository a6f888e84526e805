-- ===== src/Tlv/Types.antt =====
-- tlv/tlv.go: element types, tags and elements. A type or a tag control is a number below 256.
use go_matter.Base.{ℕ, Bool, ◌==◌, ◌||◌}
use go_matter.Base.Bytes.{Bytes}

abbrev pub type_signed_int : ℕ
type_signed_int = 0x00

abbrev pub type_unsigned_int : ℕ
type_unsigned_int = 0x04

abbrev pub type_boolean : ℕ
type_boolean = 0x08

abbrev pub type_utf8_string : ℕ
type_utf8_string = 0x0C

abbrev pub type_byte_string : ℕ
type_byte_string = 0x10

abbrev pub type_null : ℕ
type_null = 0x14

abbrev pub type_structure : ℕ
type_structure = 0x15

abbrev pub type_array : ℕ
type_array = 0x16

abbrev pub type_list : ℕ
type_list = 0x17

abbrev pub type_end_of_container : ℕ
type_end_of_container = 0x18

abbrev pub tag_control_anonymous : ℕ
tag_control_anonymous = 0x00

abbrev pub tag_control_context_specific : ℕ
tag_control_context_specific = 0x20

abbrev pub tag_control_common_profile2 : ℕ
tag_control_common_profile2 = 0x40

abbrev pub tag_control_common_profile4 : ℕ
tag_control_common_profile4 = 0x60

abbrev pub tag_control_implicit_profile2 : ℕ
tag_control_implicit_profile2 = 0x80

abbrev pub tag_control_implicit_profile4 : ℕ
tag_control_implicit_profile4 = 0xA0

abbrev pub tag_control_fully_qualified6 : ℕ
tag_control_fully_qualified6 = 0xC0

abbrev pub tag_control_fully_qualified8 : ℕ
tag_control_fully_qualified8 = 0xE0

pub record Tag : Type 0 where
  pub class : ℕ
  pub id : ℕ
  pub profile : ℕ

abbrev pub anonymous : Tag
anonymous = record { class = tag_control_anonymous; id = 0; profile = 0 }

abbrev pub context_tag : ℕ → Tag
context_tag id = record { class = tag_control_context_specific; id = id; profile = 0 }

-- An element with its tag, type, raw value and children; a nil value is an empty one.
mutual
  pub data Element : Type 0 where
    element : Tag → ℕ → Bytes → Elements → Element

  pub data Elements : Type 0 where
    nil : Elements
    cons : Element → Elements → Elements

abbrev pub is_container : ℕ → Bool
is_container type = type == type_structure || (type == type_array || type == type_list)

-- The errors of the package; `out_of_fuel` has no counterpart in the program.
pub data Error : Type 0 where
  eof : Error
  unexpected_eof : Error
  unknown_tag_control : Error
  unsupported_element_type : ℕ → Error
  string_too_long : Error
  reading_tag : Error → Error
  reading_value : Error → Error
  length_exceeds : Error
  tag_id_exceeds : ℕ → Error
  unsupported_tag_control : ℕ → Error
  out_of_fuel : Error
