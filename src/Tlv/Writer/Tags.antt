-- ===== src/Tlv/Writer/Tags.antt =====
-- Control bytes and tags, written and read back.
use go_matter.Base.{
  ℕ, ◌+◌, ◌*◌, ◌/◌, ◌%◌, ◌^◌, ◌<◌, ◌≤◌, ◌≡◌, ◌≢◌, refl, arith, [], ◌∷◌, ◌++◌, ◌==◌, ◌||◌,
  if◌then◌else◌, bit_and, bit_or, length, length-append, take-append_length, drop-append_length,
  le→ltb, ==_ne, ◌∙◌, ◌>>=◌, wrap, Result, ok,
}
use mathlib.Core.List.{append_assoc}
use go_matter.Base.Bytes.{Bytes, put_le, get_le-put_le}
use go_matter.Base.Bits.Table.{agree_below, on_bytes}
use go_matter.Tlv.Types.{Tag, Element, element, nil, reading_value, Error}
use go_matter.Tlv.Reader.{read_full, read_tag, read_element, read_value}
use go_matter.Tlv.Writer.{write_tag, write_element}

-- The tags that have one form on both sides: anonymous, context-specific, and the common and
-- implicit profiles. The fully qualified ones are not among them.
abbrev pub IsTag : Tag → Type 0
IsTag tag =
    (tag.profile ≡ 0)
    × (if tag.class == 0
        then tag.id ≡ 0
        else if tag.class == 0x20
        then tag.id < 2 ^ 8
        else if tag.class == 0x40 || tag.class == 0x80
        then tag.id < 2 ^ 16
        else if tag.class == 0x60 || tag.class == 0xA0
        then tag.id < 2 ^ 32
        else ⊥)

type_bits : (x : ℕ) → x < 256 → bit_and (bit_or (x / 32 * 32) (x % 32)) 0x1F ≡ x % 32
unfolding agree_below
type_bits = on_bytes _ _ refl

class_bits : (x : ℕ) → x < 256 → bit_and (bit_or (x / 32 * 32) (x % 32)) 0xE0 ≡ x / 32 * 32
unfolding agree_below
class_bits = on_bytes _ _ refl

-- The control byte holds the class in its upper three bits and the type in the lower five.
control_bits :
    (class type : ℕ)
    → class % 32 ≡ 0
    → class < 256
    → type < 32
    → (bit_and (bit_or class type) 0x1F ≡ type) × (bit_and (bit_or class type) 0xE0 ≡ class)
control_bits class type h c t =
    let high : (class + type) / 32 * 32 ≡ class = omega arith in
    let low : (class + type) % 32 ≡ type = omega arith in
    (
      rw (high, low) at (type_bits (class + type) (omega arith)),
      rw (high, low) at (class_bits (class + type) (omega arith)),
    )

pub read_full-append :
    (n : ℕ) (bs rest : Bytes) → length bs ≡ n → read_full n (bs ++ rest) ≡ ok (bs, rest)
unfolding read_full
read_full-append n bs rest h =
    let long : length bs ≤ length (bs ++ rest) = omega (arith, length-append bs rest) in
    rw (← h, le→ltb (length (bs ++ rest)) (length bs) long, take-append_length, drop-append_length)

abbrev tag_bytes : Tag → Bytes
tag_bytes tag =
    if tag.class == 0
    then []
    else if tag.class == 0x20
    then tag.id % 256 ∷ []
    else if tag.class == 0x40 || tag.class == 0x80
    then put_le 2 (tag.id % 2 ^ 16)
    else put_le 4 (tag.id % 2 ^ 32)

write_tag_bytes : (tag : Tag) → IsTag tag → write_tag tag ≡ ok (tag_bytes tag)
unfolding write_tag
write_tag_bytes tag h = ground arith

read_tag_bytes :
    (tag : Tag) (rest : Bytes)
    → IsTag tag
    → read_tag tag.class (tag_bytes tag ++ rest) ≡ ok (tag, rest)
unfolding read_tag put_le
read_tag_bytes tag rest h =
    ground (arith, get_le-put_le 1 tag.id, get_le-put_le 2 tag.id, get_le-put_le 4 tag.id)

tag_class : (tag : Tag) → IsTag tag → (tag.class % 32 ≡ 0) × (tag.class < 256)
tag_class tag h = ground arith

-- A tag that is not fully qualified and whose id fits its width is read back as it was written.
pub read_tag-write_tag :
    (tag : Tag)
    → IsTag tag
    → (bs : Bytes) × (write_tag tag ≡ ok bs)
      × ((rest : Bytes) → read_tag tag.class (bs ++ rest) ≡ ok (tag, rest))
read_tag-write_tag tag h = (tag_bytes tag, write_tag_bytes tag h, λ rest. read_tag_bytes tag rest h)

-- The writer succeeds, and whatever follows its bytes, the reader finds the element and leaves
-- the rest.
abbrev pub ReadsAs : Result Error Bytes → Element → Type 0
ReadsAs written e =
    (bs : Bytes) × (written ≡ ok bs) × ((rest : Bytes) → read_element (bs ++ rest) ≡ ok (e, rest))

-- What the reader makes of a written element: it finds the tag and the type, and the outcome is
-- that of reading the value.
pub read_element_step :
    (tag : Tag) (type : ℕ) (body : Bytes)
    → IsTag tag
    → type < 32
    → type ≢ 0x18
    → (bs : Bytes) × (write_element tag type body ≡ ok bs)
      × ((rest : Bytes)
          → read_element (bs ++ rest) ≡ (
              wrap reading_value (read_value type (body ++ rest)) >>= λ (value, left).
              ok (element tag type value nil, left)))
unfolding write_element read_element
read_element_step tag type body h small open_type =
    let (tag_bs, written, reread) = read_tag-write_tag tag h in
    let (aligned, byte) = tag_class tag h in
    let (low, high) = control_bits tag.class type aligned byte small in
    (
      bit_or tag.class type ∷ (tag_bs ++ body),
      rw written,
      λ rest. rw (
        read_full-append 1 (bit_or tag.class type ∷ []) ((tag_bs ++ body) ++ rest) refl,
        append_assoc tag_bs body rest,
        low,
        high,
        reread (body ++ rest),
        ==_ne type 0x18 open_type,
      ),
    )

-- An element is read back if its value is.
pub read_element-write_element :
    (tag : Tag) (type : ℕ) (body value : Bytes)
    → IsTag tag
    → type < 32
    → type ≢ 0x18
    → ((rest : Bytes) → read_value type (body ++ rest) ≡ ok (value, rest))
    → ReadsAs (write_element tag type body) (element tag type value nil)
read_element-write_element tag type body value h small open_type reads =
    let (bs, written, step) = read_element_step tag type body h small open_type in
    (bs, written, λ rest. step rest ∙ rw (reads rest))
