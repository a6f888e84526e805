-- ===== src/Tlv/RoundTrip/Scalars.antt =====
-- Numbers, Booleans, strings and byte slices that are encoded, read and decoded again.
use go_matter.Base.{
  ℕ, ◌+◌, ◌*◌, ◌/◌, ◌^◌, ◌<◌, ◌≤◌, ◌≡◌, ◌≢◌, refl, arith, Bool, true, false, [], ◌∷◌, ◌++◌, ◌==◌,
  lt→ltb, bit_and, length, length-append, ◌⊎◌, inl, inr, Result, ok, wrap,
}
use go_matter.Base.Bytes.{Bytes}
use go_matter.Base.Bits.Table.{agree_below, on_bytes}
use go_matter.Base.Int.{ℤ}
use go_matter.Tlv.Types
use go_matter.Tlv.Types.{Tag, Element, Elements, element, nil, cons, is_container}
use go_matter.Tlv.Reader.{read_value, type_of}
use go_matter.Tlv.Reader.Fuel.{read_element-lt}
use go_matter.Tlv.Writer.{
  fits_int, put_signed_int, put_unsigned_int, put_boolean, put_string, put_bytes, start_container,
}
use go_matter.Tlv.Writer.Tags.{IsTag, ReadsAs, read_element-write_element}
use go_matter.Tlv.Writer.Values.{read-put_unsigned_int, read-put_boolean}
use go_matter.Tlv.Writer.Signed.{read-put_signed_int}
use go_matter.Tlv.Writer.Strings.{read-put_string, read-put_bytes}
use go_matter.Tlv.Encoder.{Error, writer, encode_value}
use go_matter.Tlv.Decoder.{
  GoType, El, view, zero_value, decode, decode_int, decode_uint, decode_bool, decode_string,
  decode_bytes, tag_of, overflows_int,
}
use go_matter.Tlv.RoundTrip.Items.{ReadsItem, plain-ReadsItem}

-- What an encoding is read as.
abbrev pub Reads : Result Error Bytes → Element → Type 0
Reads written e = (bs : Bytes) × (written ≡ ok bs) × ReadsItem bs e

-- The value is encoded under the tag, the bytes are read as one item, and decoding that item
-- gives the value back.
abbrev pub Encoded : (t : GoType) → El t → Tag → Type 0
Encoded t v tag =
    (e : Element) × Reads (encode_value (view t v) tag) e
    × (tag_of e ≡ tag)
    × (type_of e ≢ 0x14)
    × (decode t e (zero_value t) ≡ ok v)

pub ReadsAs-Reads :
    (written : Result Types.Error Bytes) (tag : Tag) (type : ℕ) (raw : Bytes)
    → type < 0x14
    → ReadsAs written (element tag type raw nil)
    → Reads (wrap writer written) (element tag type raw nil)
ReadsAs-Reads written tag type raw small (bs, done, reads) = (
  bs,
  rw done,
  plain-ReadsItem bs (element tag type raw nil)
      (omega (arith, read_element-lt (bs ++ []) _ [] (reads []), length-append {0} bs [])) reads
      (ground arith) (ground arith),
)

base_bits : (x : ℕ) → x < 256 → bit_and x 0xFC ≡ x / 4 * 4
unfolding agree_below
base_bits = on_bytes _ _ refl

base_bits_of :
    (base type : ℕ)
    → base / 4 * 4 ≡ base
    → base ≤ type
    → type < base + 4
    → type < 0x14
    → (bit_and type 0xFC == base) ≡ true
base_bits_of base type four lo hi small = ground (arith, base_bits type)

pub int-Encoded :
    (w : ℕ) (n : ℤ) (tag : Tag)
    → IsTag tag
    → overflows_int w n ≡ false
    → fits_int 63 n ≡ true
    → Encoded (GoType.int w) n tag
unfolding encode_value view decode decode_int
int-Encoded w n tag h fits small =
    let (type, raw, lo, hi, good, reads) = read-put_signed_int tag n h small in
    (
      element tag type raw nil,
      ReadsAs-Reads (put_signed_int tag n) tag type raw (omega arith) reads,
      refl,
      omega arith,
      rw (base_bits_of 0 type refl lo hi (omega arith), good, fits),
    )

pub uint-Encoded :
    (w n : ℕ) (tag : Tag) → IsTag tag → n < 2 ^ w → n < 2 ^ 64 → Encoded (GoType.uint w) n tag
unfolding encode_value view decode decode_uint
uint-Encoded w n tag h fits small =
    let (type, raw, lo, hi, good, reads) = read-put_unsigned_int tag n h small in
    (
      element tag type raw nil,
      ReadsAs-Reads (put_unsigned_int tag n) tag type raw (omega arith) reads,
      refl,
      omega arith,
      rw (base_bits_of 4 type refl lo hi (omega arith), good, lt→ltb n (2 ^ w) fits),
    )

pub bool-Encoded : (b : Bool) (tag : Tag) → IsTag tag → Encoded GoType.bool b tag
unfolding encode_value view decode decode_bool
bool-Encoded true tag h = (
  element tag 9 (1 ∷ []) nil,
  ReadsAs-Reads (put_boolean tag true) tag 9 (1 ∷ []) (omega arith) (read-put_boolean tag true h),
  refl,
  omega arith,
  refl,
)
bool-Encoded false tag h = (
  element tag 8 (0 ∷ []) nil,
  ReadsAs-Reads (put_boolean tag false) tag 8 (0 ∷ []) (omega arith) (read-put_boolean tag false h),
  refl,
  omega arith,
  refl,
)

pub string-Encoded :
    (s : Bytes) (tag : Tag) → IsTag tag → length s < 2 ^ 31 → Encoded GoType.string s tag
unfolding encode_value view decode decode_string
string-Encoded s tag h short =
    let (type, lo, hi, reads) = read-put_string tag s h short in
    (
      element tag type s nil,
      ReadsAs-Reads (put_string tag s) tag type s (omega arith) reads,
      refl,
      omega arith,
      rw (base_bits_of 0x0C type refl lo (omega arith) (omega arith)),
    )

pub bytes-Encoded :
    (b : Bytes) (tag : Tag) → IsTag tag → length b < 2 ^ 31 → Encoded GoType.bytes b tag
unfolding encode_value view decode decode_bytes
bytes-Encoded b tag h short =
    let (type, lo, hi, reads) = read-put_bytes tag b h short in
    (
      element tag type b nil,
      ReadsAs-Reads (put_bytes tag b) tag type b (omega arith) reads,
      refl,
      omega arith,
      rw (base_bits_of 0x10 type refl lo (omega arith) (omega arith)),
    )

-- The start of a container, which `container-ReadsItem` takes.
pub read-start_container :
    (tag : Tag) (type : ℕ)
    → IsTag tag
    → (type ≡ 0x15) ⊎ (type ≡ 0x16)
    → ReadsAs (start_container tag type) (element tag type [] nil)
unfolding start_container
read-start_container tag type h (inl e) = rw e (
    read_element-write_element tag 0x15 [] [] h (omega arith) (omega arith)
      (λ rest. unfold read_value in refl))
read-start_container tag type h (inr e) = rw e (
    read_element-write_element tag 0x16 [] [] h (omega arith) (omega arith)
      (λ rest. unfold read_value in refl))
