-- ===== src/Tlv/Writer/Strings.antt =====
-- Strings and byte strings: what is read back, and which lengths are not.
use go_matter.Base.{
  ℕ, ◌+◌, ◌-◌, bit_or, ◌^◌, ◌<◌, ◌≤◌, ◌≡◌, ◌∙◌, refl, arith, ◌++◌, length, Result, ok, err, le→ltb,
  lt→ltb,
}
use go_matter.Base.Bytes.{Bytes, put_le, get_le-put_le, length-put_le}
use go_matter.Tlv.Types.{Tag, element, nil, Error, string_too_long, reading_value}
use go_matter.Tlv.Reader.{read_element, read_value, read_string_or_bytes}
use go_matter.Tlv.Writer.{write_element, write_string_or_bytes, put_string, put_bytes}
use go_matter.Tlv.Writer.Tags.{
  IsTag, ReadsAs, read_element-write_element, read_element_step, read_full-append,
}
use mathlib.Core.List.{append_assoc}
use native.Mathlib.Nat.{mod-eq_of_lt}
use native.Mathlib.Decide.{dec_lt}

-- A length of `2 ^ bits` bytes and as many bytes are read as those bytes.
read_string-put_le :
    (bits k : ℕ) (bytes rest : Bytes)
    → 2 ^ bits ≡ k
    → length bytes < 256 ^ k
    → length bytes < 2 ^ 31
    → read_string_or_bytes bits ((put_le k (length bytes) ++ bytes) ++ rest) ≡ ok (bytes, rest)
unfolding read_string_or_bytes
read_string-put_le bits k bytes rest e fits short = rw (
  e,
  append_assoc (put_le k (length bytes)) bytes rest,
  read_full-append k (put_le k (length bytes)) (bytes ++ rest) (length-put_le k _),
  get_le-put_le k (length bytes) fits,
  le→ltb (2 ^ 31 - 1) (length bytes) (omega arith),
  read_full-append (length bytes) bytes rest refl,
)

-- A longer one is refused.
read_string-put_le_long :
    (bytes rest : Bytes)
    → 2 ^ 31 ≤ length bytes
    → length bytes < 2 ^ 32
    → read_string_or_bytes 2 ((put_le 4 (length bytes) ++ bytes) ++ rest) ≡ err string_too_long
unfolding read_string_or_bytes
read_string-put_le_long bytes rest long fits = rw (
  append_assoc (put_le 4 (length bytes)) bytes rest,
  read_full-append 4 (put_le 4 (length bytes)) (bytes ++ rest) (length-put_le 4 _),
  get_le-put_le 4 (length bytes) fits,
  lt→ltb (2 ^ 31 - 1) (length bytes) (omega arith),
)

-- A base type of strings: the types of the three widths, and how the reader reads them.
record StringBase (base : ℕ) : Type 0 where
  small : base < 20
  byte : bit_or base 0x00 ≡ base
  short : bit_or base 0x01 ≡ base + 1
  word : bit_or base 0x02 ≡ base + 2
  reads_byte : (rest : Bytes) → read_value base rest ≡ read_string_or_bytes 0 rest
  reads_short : (rest : Bytes) → read_value (base + 1) rest ≡ read_string_or_bytes 1 rest
  reads_word : (rest : Bytes) → read_value (base + 2) rest ≡ read_string_or_bytes 2 rest

utf8_base : StringBase 0x0C
unfolding read_value
utf8_base = record {
  small = omega arith;
  byte = refl;
  short = refl;
  word = refl;
  reads_byte = λ rest. refl;
  reads_short = λ rest. refl;
  reads_word = λ rest. refl;
}

byte_base : StringBase 0x10
unfolding read_value
byte_base = record {
  small = omega arith;
  byte = refl;
  short = refl;
  word = refl;
  reads_byte = λ rest. refl;
  reads_short = λ rest. refl;
  reads_word = λ rest. refl;
}

-- What reading a string back means: an element of one of the three types that the writer uses,
-- with the bytes.
abbrev pub ReadsString : ℕ → Bytes → Tag → Result Error Bytes → Type 0
ReadsString base bytes tag written =
    (type : ℕ) × (base ≤ type) × (type < base + 3) × ReadsAs written (element tag type bytes nil)

module _ (base : ℕ) (strings : StringBase base) (tag : Tag) (bytes : Bytes) (h : IsTag tag) where
  reads_string :
      (type bits k : ℕ)
      → type < 24
      → ((rest : Bytes) → read_value type rest ≡ read_string_or_bytes bits rest)
      → 2 ^ bits ≡ k
      → length bytes < 256 ^ k
      → length bytes < 2 ^ 31
      → ReadsAs
          (write_element tag type (put_le k (length bytes) ++ bytes))
          (element tag type bytes nil)
  reads_string type bits k small reads e fits short =
      read_element-write_element tag type _ bytes h (omega arith) (omega arith)
        λ rest. reads _ ∙ read_string-put_le bits k bytes rest e fits short

  written_byte :
      length bytes < 2 ^ 8
      → write_string_or_bytes tag base bytes
        ≡ write_element tag base (put_le 1 (length bytes) ++ bytes)
  unfolding write_string_or_bytes put_le
  written_byte small = rw strings.byte (ground arith)

  written_short :
      2 ^ 8 ≤ length bytes
      → length bytes < 2 ^ 16
      → write_string_or_bytes tag base bytes
        ≡ write_element tag (base + 1) (put_le 2 (length bytes) ++ bytes)
  unfolding write_string_or_bytes
  written_short big small = rw (strings.short, mod-eq_of_lt small) (ground arith)

  written_word :
      2 ^ 16 ≤ length bytes
      → length bytes < 2 ^ 32
      → write_string_or_bytes tag base bytes
        ≡ write_element tag (base + 2) (put_le 4 (length bytes) ++ bytes)
  unfolding write_string_or_bytes
  written_word big small = rw (strings.word, mod-eq_of_lt small) (ground arith)

  read-write_string :
      length bytes < 2 ^ 31 → ReadsString base bytes tag (write_string_or_bytes tag base bytes)
  read-write_string short = elim (dec_lt (length bytes) (2 ^ 8)) [
    | yes a ↦ (
      base,
      omega arith,
      omega arith,
      rw (written_byte a)
          (reads_string base 0 1 (omega (arith, strings.small)) strings.reads_byte refl a short),
    )
    | no a ↦ elim (dec_lt (length bytes) (2 ^ 16)) [
      | yes b ↦ (
        base + 1,
        omega arith,
        omega arith,
        rw (written_short (omega arith) b) (
            reads_string (base + 1) 1 2 (omega (arith, strings.small)) strings.reads_short refl b
              short),
      )
      | no b ↦ (
        base + 2,
        omega arith,
        omega arith,
        rw (written_word (omega arith) (omega arith)) (
            reads_string (base + 2) 2 4 (omega (arith, strings.small)) strings.reads_word refl
              (omega arith) short),
      )
    ]
  ]

-- A string of less than 2 ^ 31 bytes, under a tag that is not fully qualified and whose id fits
-- its width, is read back as it was put, as an element of a UTF-8 string type.
pub read-put_string :
    (tag : Tag) (bytes : Bytes)
    → IsTag tag
    → length bytes < 2 ^ 31
    → ReadsString 0x0C bytes tag (put_string tag bytes)
unfolding put_string
read-put_string tag bytes h short = read-write_string 0x0C utf8_base tag bytes h short

-- A byte string of less than 2 ^ 31 bytes, under a tag that is not fully qualified and whose id
-- fits its width, is read back as it was put, as an element of a byte string type.
pub read-put_bytes :
    (tag : Tag) (bytes : Bytes)
    → IsTag tag
    → length bytes < 2 ^ 31
    → ReadsString 0x10 bytes tag (put_bytes tag bytes)
unfolding put_bytes
read-put_bytes tag bytes h short = read-write_string 0x10 byte_base tag bytes h short

-- The writer takes byte strings of 2 ^ 31 to 2 ^ 32 - 1 bytes, and the reader refuses what it
-- wrote.
pub read-put_bytes_long :
    (tag : Tag) (bytes rest : Bytes)
    → IsTag tag
    → 2 ^ 31 ≤ length bytes
    → length bytes < 2 ^ 32
    → (bs : Bytes) × (put_bytes tag bytes ≡ ok bs)
      × (read_element (bs ++ rest) ≡ err (reading_value string_too_long))
unfolding put_bytes
read-put_bytes_long tag bytes rest h long fits =
    let body = put_le 4 (length bytes) ++ bytes in
    let (bs, written, step) = read_element_step tag 0x12 body h (omega arith) (omega arith) in
    (
      bs,
      written_word 0x10 byte_base tag bytes h (omega arith) fits ∙ written,
      step rest
          ∙ rw (byte_base.reads_word (body ++ rest), read_string-put_le_long bytes rest long fits),
    )
