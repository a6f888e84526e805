-- ===== src/Tlv/Writer/Signed.antt =====
-- Signed integers that the writer puts are read back.
use go_matter.Base.{
  ℕ, ◌-◌, ◌%◌, ◌^◌, ◌≡◌, ◌∙◌, ap, arith, true, [], ◌∷◌, inl, inr, bit_or, ok, Bool-cases,
}
use go_matter.Base.Bytes.{put_le, get_le-put_le, length-put_le}
use go_matter.Base.Int.{ℤ, pos, negsuc}
use go_matter.Tlv.Types.{Tag}
use go_matter.Tlv.Integers.{parse_signed_int}
use go_matter.Tlv.Writer.{
  write_element, put_signed_int, fits_int, to_word, word_bytes, signed_width,
}
use go_matter.Tlv.Writer.Tags.{IsTag}
use go_matter.Tlv.Writer.Values.{ReadsInt, IntForm, kinds_of_size, reads_form}

abbrev SignedForm : Tag → ℤ → Type 0
SignedForm tag v = IntForm 0 (λ value. parse_signed_int value ≡ ok v) tag (put_signed_int tag v)

-- An int64 is n or -(n + 1) for some n below 2 ^ 63.
abbrev pub IsInt64 : ℤ → Type 0
IsInt64 v = fits_int 63 v ≡ true

-- The pattern of an integer that fits stands for that integer.
parse_signed_byte : (v : ℤ) → fits_int 7 v ≡ true → parse_signed_int (put_le 1 (to_word 8 v)) ≡ ok v
unfolding parse_signed_int
parse_signed_byte (pos n) h =
    ground (arith, length-put_le 1 (n % 2 ^ 8), get_le-put_le 1 (n % 2 ^ 8))
parse_signed_byte (negsuc n) h =
    let m = 2 ^ 8 - 1 - n % 2 ^ 8 in ground (arith, length-put_le 1 m, get_le-put_le 1 m)

parse_signed_short :
    (v : ℤ) → fits_int 15 v ≡ true → parse_signed_int (put_le 2 (to_word 16 v)) ≡ ok v
unfolding parse_signed_int
parse_signed_short (pos n) h =
    ground (arith, length-put_le 2 (n % 2 ^ 16), get_le-put_le 2 (n % 2 ^ 16))
parse_signed_short (negsuc n) h =
    let m = 2 ^ 16 - 1 - n % 2 ^ 16 in ground (arith, length-put_le 2 m, get_le-put_le 2 m)

parse_signed_word :
    (v : ℤ) → fits_int 31 v ≡ true → parse_signed_int (put_le 4 (to_word 32 v)) ≡ ok v
unfolding parse_signed_int
parse_signed_word (pos n) h =
    ground (arith, length-put_le 4 (n % 2 ^ 32), get_le-put_le 4 (n % 2 ^ 32))
parse_signed_word (negsuc n) h =
    let m = 2 ^ 32 - 1 - n % 2 ^ 32 in ground (arith, length-put_le 4 m, get_le-put_le 4 m)

parse_signed_long :
    (v : ℤ) → fits_int 63 v ≡ true → parse_signed_int (put_le 8 (to_word 64 v)) ≡ ok v
unfolding parse_signed_int
parse_signed_long (pos n) h =
    ground (arith, length-put_le 8 (n % 2 ^ 64), get_le-put_le 8 (n % 2 ^ 64))
parse_signed_long (negsuc n) h =
    let m = 2 ^ 64 - 1 - n % 2 ^ 64 in ground (arith, length-put_le 8 m, get_le-put_le 8 m)

one_byte : (v : ℤ) → to_word 8 v ∷ [] ≡ put_le 1 (to_word 8 v)
unfolding put_le
one_byte (pos n) = ap (λ (b : ℕ). b ∷ []) (omega arith)
one_byte (negsuc n) = ap (λ (b : ℕ). b ∷ []) (omega arith)

put_by_width :
    (tag : Tag) (v : ℤ) (width : ℕ)
    → signed_width v ≡ width
    → put_signed_int tag v ≡ write_element tag (bit_or 0 width) (word_bytes width v)
unfolding put_signed_int
put_by_width tag v width e = rw (← e)

-- The narrowest of the four widths is chosen.
signed_form : (tag : Tag) (v : ℤ) → IsInt64 v → SignedForm tag v
unfolding put_signed_int write_element
signed_form tag v h = elim (Bool-cases (fits_int 7 v)) [
  | inl a ↦ (
    0,
    1,
    put_le 1 (to_word 8 v),
    omega arith,
    omega arith,
    parse_signed_byte v a,
    length-put_le 1 _,
    kinds_of_size.0,
    put_by_width tag v 0 (rw a) ∙ rw one_byte,
  )
  | inr a ↦ elim (Bool-cases (fits_int 15 v)) [
    | inl b ↦ (
      1,
      2,
      put_le 2 (to_word 16 v),
      omega arith,
      omega arith,
      parse_signed_short v b,
      length-put_le 2 _,
      kinds_of_size.1,
      rw (put_signed_int, a, b),
    )
    | inr b ↦ elim (Bool-cases (fits_int 31 v)) [
      | inl c ↦ (
        2,
        4,
        put_le 4 (to_word 32 v),
        omega arith,
        omega arith,
        parse_signed_word v c,
        length-put_le 4 _,
        kinds_of_size.2,
        rw (put_signed_int, a, b, c),
      )
      | inr c ↦ (
        3,
        8,
        put_le 8 (to_word 64 v),
        omega arith,
        omega arith,
        parse_signed_long v h,
        length-put_le 8 _,
        kinds_of_size.3,
        rw (put_signed_int, a, b, c),
      )
    ]
  ]
]

-- `PutSignedInt` of an int64 and back, under a tag that is not fully qualified and whose id fits
-- its width: the reader finds a signed element with the tag, and its raw value stands for the
-- integer.
pub read-put_signed_int :
    (tag : Tag) (v : ℤ)
    → IsTag tag
    → IsInt64 v
    → ReadsInt 0 (λ value. parse_signed_int value ≡ ok v) tag (put_signed_int tag v)
read-put_signed_int tag v h hv =
    reads_form 0 _ tag (put_signed_int tag v) (omega arith) h (signed_form tag v hv)
