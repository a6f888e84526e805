-- ===== src/Tlv/Integers.antt =====
-- tlv/decoder.go: the integers of raw values, `parseSignedInt` and `parseUnsignedInt`.
use go_matter.Base.{ℕ, ◌-◌, ◌^◌, ◌==◌, ◌||◌, ltb, if◌then◌else◌, length, Result, ok, err}
use go_matter.Base.Bytes.{Bytes, get_le}
use go_matter.Base.Int.{ℤ, pos, negsuc}

pub data Error : Type 0 where
  invalid_integer_length : ℕ → Error

-- The integer that a pattern of `w` bits stands for.
abbrev pub of_word : ℕ → ℕ → ℤ
of_word w n = if ltb n (2 ^ (w - 1)) then pos n else negsuc (2 ^ w - n - 1)

-- `parseSignedInt`
unfoldable pub parse_signed_int : Bytes → Result Error ℤ
parse_signed_int b =
    if length b == 1
    then ok (of_word 8 (get_le b))
    else if length b == 2
    then ok (of_word 16 (get_le b))
    else if length b == 4
    then ok (of_word 32 (get_le b))
    else if length b == 8
    then ok (of_word 64 (get_le b))
    else err (invalid_integer_length (length b))

-- `parseUnsignedInt`
unfoldable pub parse_unsigned_int : Bytes → Result Error ℕ
parse_unsigned_int b =
    if length b == 1 || length b == 2 || length b == 4 || length b == 8
    then ok (get_le b)
    else err (invalid_integer_length (length b))
