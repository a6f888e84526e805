-- ===== src/Tlv/StructTags.antt =====
-- The `tlv:"…"` tags of struct fields: what tlv/encoder.go and tlv/decoder.go take of the strings
-- and strconv packages for them. A text is the list of its bytes.
use go_matter.Base.{
  ℕ, ◌+◌, ◌-◌, ◌*◌, ◌^◌, Bool, false, List, [], ◌∷◌, ◌==◌, ◌&&◌, ◌||◌, leb, if◌then◌else◌, Option,
  none, some,
}
use go_matter.Base.Bytes.{Bytes, equal}
use go_matter.Base.Int.{ℤ, pos, negsuc}

-- A byte in front of the first part.
abbrev pub push : ℕ → List Bytes → List Bytes
push c [] = (c ∷ []) ∷ []
push c (part ∷ parts) = (c ∷ part) ∷ parts

-- `strings.Split(s, ",")`
unfoldable pub split : Bytes → List Bytes
split [] = [] ∷ []
split (c ∷ s) = let parts = split s in if c == b',' then [] ∷ parts else push c parts

-- The part before the first comma, and the parts behind it.
abbrev pub first_part : List Bytes → Bytes
first_part [] = []
first_part (part ∷ parts) = part

abbrev pub options : List Bytes → List Bytes
options [] = []
options (part ∷ parts) = parts

unfoldable pub has_option : Bytes → List Bytes → Bool
unfolding equal
has_option text [] = false
has_option text (part ∷ parts) = equal part text || has_option text parts

-- The number that decimal digits write, behind the digits read so far; none for another byte.
unfoldable pub digits_from : ℕ → Bytes → Option ℕ
digits_from acc [] = some acc
digits_from acc (c ∷ s) =
    let rest = digits_from (acc * 10 + (c - b'0')) s in
    if leb b'0' c && leb c b'9' then rest else none

abbrev pub within : ℕ → Option ℕ → Option ℕ
within max none = none
within max (some n) = if leb n max then some n else none

-- At least one digit.
abbrev pub digits : Bytes → Option ℕ
digits [] = none
digits (c ∷ s) = digits_from 0 (c ∷ s)

-- `strconv.ParseUint(s, 10, 8)`
unfoldable pub parse_uint8 : Bytes → Option ℕ
unfolding digits_from
parse_uint8 s = within 255 (digits s)

abbrev pub positive : Option ℕ → Option ℤ
positive none = none
positive (some n) = some (pos n)

abbrev pub negative : Option ℕ → Option ℤ
negative none = none
negative (some n) = some (if n == 0 then pos 0 else negsuc (n - 1))

-- `strconv.Atoi`: an optional sign, and digits of an int64.
unfoldable pub atoi : Bytes → Option ℤ
unfolding digits_from
atoi [] = none
atoi (c ∷ s) =
    if c == b'-'
    then negative (within (2 ^ 63) (digits s))
    else if c == b'+'
    then positive (within (2 ^ 63 - 1) (digits s))
    else positive (within (2 ^ 63 - 1) (digits (c ∷ s)))

-- The bytes of "omitempty", "-" and "-1".
abbrev pub omit_empty : Bytes
omit_empty = b'o' ∷ b'm' ∷ b'i' ∷ b't' ∷ b'e' ∷ b'm' ∷ b'p' ∷ b't' ∷ b'y' ∷ []

abbrev pub dash : Bytes
dash = b'-' ∷ []

abbrev pub minus_one : Bytes
minus_one = b'-' ∷ b'1' ∷ []
