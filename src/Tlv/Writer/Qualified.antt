-- ===== src/Tlv/Writer/Qualified.antt =====
-- The fully qualified tags, on which writer and reader do not agree.
use go_matter.Base.{ℕ, ◌+◌, ◌*◌, ◌/◌, ◌%◌, ◌^◌, ◌<◌, ◌≡◌, arith, [], ◌∷◌, ◌++◌, ok, err}
use go_matter.Base.Bytes.{Bytes, put_le, get_le}
use go_matter.Tlv.Types.{Tag, unexpected_eof}
use go_matter.Tlv.Reader.{read_tag}
use go_matter.Tlv.Writer.{write_tag}

-- The tag that the reader makes of a written 8-byte tag: the halves of the profile are swapped.
abbrev pub swapped : Tag → Tag
swapped tag = record tag { profile = tag.profile % 2 ^ 16 * 2 ^ 16 + tag.profile / 2 ^ 16 }

-- An 8-byte fully qualified tag with a 32-bit id and profile comes back with the halves of its profile swapped, and nothing
-- else changed.
pub read_tag-write_tag-swapped :
    (tag : Tag) (rest : Bytes)
    → tag.class ≡ 0xE0
    → tag.id < 2 ^ 32
    → tag.profile < 2 ^ 32
    → (bs : Bytes) × (write_tag tag ≡ ok bs)
      × (read_tag tag.class (bs ++ rest) ≡ ok (swapped tag, rest))
unfolding write_tag read_tag put_le get_le
read_tag-write_tag-swapped tag rest h hi hp = (
  put_le 2 (tag.profile / 2 ^ 16 % 2 ^ 16)
      ++ put_le 2 (tag.profile % 2 ^ 16 % 2 ^ 16)
      ++ put_le 4 (tag.id % 2 ^ 32),
  ground arith,
  ground arith,
)

-- What the reader makes of a written 6-byte tag and two bytes that follow.
abbrev overrun_tag : Tag → ℕ → ℕ → Tag
overrun_tag tag x y = record {
  class = tag.class;
  id = get_le (put_le 2 (tag.id % 2 ^ 16) ++ (x ∷ y ∷ []));
  profile =
      get_le (put_le 2 (tag.profile / 2 ^ 16 % 2 ^ 16) ++ put_le 2 (tag.profile % 2 ^ 16 % 2 ^ 16));
}

-- A 6-byte fully qualified tag is written as 6 bytes and read as 8: the reader fails where
-- nothing follows, and else takes the two bytes that follow for part of the tag.
pub read_tag-write_tag_overrun :
    (tag : Tag) (x y : ℕ) (rest : Bytes)
    → tag.class ≡ 0xC0
    → (bs : Bytes) × (found : Tag) × (write_tag tag ≡ ok bs)
      × (read_tag tag.class bs ≡ err unexpected_eof)
      × (read_tag tag.class (bs ++ (x ∷ y ∷ rest)) ≡ ok (found, rest))
unfolding write_tag read_tag put_le
read_tag-write_tag_overrun tag x y rest h = (
  put_le 2 (tag.profile / 2 ^ 16 % 2 ^ 16)
      ++ put_le 2 (tag.profile % 2 ^ 16 % 2 ^ 16)
      ++ put_le 2 (tag.id % 2 ^ 16),
  overrun_tag tag x y,
  ground arith,
  ground arith,
  ground arith,
)
