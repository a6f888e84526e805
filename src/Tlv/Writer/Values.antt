-- ===== src/Tlv/Writer/Values.antt =====
-- Unsigned integers and Booleans that the writer puts are read back.
use go_matter.Base.{
  ℕ, ◌+◌, ◌^◌, ◌<◌, ◌≤◌, ◌≡◌, ◌∙◌, refl, arith, Bool, true, false, [], ◌∷◌, ◌++◌, ◌⊎◌, inl, inr,
  if◌then◌else◌, length, Result, ok,
}
use go_matter.Base.Bytes.{Bytes, put_le, get_le-put_le, length-put_le}
use go_matter.Tlv.Types.{Tag, element, nil, Error}
use go_matter.Tlv.Integers.{parse_unsigned_int}
use go_matter.Tlv.Reader.{read_full, read_value}
use go_matter.Tlv.Writer.{write_element, put_unsigned_int, put_boolean}
use go_matter.Tlv.Writer.Tags.{IsTag, ReadsAs, read_element-write_element, read_full-append}
use native.Mathlib.Decide.{dec_lt}

-- An element whose value is `k` bytes, of a type that is read so.
reads_sized :
    (tag : Tag) (type k : ℕ) (body : Bytes)
    → IsTag tag
    → type < 24
    → ((rest : Bytes) → read_value type rest ≡ read_full k rest)
    → length body ≡ k
    → ReadsAs (write_element tag type body) (element tag type body nil)
reads_sized tag type k body h small sized size =
    read_element-write_element tag type body body h (omega arith) (omega arith)
      λ rest. sized (body ++ rest) ∙ read_full-append k body rest size

-- The raw value of type `4 + width` is 1, 2, 4 or 8 bytes, and so for type `width`.
abbrev pub Sized : ℕ → ℕ → Type 0
Sized type k = (rest : Bytes) → read_value type rest ≡ read_full k rest

pub kinds_of_size :
    Sized 0 1 × Sized 1 2 × Sized 2 4 × Sized 3 8 × Sized 4 1 × Sized 5 2 × Sized 6 4 × Sized 7 8
unfolding read_value
kinds_of_size = (
  λ rest. refl,
  λ rest. refl,
  λ rest. refl,
  λ rest. refl,
  λ rest. refl,
  λ rest. refl,
  λ rest. refl,
  λ rest. refl,
)

-- What reading an integer back means: an element of one of the four types from `base` on, with a
-- raw value of which `good` holds.
abbrev pub ReadsInt : ℕ → (Bytes → Type 0) → Tag → Result Error Bytes → Type 0
ReadsInt base Good tag written =
    (type : ℕ) × (value : Bytes) × (base ≤ type)
    × (type < base + 4)
    × Good value
    × ReadsAs written (element tag type value nil)

-- The writer puts an element of a type from `base` on with a raw value of `k` bytes.
abbrev pub IntForm : ℕ → (Bytes → Type 0) → Tag → Result Error Bytes → Type 0
IntForm base Good tag written =
    (type : ℕ) × (k : ℕ) × (value : Bytes) × (base ≤ type)
    × (type < base + 4)
    × Good value
    × (length value ≡ k)
    × Sized type k
    × (written ≡ write_element tag type value)

pub reads_form :
    (base : ℕ) (Good : Bytes → Type 0) (tag : Tag) (written : Result Error Bytes)
    → base < 20
    → IsTag tag
    → IntForm base Good tag written
    → ReadsInt base Good tag written
reads_form base Good tag written hb h (type, k, value, lo, hi, good, size, sized, form) =
    (type, value, lo, hi, good, rw form (reads_sized tag type k value h (omega arith) sized size))

parse_unsigned-put_le :
    (k v : ℕ)
    → (k ≡ 1) ⊎ (k ≡ 2) ⊎ (k ≡ 4) ⊎ (k ≡ 8)
    → v < 256 ^ k
    → parse_unsigned_int (put_le k v) ≡ ok v
unfolding parse_unsigned_int
parse_unsigned-put_le k v hk hv = ground (arith, length-put_le k v, get_le-put_le k v)

abbrev UnsignedForm : Tag → ℕ → Type 0
UnsignedForm tag v =
    IntForm 4 (λ value. parse_unsigned_int value ≡ ok v) tag (put_unsigned_int tag v)

-- The narrowest of the four widths is chosen.
unsigned_form : (tag : Tag) (v : ℕ) → v < 2 ^ 64 → UnsignedForm tag v
unsigned_form tag v h = elim (dec_lt v (2 ^ 8)) [
  | yes a ↦ (
    4,
    1,
    put_le 1 v,
    omega arith,
    omega arith,
    parse_unsigned-put_le 1 v (inl refl) a,
    length-put_le 1 v,
    kinds_of_size.4,
    (unfold put_unsigned_int put_le in ground arith),
  )
  | no a ↦ elim (dec_lt v (2 ^ 16)) [
    | yes b ↦ (
      5,
      2,
      put_le 2 v,
      omega arith,
      omega arith,
      parse_unsigned-put_le 2 v (inr (inl refl)) b,
      length-put_le 2 v,
      kinds_of_size.5,
      (unfold put_unsigned_int in ground arith),
    )
    | no b ↦ elim (dec_lt v (2 ^ 32)) [
      | yes c ↦ (
        6,
        4,
        put_le 4 v,
        omega arith,
        omega arith,
        parse_unsigned-put_le 4 v (inr (inr (inl refl))) c,
        length-put_le 4 v,
        kinds_of_size.6,
        (unfold put_unsigned_int in ground arith),
      )
      | no c ↦ (
        7,
        8,
        put_le 8 v,
        omega arith,
        omega arith,
        parse_unsigned-put_le 8 v (inr (inr (inr refl))) h,
        length-put_le 8 v,
        kinds_of_size.7,
        (unfold put_unsigned_int in ground arith),
      )
    ]
  ]
]

-- `PutUnsignedInt` of a uint64 and back, under a tag that is not fully qualified and whose id fits
-- its width: the reader finds an unsigned element with the tag, and its raw value stands for the
-- number.
pub read-put_unsigned_int :
    (tag : Tag) (v : ℕ)
    → IsTag tag
    → v < 2 ^ 64
    → ReadsInt 4 (λ value. parse_unsigned_int value ≡ ok v) tag (put_unsigned_int tag v)
read-put_unsigned_int tag v h hv =
    reads_form 4 _ tag (put_unsigned_int tag v) (omega arith) h (unsigned_form tag v hv)

-- `PutBoolean` and back, under a tag that is not fully qualified and whose id fits its width: the
-- type tells the value, and the raw value is 0 or 1.
pub read-put_boolean :
    (tag : Tag) (b : Bool)
    → IsTag tag
    → ReadsAs (put_boolean tag b) (element tag (if b then 9 else 8) ((if b then 1 else 0) ∷ []) nil)
unfolding put_boolean
read-put_boolean tag true h =
    read_element-write_element tag 9 [] (1 ∷ []) h (omega arith) (omega arith)
      (λ rest. unfold read_value in refl)
read-put_boolean tag false h =
    read_element-write_element tag 8 [] (0 ∷ []) h (omega arith) (omega arith)
      (λ rest. unfold read_value in refl)
