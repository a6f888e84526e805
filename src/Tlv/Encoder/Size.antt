-- ===== src/Tlv/Encoder/Size.antt =====
-- How long an encoding can get.
use go_matter.Base.{
  ℕ, leb, Result-cases, Bool, true, false, if◌then◌else◌, ◌>>=◌, ◌+◌, ◌≤◌, ◌≡◌, arith, [], ◌++◌,
  length, length-append, Result, ok, err, wrap, Bool-cases, inl, inr,
}
use go_matter.Base.Bytes.{Bytes, put_le, length-put_le}
use go_matter.Base.Int.{ℤ}
use go_matter.Tlv.Types.{type_utf8_string, type_byte_string, Tag, anonymous, context_tag}
use go_matter.Tlv.Writer.{
  write_tag, write_element, put_signed_int, put_unsigned_int, write_string_or_bytes,
  start_container, end_container, word_bytes, signed_width,
}
use go_matter.Tlv.Encoder.{
  writer, Error, Value, Values, Fields, marshal, encode_value, encode_container, encode_struct,
  is_skipped, field_id,
}

-- A bound on the bytes of a value: a control byte, a tag of at most 8 bytes, at most 8 bytes of an
-- integer, at most 4 bytes of a length, and the end of a container.
abbrev mutual
  pub size_bound : Value → ℕ
  size_bound (Value.int n) = 17
  size_bound (Value.uint n) = 17
  size_bound (Value.bool b) = 9
  size_bound (Value.string s) = 13 + length s
  size_bound (Value.bytes b) = 13 + length b
  size_bound (Value.slice vs) = 10 + values_bound vs
  size_bound (Value.struct fs) = 10 + fields_bound fs
  size_bound (Value.pointer v) = size_bound v
  size_bound (Value.interface v) = size_bound v
  size_bound Value.nil_pointer = 1
  size_bound Value.nil_interface = 1
  size_bound (Value.other empty) = 0

  pub values_bound : Values → ℕ
  values_bound Values.none_left = 0
  values_bound (Values.value v vs) = size_bound v + values_bound vs

  pub fields_bound : Fields → ℕ
  fields_bound Fields.end = 0
  fields_bound (Fields.field text v fs) = size_bound v + fields_bound fs

-- An encoding that succeeds has at most that many bytes.
abbrev pub AtMost : {E : Type 0} → ℕ → Result E Bytes → Type 0
AtMost n (ok bs) = length bs ≤ n
AtMost n (err e) = Unit {0}

if-AtMost :
    {E : Type 0} (n : ℕ) (b : Bool) (r s : Result E Bytes)
    → AtMost n r
    → AtMost n s
    → AtMost n (if b then r else s)
if-AtMost n true r s h k = h
if-AtMost n false r s h k = k

wrap-AtMost :
    {E F : Type 0} (n : ℕ) (w : E → F) (r : Result E Bytes) → AtMost n r → AtMost n (wrap w r)
wrap-AtMost n w (ok bs) h = h
wrap-AtMost n w (err e) h = tt

after-AtMost :
    {E A : Type 0} (n : ℕ) (r : Result E A) (f : A → Result E Bytes)
    → ((a : A) → AtMost n (f a))
    → AtMost n (r >>= f)
after-AtMost n (ok a) f h = h a
after-AtMost n (err e) f h = tt

-- Two encodings behind one another.
join-AtMost :
    {E : Type 0} (n m : ℕ) (r s : Result E Bytes)
    → AtMost n r
    → AtMost m s
    → AtMost (n + m) (do b ← r; c ← s; ok (b ++ c))
join-AtMost n m (ok b) (ok c) h k = omega (arith, length-append b c)
join-AtMost n m (ok b) (err e) h k = tt
join-AtMost n m (err e) s h k = tt

weaken-AtMost : {E : Type 0} (n m : ℕ) (r : Result E Bytes) → n ≤ m → AtMost n r → AtMost m r
weaken-AtMost n m (ok bs) h k = omega arith
weaken-AtMost n m (err e) h k = tt

word-AtMost : (k n v : ℕ) → k ≤ n → length (put_le k v) ≤ n
word-AtMost k n v h = omega (arith, length-put_le k v)

write_tag-AtMost : (tag : Tag) → AtMost 8 (write_tag tag)
unfolding write_tag put_le
write_tag-AtMost tag = ground arith

write_element-AtMost :
    (m : ℕ) (tag : Tag) (type : ℕ) (body : Bytes)
    → 9 + length body ≤ m
    → AtMost m (write_element tag type body)
unfolding write_element
write_element-AtMost m tag type body small = elim (Result-cases (write_tag tag)) [
  | inr (e, refused) ↦ rw refused tt
  | inl (t, written) ↦
      let short : length t ≤ 8 = rw written at (write_tag-AtMost tag) in
      rw written (omega (arith, length-append t body))
]

word_bytes-length : (width : ℕ) (n : ℤ) → length (word_bytes width n) ≤ 8
unfolding put_le
word_bytes-length width n = ground arith

put_signed_int-AtMost : (tag : Tag) (n : ℤ) → AtMost 17 (put_signed_int tag n)
unfolding put_signed_int
put_signed_int-AtMost tag n =
    write_element-AtMost 17 tag _ (word_bytes (signed_width n) n)
      (omega (arith, word_bytes-length (signed_width n) n))

put_unsigned_int-AtMost : (tag : Tag) (n : ℕ) → AtMost 17 (put_unsigned_int tag n)
unfolding put_unsigned_int put_le
put_unsigned_int-AtMost tag n = elim (Bool-cases (leb n 0xFF)) [
  | inl one ↦ rw one (write_element-AtMost 17 tag _ _ (omega arith))
  | inr more ↦ elim (Bool-cases (leb n 0xFFFF)) [
    | inl two ↦ rw (more, two) (write_element-AtMost 17 tag _ _ (omega arith))
    | inr more' ↦ elim (Bool-cases (leb n 0xFFFF_FFFF)) [
      | inl four ↦ rw (more, more', four) (write_element-AtMost 17 tag _ _ (omega arith))
      | inr eight ↦ rw (more, more', eight) (write_element-AtMost 17 tag _ _ (omega arith))
    ]
  ]
]

write_string_or_bytes-AtMost :
    (tag : Tag) (base : ℕ) (b : Bytes) → AtMost (13 + length b) (write_string_or_bytes tag base b)
unfolding write_string_or_bytes put_le
write_string_or_bytes-AtMost tag base b = elim (Bool-cases (leb (length b) 0xFF)) [
  | inl one ↦ rw one (write_element-AtMost _ tag _ _ (omega arith))
  | inr more ↦ elim (Bool-cases (leb (length b) 0xFFFF)) [
    | inl two ↦ rw (more, two) (write_element-AtMost _ tag _ _ (omega arith))
    | inr more' ↦ elim (Bool-cases (leb (length b) 0xFFFF_FFFF)) [
      | inl four ↦ rw (more, more', four) (write_element-AtMost _ tag _ _ (omega arith))
      | inr too_long ↦ rw (more, more', too_long) tt
    ]
  ]
]

enclose-AtMost :
    (n : ℕ) (start body : Result Error Bytes)
    → AtMost 9 start
    → AtMost n body
    → AtMost (10 + n) (do s ← start; inside ← body; ok (s ++ (inside ++ end_container)))
unfolding end_container
enclose-AtMost n (ok s) (ok b) h k =
    omega (arith, length-append s (b ++ end_container), length-append b end_container)
enclose-AtMost n (ok s) (err e) h k = tt
enclose-AtMost n (err e) body h k = tt

start-AtMost : (tag : Tag) (type : ℕ) → AtMost 9 (wrap writer (start_container tag type))
unfolding start_container
start-AtMost tag type = wrap-AtMost 9 writer _ (write_element-AtMost 9 tag type [] (omega arith))

mutual
  unfolding encode_value

  encode_value-AtMost : (v : Value) (tag : Tag) → AtMost (size_bound v) (encode_value v tag)
  encode_value-AtMost (Value.int n) tag = wrap-AtMost 17 writer _ (put_signed_int-AtMost tag n)
  encode_value-AtMost (Value.uint n) tag = wrap-AtMost 17 writer _ (put_unsigned_int-AtMost tag n)
  encode_value-AtMost (Value.bool b) tag =
      wrap-AtMost 9 writer _ (write_element-AtMost 9 tag _ [] (omega arith))
  encode_value-AtMost (Value.string s) tag =
      wrap-AtMost _ writer _ (write_string_or_bytes-AtMost tag type_utf8_string s)
  encode_value-AtMost (Value.bytes b) tag =
      wrap-AtMost _ writer _ (write_string_or_bytes-AtMost tag type_byte_string b)
  encode_value-AtMost (Value.slice vs) tag =
      enclose-AtMost (values_bound vs) _ _ (start-AtMost tag _) (encode_container-AtMost vs)
  encode_value-AtMost (Value.struct fs) tag =
      enclose-AtMost (fields_bound fs) _ _ (start-AtMost tag _) (encode_struct-AtMost fs)
  encode_value-AtMost (Value.pointer v) tag = encode_value-AtMost v tag
  encode_value-AtMost (Value.interface v) tag = encode_value-AtMost v tag
  encode_value-AtMost Value.nil_pointer tag = omega arith
  encode_value-AtMost Value.nil_interface tag = omega arith
  encode_value-AtMost (Value.other empty) tag = tt

  encode_container-AtMost : (vs : Values) → AtMost (values_bound vs) (encode_container vs)
  encode_container-AtMost Values.none_left = omega arith
  encode_container-AtMost (Values.value v vs) =
      join-AtMost _ _ _ _ (encode_value-AtMost v anonymous) (encode_container-AtMost vs)

  encode_struct-AtMost : (fs : Fields) → AtMost (fields_bound fs) (encode_struct fs)
  encode_struct-AtMost Fields.end = omega arith
  encode_struct-AtMost (Fields.field text v fs) =
      if-AtMost _ (is_skipped text v) _ _
        (weaken-AtMost _ _ _ (omega arith) (encode_struct-AtMost fs))
        (after-AtMost _ (field_id text) _ λ id.
          join-AtMost _ _ _ _ (encode_value-AtMost v (context_tag id)) (encode_struct-AtMost fs))

-- The bytes of any value that `Marshal` encodes are at most its bound: 17 for an integer, 9 for a
-- boolean, 13 and the bytes of a string or a byte slice, 10 and the bounds of the parts of a slice
-- or a struct, 1 for a nil.
pub length-marshal : (v : Value) (bs : Bytes) → marshal v ≡ ok bs → length bs ≤ size_bound v
unfolding marshal
length-marshal v bs h = rw h at (encode_value-AtMost v anonymous)
