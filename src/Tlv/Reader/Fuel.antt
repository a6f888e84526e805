-- ===== src/Tlv/Reader/Fuel.antt =====
-- The reader ends: `ReadContainerChildren` never runs out of fuel.
use Prim.Native.Nat.{zero, suc}
use go_matter.Base.{
  ℕ, ◌+◌, ◌^◌, ◌<◌, ◌≤◌, ◌≡◌, ◌≢◌, arith, [], ◌==◌, if◌then◌else◌, length, take, drop, length-drop,
  Result, ok, err, wrap, bind-ok, wrap-ok, Result-cases, inl, inr, bit_and, get_or,
}
use go_matter.Base.Bytes.{Bytes, get_le}
use go_matter.Tlv.Types.{
  Tag, Element, Elements, Error, out_of_fuel, reading_tag, reading_value, type_end_of_container,
}
use go_matter.Tlv.Reader.{
  read_full, read_tag, read_value, read_string_or_bytes, read_element, read_children,
  read_container_children,
}

read_full-le :
    (n : ℕ) (b v rest : Bytes) → read_full n b ≡ ok (v, rest) → length rest + n ≤ length b
unfolding read_full
read_full-le n b v rest e = ground (arith, length-drop n b)

read_full-fuel : (n : ℕ) (b : Bytes) → read_full n b ≢ err out_of_fuel
unfolding read_full
read_full-fuel n b e = ground arith

read_tag-le :
    (c : ℕ) (b : Bytes) (tag : Tag) (rest : Bytes)
    → read_tag c b ≡ ok (tag, rest)
    → length rest ≤ length b
unfolding read_tag
read_tag-le c b tag rest e =
    ground (arith, length-drop 1 b, length-drop 2 b, length-drop 4 b, length-drop 8 b)

read_string-le :
    (n : ℕ) (b v rest : Bytes) → read_string_or_bytes n b ≡ ok (v, rest) → length rest ≤ length b
unfolding read_string_or_bytes
read_string-le n b v rest e =
    ground (arith, length-drop (2 ^ n) b, length-drop (get_le (take (2 ^ n) b)) (drop (2 ^ n) b))

read_value-le :
    (type : ℕ) (b v rest : Bytes) → read_value type b ≡ ok (v, rest) → length rest ≤ length b
unfolding read_value
read_value-le type b v rest e =
    let n = bit_and type 3 in
    ground (arith, length-drop (2 ^ n) b, length-drop (get_le (take (2 ^ n) b)) (drop (2 ^ n) b))

abbrev read_body : ℕ → Bytes → Result Error (Bytes × Bytes)
read_body type b =
    if type == type_end_of_container then ok ([], b) else wrap reading_value (read_value type b)

body-le : (type : ℕ) (b v rest : Bytes) → read_body type b ≡ ok (v, rest) → length rest ≤ length b
body-le type b v rest h = ground (arith, read_value-le type b v rest)

-- An element takes a byte at least.
pub read_element-lt :
    (b : Bytes) (e : Element) (rest : Bytes)
    → read_element b ≡ ok (e, rest)
    → length rest < length b
unfolding read_element
read_element-lt b e rest h =
    let ((buf, r), first, h1) = bind-ok (read_full 1 b) _ h in
    let ((tag, r'), tagged, h2) = bind-ok (wrap reading_tag (read_tag _ r)) _ h1 in
    let ((v, r''), valued, h3) = bind-ok (read_body (bit_and (get_or buf 0 0) 0x1F) r') _ h2 in
    ground (
      arith,
      read_full-le 1 b buf r first,
      read_tag-le _ r tag r' (wrap-ok reading_tag _ tagged),
      body-le (bit_and (get_or buf 0 0) 0x1F) r' v r'' valued,
    )

read_element-fuel : (b : Bytes) → read_element b ≢ err out_of_fuel
unfolding read_element
read_element-fuel b h = grind (arith, read_full-fuel)

read_children-lt :
    (f : ℕ) (b : Bytes) (es : Elements) (rest : Bytes)
    → read_children f b ≡ ok (es, rest)
    → length rest < length b
unfolding read_children
read_children-lt zero b es rest h = cc
read_children-lt (suc f) b es rest h = elim (Result-cases (read_element b)) [
  | inr (x, none) ↦ ground arith
  | inl ((e, r), found) ↦
      let less = read_element-lt b e r found in
      elim (Result-cases (read_children f r)) [
        | inr (x, failed) ↦ ground arith
        | inl ((subs, r'), inner) ↦
            let less' = read_children-lt f r subs r' inner in
            elim (Result-cases (read_children f r')) [
              | inr (x, failed) ↦ ground arith
              | inl ((more, r''), outer) ↦ ground (arith, read_children-lt f r' more r'' outer)
            ]
      ]
]

read_children-fuel : (f : ℕ) (b : Bytes) → length b < f → read_children f b ≢ err out_of_fuel
unfolding read_children
read_children-fuel zero b l h = omega arith
read_children-fuel (suc f) b l h = elim (Result-cases (read_element b)) [
  | inr (x, none) ↦ ground (arith, read_element-fuel b)
  | inl ((e, r), found) ↦
      let less = read_element-lt b e r found in
      let ends = read_children-fuel f r (omega arith) in
      elim (Result-cases (read_children f r)) [
        | inr (x, failed) ↦ ground arith
        | inl ((subs, r'), inner) ↦
            let less' = read_children-lt f r subs r' inner in
            ground (arith, read_children-fuel f r' (omega arith))
      ]
]

-- The reading of a container's children ends on every input: the fuel that it starts with, one
-- above the number of bytes left, is never used up.
pub read_container_children-terminates : (b : Bytes) → read_container_children b ≢ err out_of_fuel
unfolding read_container_children
read_container_children-terminates b = read_children-fuel (suc (length b)) b (omega arith)
