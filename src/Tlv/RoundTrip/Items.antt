-- ===== src/Tlv/RoundTrip/Items.antt =====
-- Items, elements with all their children, and lists of them up to an end of container.
use Prim.Native.Nat.{zero, suc}
use go_matter.Base.{
  ℕ, ◌<◌, ◌≡◌, ap, arith, ◌∙◌, true, false, [], ◌∷◌, ◌++◌, ◌==◌, length, length-append, Result, ok,
  ◌>>=◌,
}
use mathlib.Core.List.{append_assoc}
use go_matter.Base.Bytes.{Bytes}
use go_matter.Tlv.Types.{Tag, Element, Elements, Error, element, nil, cons, is_container}
use go_matter.Tlv.Reader.{
  read_full, read_tag, read_element, read_children, read_container_children, type_of,
}
use go_matter.Tlv.Payload.{read_item}

abbrev pub push_item : Element → Elements × Bytes → Result Error (Elements × Bytes)
push_item e (more, rest) = ok (cons e more, rest)

-- Whatever follows, the bytes are read as one element with its children, at the top and among the
-- children of a container, with any fuel above the number of bytes.
pub record ReadsItem (bs : Bytes) (e : Element) : Type 0 where
  pub some_bytes : 0 < length bs
  pub alone : (rest : Bytes) → read_item (bs ++ rest) ≡ ok (e, rest)
  pub among :
      (f : ℕ) (rest : Bytes)
      → length (bs ++ rest) < suc f
      → read_children (suc f) (bs ++ rest) ≡ (read_children f rest >>= push_item e)

-- Whatever follows the end of the container, the bytes in front of it are read as its children.
abbrev pub ReadsItems : Bytes → Elements → Type 0
ReadsItems bs es =
    (f : ℕ) (rest : Bytes)
    → length (bs ++ (0x18 ∷ rest)) < f
    → read_children f (bs ++ (0x18 ∷ rest)) ≡ ok (es, rest)

-- An element that is no container, and no end of one.
pub plain-ReadsItem :
    (bs : Bytes) (e : Element)
    → 0 < length bs
    → ((rest : Bytes) → read_element (bs ++ rest) ≡ ok (e, rest))
    → (type_of e == 0x18) ≡ false
    → is_container (type_of e) ≡ false
    → ReadsItem bs e
unfolding read_children read_item
plain-ReadsItem bs e some_bytes reads inside flat = record {
  some_bytes = some_bytes;
  alone = λ rest. rw (reads rest, flat);
  among = λ f rest enough. rw (reads rest, inside, flat);
}

pub nil-ReadsItems : ReadsItems [] nil
unfolding read_children read_element read_full read_tag
nil-ReadsItems zero rest enough = absurd (omega arith)
nil-ReadsItems (suc f) rest enough = ground arith

pub cons-ReadsItems :
    (bs cs : Bytes) (e : Element) (es : Elements)
    → ReadsItem bs e
    → ReadsItems cs es
    → ReadsItems (bs ++ cs) (cons e es)
cons-ReadsItems bs cs e es item items zero rest enough = absurd (omega arith)
cons-ReadsItems bs cs e es item items (suc f) rest enough =
    let whole = append_assoc bs cs (0x18 ∷ rest) in
    rw whole (
      item.among f (cs ++ (0x18 ∷ rest)) (rw whole at enough)
      ∙ rw (
          items f rest (
            omega
              (arith, ap length whole, length-append bs (cs ++ (0x18 ∷ rest)), item.some_bytes))))

regroup :
    (hd body rest : Bytes) → (hd ++ (body ++ (0x18 ∷ []))) ++ rest ≡ hd ++ (body ++ (0x18 ∷ rest))
regroup hd body rest =
    append_assoc hd (body ++ (0x18 ∷ [])) rest
    ∙ ap (λ (t : Bytes). hd ++ t) (append_assoc body (0x18 ∷ []) rest)

-- A container is read back from the bytes of its start, of its children and of its end.
pub container-ReadsItem :
    (hd body : Bytes) (tag : Tag) (type : ℕ) (es : Elements)
    → 0 < length hd
    → ((rest : Bytes) → read_element (hd ++ rest) ≡ ok (element tag type [] nil, rest))
    → (type == 0x18) ≡ false
    → is_container type ≡ true
    → ReadsItems body es
    → ReadsItem (hd ++ (body ++ (0x18 ∷ []))) (element tag type [] es)
unfolding read_children read_item read_container_children
container-ReadsItem hd body tag type es some_bytes reads inside nested items = record {
  some_bytes = omega (arith, length-append hd (body ++ (0x18 ∷ [])));
  alone = λ rest. rw (
    regroup hd body rest,
    reads (body ++ (0x18 ∷ rest)),
    nested,
    items (suc (length (body ++ (0x18 ∷ rest)))) rest (omega arith),
  );
  among = λ f rest enough.
      let fits : length (body ++ (0x18 ∷ rest)) < f =
        omega (arith, ap length (regroup hd body rest), length-append hd (body ++ (0x18 ∷ rest))) in
      rw (regroup hd body rest, reads (body ++ (0x18 ∷ rest)), inside, nested, items f rest fits);
}
