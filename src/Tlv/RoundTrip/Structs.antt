-- ===== src/Tlv/RoundTrip/Structs.antt =====
-- Structs, and with them all Go values that fit.
use go_matter.Base.{
  ℕ, ◌≡◌, ◌≢◌, refl, sym, ap, arith, ◌∙◌, Bool, true, false, List, [], ◌∷◌, ◌++◌, All, none, some,
  ok, ◌⊎◌, length-append, inl, inr, Bool-cases, ==_ne,
}
use go_matter.Base.Bytes.{Bytes}
use go_matter.Tlv.Types.{Tag, Element, Elements, nil, cons, element, anonymous, context_tag}
use go_matter.Tlv.Reader.{type_of}
use go_matter.Tlv.Reader.Fuel.{read_element-lt}
use go_matter.Tlv.Writer.{start_container, end_container}
use go_matter.Tlv.Writer.Tags.{IsTag}
use go_matter.Tlv.Encoder.{encode_value, encode_struct, is_skipped, marshal}
use go_matter.Tlv.Payload.{read_item, decode_payload}
use go_matter.Tlv.Decoder.{
  GoType, FieldTypes, El, Els, view, view_fields, zero_value, zero_values, decode, decode_struct,
  find_child, tag_of,
}
use go_matter.Tlv.RoundTrip.Items.{
  ReadsItem, ReadsItems, nil-ReadsItems, cons-ReadsItems, container-ReadsItem,
}
use go_matter.Tlv.RoundTrip.Scalars.{
  Encoded, int-Encoded, uint-Encoded, bool-Encoded, string-Encoded, bytes-Encoded,
  read-start_container,
}
use go_matter.Tlv.RoundTrip.Children.{
  append, append_assoc_cons, find_child-append, find_child-append_other, find_child-append_same,
  view_all-Encoded,
}
use go_matter.Tlv.RoundTrip.Fits.{IsFieldTag, Fits, FitsFields, skipped-zero}

-- The fields of a struct: their encodings in a row are read as children, none of which has another
-- id, and decoding these children into zero fields gives the fields back, whatever children with
-- other ids stand in front.
abbrev pub FieldsEncoded : (ts : FieldTypes) → List ℕ → Els ts → Type 0
FieldsEncoded ts ids vs =
    (body : Bytes) × (es : Elements) × (encode_struct (view_fields ts vs) ≡ ok body)
    × ReadsItems body es
    × ((id : ℕ) → All (λ j. j ≢ id) ids → find_child id es ≡ none)
    × ((ds : Elements)
        → All (λ j. find_child j ds ≡ none) ids
        → decode_struct ts (append ds es) (zero_values ts) ≡ ok vs)

absent_behind :
    (ids : List ℕ) (ds : Elements) (e : Element) (id : ℕ)
    → (tag_of e).id ≡ id
    → All (λ j. j ≢ id) ids
    → All (λ j. find_child j ds ≡ none) ids
    → All (λ j. find_child j (append ds (cons e nil)) ≡ none) ids
absent_behind [] ds e id same others absent = tt
absent_behind (j ∷ ids) ds e id same (other, others) (no_j, absent) = (
  find_child-append_other j ds e no_j (λ k. other (sym k ∙ same)),
  absent_behind ids ds e id same others absent,
)

module _ (text : Bytes) (exported : Bool) (t : GoType) (ts : FieldTypes) (id : ℕ) (ids : List ℕ)
    (v : El t) (vs : Els ts) (tag : IsFieldTag text exported id) (others : All (λ j. j ≢ id) ids)
    (rest : FieldsEncoded ts ids vs) where
  skipped_field :
      is_skipped text (view t v) ≡ true
      → FieldsEncoded (FieldTypes.field text exported t ts) (id ∷ ids) (v, vs)
  unfolding encode_struct view_fields decode_struct zero_values
  skipped_field skip =
      let (body, es, done, items, absent, back) = rest in
      (
        body,
        es,
        rw (skip, done),
        items,
        λ other h. absent other h.1,
        λ ds h. rw (
          tag.read_back,
          tag.wants,
          find_child-append id ds es h.0,
          absent id others,
          back ds h.1,
          skipped-zero t v text exported id tag skip,
        ),
      )

  written_field :
      is_skipped text (view t v) ≡ false
      → Encoded t v (context_tag id)
      → FieldsEncoded (FieldTypes.field text exported t ts) (id ∷ ids) (v, vs)
  unfolding encode_struct view_fields decode_struct zero_values
  written_field keep (e, (bs, written, item), tagged, _, decoded) =
      let (body, es, done, items, absent, back) = rest in
      let same : (tag_of e).id ≡ id = ap (λ (k : Tag). k.id) tagged in
      (
        bs ++ body,
        cons e es,
        rw (keep, tag.writes, written, done),
        cons-ReadsItems bs body e es item items,
        λ other h. unfold find_child in rw (same, ==_ne id other h.0, absent other h.1),
        λ ds h. rw (
          tag.read_back,
          tag.wants,
          find_child-append_same id ds es e h.0 same,
          decoded,
          ← append_assoc_cons ds e es,
          back (append ds (cons e nil)) (absent_behind ids ds e id same others h.1),
        ),
      )

no_children : (ids : List ℕ) → All (λ j. find_child j nil ≡ none) ids
unfolding find_child
no_children [] = tt
no_children (j ∷ ids) = (refl, no_children ids)

-- A started container around children.
container :
    (tag : Tag) (type : ℕ)
    → IsTag tag
    → (type ≡ 0x15) ⊎ (type ≡ 0x16)
    → (body : Bytes) (es : Elements) → ReadsItems body es
    → (hd : Bytes) × (start_container tag type ≡ ok hd)
      × ReadsItem (hd ++ (body ++ end_container)) (element tag type [] es)
unfolding end_container
container tag type h two body es items =
    let (hd, started, reads) = read-start_container tag type h two in
    (
      hd,
      started,
      container-ReadsItem hd body tag type es
          (omega (arith, read_element-lt (hd ++ []) _ [] (reads []), length-append {0} hd [])) reads
          (ground arith) (ground arith) items,
    )

mutual
  unfolding encode_value view decode zero_value end_container

  value-Encoded : (t : GoType) (v : El t) (tag : Tag) → IsTag tag → Fits t v → Encoded t v tag
  value-Encoded GoType.bool b tag h fits = bool-Encoded b tag h
  value-Encoded GoType.string s tag h fits = string-Encoded s tag h fits
  value-Encoded GoType.bytes b tag h fits = bytes-Encoded b tag h fits
  value-Encoded GoType.raw_element e tag h fits = absurd fits
  value-Encoded GoType.other x tag h fits = absurd fits
  value-Encoded (GoType.int w) n tag h fits = int-Encoded w n tag h fits.0 fits.1
  value-Encoded (GoType.uint w) n tag h fits = uint-Encoded w n tag h fits.0 fits.1
  value-Encoded (GoType.slice t) xs tag h fits =
      let (body, es, done, items, back) =
        view_all-Encoded t (λ x. Fits t x) xs [] (λ x p. value-Encoded t x anonymous (refl, refl) p)
          fits in
      let (hd, started, item) = container tag 0x16 h (inr refl) body es items in
      (
        element tag 0x16 [] es,
        (hd ++ (body ++ end_container), rw (started, done), item),
        refl,
        omega arith,
        back,
      )
  value-Encoded (GoType.pointer t) none tag h fits = absurd fits
  value-Encoded (GoType.pointer t) (some v) tag h fits =
      let (e, reads, tagged, not_null, decoded) = value-Encoded t v tag h fits in
      (e, reads, tagged, not_null, rw (==_ne (type_of e) 0x14 not_null, decoded))
  value-Encoded (GoType.struct ts) vs tag h (ids, fits) =
      let (body, es, done, items, _, back) = fields-Encoded ts ids vs fits in
      let (hd, started, item) = container tag 0x15 h (inl refl) body es items in
      (
        element tag 0x15 [] es,
        (hd ++ (body ++ end_container), rw (started, done), item),
        refl,
        omega arith,
        back nil (no_children ids),
      )

  fields-Encoded :
      (ts : FieldTypes) (ids : List ℕ) (vs : Els ts)
      → FitsFields ts ids vs
      → FieldsEncoded ts ids vs
  fields-Encoded FieldTypes.end ids vs fits =
      ([], nil, refl, nil-ReadsItems, λ id h. refl, λ ds h. refl)
  fields-Encoded (FieldTypes.field text exported t ts) [] vs fits = absurd fits
  fields-Encoded (FieldTypes.field text exported t ts) (id ∷ ids) (v, vs) (tag, others, fit, fits) =
      let rest = fields-Encoded ts ids vs fits in
      elim (Bool-cases (is_skipped text (view t v))) [
        | inl skip ↦ skipped_field text exported t ts id ids v vs tag others rest skip
        | inr keep ↦
            written_field text exported t ts id ids v vs tag others rest keep
              (value-Encoded t v (context_tag id) (refl, tag.byte) (fit keep))
      ]

-- The bytes of a value that fits are read as one item, whatever follows them.
pub decode-marshal :
    (t : GoType) (v : El t)
    → Fits t v
    → (bs : Bytes) × (e : Element) × (marshal (view t v) ≡ ok bs)
      × ((rest : Bytes) → read_item (bs ++ rest) ≡ ok (e, rest))
      × (decode t e (zero_value t) ≡ ok v)
unfolding marshal
decode-marshal t v fits =
    let (e, (bs, written, item), _, _, decoded) = value-Encoded t v anonymous (refl, refl) fits in
    (bs, e, written, item.alone, decoded)

-- Every value of every Go type that the encoding carries (numbers in the range of their type,
-- strings below 2 ^ 31 bytes, arrays, pointers that are not nil or are left out, and structs whose
-- fields have different ids) is encoded, and decoding the bytes gives exactly the value back,
-- whatever bytes follow.
pub decode_payload-marshal :
    (t : GoType) (v : El t) (rest : Bytes)
    → Fits t v
    → (bs : Bytes) × (marshal (view t v) ≡ ok bs) × (decode_payload t (bs ++ rest) ≡ ok v)
unfolding decode_payload
decode_payload-marshal t v rest fits =
    let (bs, e, written, reads, decoded) = decode-marshal t v fits in
    (bs, written, rw (reads rest, decoded))
