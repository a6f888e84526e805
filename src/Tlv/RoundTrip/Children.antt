-- ===== src/Tlv/RoundTrip/Children.antt =====
-- Children of containers: finding one by its id, and decoding the items of an array.
use go_matter.Base.{
  ℕ, ◌≡◌, ◌≢◌, refl, ap, arith, ◌∙◌, List, [], ◌∷◌, ◌++◌, All, ==_self, ==_ne, none, some, ok,
}
use mathlib.Core.List.{append_assoc, append-nil}
use go_matter.Base.Bytes.{Bytes}
use go_matter.Tlv.Types.{Element, Elements, nil, cons, anonymous}
use go_matter.Tlv.Encoder.{encode_container}
use go_matter.Tlv.Decoder.{
  GoType, El, view, view_all, zero_value, decode, decode_items, find_child, tag_of,
}
use go_matter.Tlv.RoundTrip.Items.{ReadsItems, nil-ReadsItems, cons-ReadsItems}
use go_matter.Tlv.RoundTrip.Scalars.{Encoded}

abbrev pub append : Elements → Elements → Elements
append nil es = es
append (cons e ds) es = cons e (append ds es)

pub append_assoc_cons :
    (ds : Elements) (e : Element) (es : Elements)
    → append (append ds (cons e nil)) es ≡ append ds (cons e es)
append_assoc_cons nil e es = refl
append_assoc_cons (cons d ds) e es = ap (cons d) (append_assoc_cons ds e es)

pub append-nil_elements : (ds : Elements) → append ds nil ≡ ds
append-nil_elements nil = refl
append-nil_elements (cons d ds) = ap (cons d) (append-nil_elements ds)

pub find_child-append :
    (id : ℕ) (ds es : Elements)
    → find_child id ds ≡ none
    → find_child id (append ds es) ≡ find_child id es
unfolding find_child
find_child-append id nil es h = refl
find_child-append id (cons d ds) es h = ground (arith, find_child-append id ds es)

pub find_child-append_other :
    (id : ℕ) (ds : Elements) (e : Element)
    → find_child id ds ≡ none
    → (tag_of e).id ≢ id
    → find_child id (append ds (cons e nil)) ≡ none
find_child-append_other id ds e h other =
    find_child-append id ds (cons e nil) h
    ∙ unfold find_child in (rw (==_ne (tag_of e).id id other))

pub find_child-append_same :
    (id : ℕ) (ds es : Elements) (e : Element)
    → find_child id ds ≡ none
    → (tag_of e).id ≡ id
    → find_child id (append ds (cons e es)) ≡ some e
find_child-append_same id ds es e h same =
    find_child-append id ds (cons e es) h ∙ unfold find_child in (rw (same, ==_self id))

-- The elements of an array: their encodings in a row are read as children, and decoding these
-- behind the elements that stand there appends them.
pub view_all-Encoded :
    (t : GoType) (P : El t → Type 0) (xs acc : List (El t))
    → ((x : El t) → P x → Encoded t x anonymous)
    → All P xs
    → (body : Bytes) × (es : Elements) × (encode_container (view_all (λ x. view t x) xs) ≡ ok body)
      × ReadsItems body es
      × (decode_items (λ child. decode t child (zero_value t)) es acc ≡ ok (acc ++ xs))
unfolding encode_container decode_items
view_all-Encoded t P [] acc f h = ([], nil, refl, nil-ReadsItems, rw append-nil)
view_all-Encoded t P (x ∷ xs) acc f (p, ps) =
    let (e, (bs, written, item), _, _, decoded) = f x p in
    let (body, es, rest, items, back) = view_all-Encoded t P xs (acc ++ (x ∷ [])) f ps in
    (
      bs ++ body,
      cons e es,
      rw (written, rest),
      cons-ReadsItems bs body e es item items,
      rw decoded (back ∙ ap ok (append_assoc acc (x ∷ []) xs)),
    )
