-- ===== src/Tlv/Decoder/InRange.antt =====
-- Decoded values lie in the range of their Go type, whatever the bytes are.
use go_matter.Base.{
  ◌⊎◌, ℕ, zero, if◌then◌else◌, suc, ◌-◌, ◌^◌, refuse, ◌>>=◌, ◌>>◌, ◌<◌, ◌≡◌, arith, Bool, true,
  false, List, [], ◌∷◌, ◌++◌, All, All-append, Option, none, some, Result, ok, err, wrap, wrap-ok,
  bind-ok, ok-injective, inl, inr,
}
use mathlib.Core.Path.{subst}
use native.Mathlib.Nat.{pow-suc}
use go_matter.Base.Bytes.{Bytes}
use go_matter.Base.Int.{ℤ}
use go_matter.Tlv.Types.{Element, Elements, nil, cons}
use go_matter.Tlv.Payload.{decode_payload, read_item, reading, decoding}
use go_matter.Tlv.Decoder.GoTypes.{GoType, FieldTypes, El, Els, zero_value, zero_values}
use go_matter.Tlv.Decoder.{
  Error, decode, decode_struct, decode_items, decode_int, decode_uint, overflows_int, children_of,
  wanted_id, find_child, to_uint64, or_keep, pointee, address,
}

abbrev mutual
  pub InRange : (t : GoType) → El t → Type 0
  InRange GoType.bool v = Unit {0}
  InRange GoType.string v = Unit {0}
  InRange GoType.bytes v = Unit {0}
  InRange GoType.raw_element v = Unit {0}
  InRange GoType.other v = Unit {0}
  InRange (GoType.int w) n = overflows_int w n ≡ false
  InRange (GoType.uint w) n = n < 2 ^ w
  InRange (GoType.slice t) xs = All (λ x. InRange t x) xs
  InRange (GoType.pointer t) none = Unit {0}
  InRange (GoType.pointer t) (some v) = InRange t v
  InRange (GoType.struct ts) vs = FieldsInRange ts vs

  pub FieldsInRange : (ts : FieldTypes) → Els ts → Type 0
  FieldsInRange FieldTypes.end vs = Unit {0}
  FieldsInRange (FieldTypes.field text exported t ts) (v, vs) = InRange t v × FieldsInRange ts vs

pos_pow : (w : ℕ) → 0 < 2 ^ w
pos_pow zero = omega arith
pos_pow (suc w) = ground (arith, pow-suc 2 w, pos_pow w)

mutual
  unfolding zero_value

  zero-InRange : (t : GoType) → InRange t (zero_value t)
  zero-InRange GoType.bool = tt
  zero-InRange GoType.string = tt
  zero-InRange GoType.bytes = tt
  zero-InRange GoType.raw_element = tt
  zero-InRange GoType.other = tt
  zero-InRange (GoType.int w) = ground (arith, pos_pow (w - 1))
  zero-InRange (GoType.uint w) = pos_pow w
  zero-InRange (GoType.slice t) = tt
  zero-InRange (GoType.pointer t) = tt
  zero-InRange (GoType.struct ts) = zeros-InRange ts

  zeros-InRange : (ts : FieldTypes) → FieldsInRange ts (zero_values ts)
  zeros-InRange FieldTypes.end = tt
  zeros-InRange (FieldTypes.field text exported t ts) = (zero-InRange t, zeros-InRange ts)

decode_int-InRange :
    (w : ℕ) (e : Element) (n : ℤ) → decode_int w e ≡ ok n → overflows_int w n ≡ false
unfolding decode_int
decode_int-InRange w e n h = ground arith

decode_uint-InRange : (w : ℕ) (e : Element) (n : ℕ) → decode_uint w e ≡ ok n → n < 2 ^ w
unfolding decode_uint
decode_uint-InRange w e n h = ground arith

pub refuse-ok :
    {E A : Type 0} (b : Bool) (x : E) (r : Result E A) (v : A)
    → (do refuse b x; r) ≡ ok v
    → r ≡ ok v
refuse-ok true x r v h = cc
refuse-ok false x r v h = h

-- The loop of `decodeSlice` keeps a property of all items.
decode_items-All :
    {A : Type 0} (P : A → Type 0) (f : Element → Result Error A) (es : Elements) (xs ys : List A)
    → ((e : Element) (x : A) → f e ≡ ok x → P x)
    → decode_items f es xs ≡ ok ys
    → All P xs
    → All P ys
unfolding decode_items
decode_items-All P f nil xs ys each h all = subst (λ zs. All P zs) (ok-injective h) all
decode_items-All P f (cons e es) xs ys each h all =
    let (x, got, h') = bind-ok (f e) _ h in
    decode_items-All P f es (xs ++ (x ∷ [])) ys each h'
      (All-append P xs (x ∷ []) all (each e x got, tt))

or_keep-ok :
    {A : Type 0} (P : A → Type 0) (f : Element → Result Error A) (v w : A) (o : Option Element)
    → ((e : Element) → f e ≡ ok w → P w)
    → or_keep f v o ≡ ok w
    → P v
    → P w
or_keep-ok P f v w none each h p = subst P (ok-injective h) p
or_keep-ok P f v w (some e) each h p = each e h

address-ok :
    {A : Type 0} (null : Bool) (r : Result Error A) (x : A)
    → (if null then ok none else address r) ≡ ok (some x)
    → r ≡ ok x
address-ok true r x h = cc
address-ok false (ok y) x h = cc
address-ok false (err e) x h = cc

abbrev with_rest : {A B : Type 0} → A → Result Error B → Result Error (A × B)
with_rest v rest = do ws ← rest; ok (v, ws)

-- What a field that decodes was given, and that the fields behind it decode.
pub field-ok :
    {A B : Type 0} (skip : Bool) (id : Result Error ℤ) (value : ℤ → Result Error A)
    (rest : Result Error B) (v v' : A) (vs' : B)
    → (if skip then with_rest v rest else (do i ← id; w ← value i; with_rest w rest)) ≡ ok (v', vs')
    → ((v ≡ v') ⊎ ((i : ℤ) × (value i ≡ ok v'))) × (rest ≡ ok vs')
field-ok true id value rest v v' vs' h = let (ws, ran, h') = bind-ok rest _ h in (inl (cc), cc)
field-ok false id value rest v v' vs' h =
    let (i, h0, h1) = bind-ok id _ h in
    let (w, got, h2) = bind-ok (value i) _ h1 in
    let (ws, ran, h3) = bind-ok rest _ h2 in (inr (i, cc), cc)

pointee-InRange :
    (t : GoType) (v : Option (El t))
    → InRange (GoType.pointer t) v
    → InRange t (pointee (zero_value t) v)
pointee-InRange t none r = zero-InRange t
pointee-InRange t (some v) r = r

mutual
  unfolding decode

  -- Decoding keeps the integers inside their types, where those that stood there were inside.
  pub decode-InRange :
      (t : GoType) (e : Element) (v v' : El t) → decode t e v ≡ ok v' → InRange t v → InRange t v'
  decode-InRange GoType.bool e v v' h r = tt
  decode-InRange GoType.string e v v' h r = tt
  decode-InRange GoType.bytes e v v' h r = tt
  decode-InRange GoType.raw_element e v v' h r = tt
  decode-InRange GoType.other e v v' h r = tt
  decode-InRange (GoType.int w) e v v' h r = decode_int-InRange w e v' h
  decode-InRange (GoType.uint w) e v v' h r = decode_uint-InRange w e v' h
  decode-InRange (GoType.slice t) e v v' h r =
      decode_items-All (λ x. InRange t x) _ (children_of e) v v'
        (λ child x got. decode-InRange t child (zero_value t) x got (zero-InRange t))
        (refuse-ok _ _ _ v' h) r
  decode-InRange (GoType.pointer t) e v none h r = tt
  decode-InRange (GoType.pointer t) e v (some x) h r =
      decode-InRange t e (pointee (zero_value t) v) x (address-ok _ _ x h) (pointee-InRange t v r)
  decode-InRange (GoType.struct ts) e v v' h r =
      decode_struct-InRange ts (children_of e) v v' (refuse-ok _ _ _ v' h) r

  decode_struct-InRange :
      (ts : FieldTypes) (es : Elements) (vs vs' : Els ts)
      → decode_struct ts es vs ≡ ok vs'
      → FieldsInRange ts vs
      → FieldsInRange ts vs'
  decode_struct-InRange FieldTypes.end es vs vs' h r = tt
  decode_struct-InRange (FieldTypes.field text exported t ts) es (v, vs) (v', vs') h (r, rs) =
      let (value, rest) = field-ok _ (wanted_id text) _ (decode_struct ts es vs) v v' vs' h in
      (
        elim value [
          | inl kept ↦ subst (λ x. InRange t x) kept r
          | inr (id, got) ↦
              or_keep-ok (λ x. InRange t x) _ v v' (find_child (to_uint64 id) es)
                (λ e here. decode-InRange t e v v' here r) got r
        ],
        decode_struct-InRange ts es vs vs' rest rs,
      )

-- Whatever the bytes are, the integers of a payload that decodes lie in the ranges of their types.
pub decode_payload-InRange :
    (t : GoType) (b : Bytes) (v : El t) → decode_payload t b ≡ ok v → InRange t v
unfolding decode_payload
decode_payload-InRange t b v h =
    let ((e, rest), read, h') = bind-ok (wrap reading (read_item b)) _ h in
    decode-InRange t e (zero_value t) v (wrap-ok decoding _ h') (zero-InRange t)
