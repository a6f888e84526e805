-- ===== src/Tlv/Decoder/GoTypes.antt =====
-- tlv/: Go types as reflection shows them, their values, and what the encoder sees of these.
use go_matter.Base.{ℕ, Bool, false, List, [], ◌∷◌, Option, none, some}
use go_matter.Base.Bytes.{Bytes}
use go_matter.Base.Int.{ℤ, pos}
use go_matter.Tlv.Types.{Element, element, nil, anonymous}
use go_matter.Tlv.Encoder.{Value, Values, Fields}

-- The Go types, an integer with its width; `other` is one of the kinds that `Decode` leaves alone.
-- A field has its tag, and whether it is exported.
mutual
  pub data GoType : Type 0 where
    bool string bytes raw_element other : GoType
    int uint : ℕ → GoType
    slice pointer : GoType → GoType
    struct : FieldTypes → GoType

  pub data FieldTypes : Type 0 where
    end : FieldTypes
    field : Bytes → Bool → GoType → FieldTypes → FieldTypes

-- The values of a type. A nil pointer is `none`; a struct is a tuple of its fields.
abbrev mutual
  pub El : GoType → Type 0
  El bool = Bool
  El string = Bytes
  El bytes = Bytes
  El raw_element = Element
  El other = Unit {0}
  El (int w) = ℤ
  El (uint w) = ℕ
  El (slice t) = List (El t)
  El (pointer t) = Option (El t)
  El (struct ts) = Els ts

  pub Els : FieldTypes → Type 0
  Els end = Unit {0}
  Els (field text exported t ts) = El t × Els ts

-- The zero value, which `reflect.New` makes.
unfoldable mutual
  pub zero_value : (t : GoType) → El t
  zero_value bool = false
  zero_value string = []
  zero_value bytes = []
  zero_value raw_element = element anonymous 0 [] nil
  zero_value other = tt
  zero_value (int w) = pos 0
  zero_value (uint w) = 0
  zero_value (slice t) = []
  zero_value (pointer t) = none
  zero_value (struct ts) = zero_values ts

  pub zero_values : (ts : FieldTypes) → Els ts
  zero_values end = tt
  zero_values (field text exported t ts) = (zero_value t, zero_values ts)

abbrev pub view_all : {A : Type 0} → (A → Value) → List A → Values
view_all f [] = Values.none_left
view_all f (x ∷ xs) = Values.value (f x) (view_all f xs)

abbrev pub view_pointer : {A : Type 0} → (A → Value) → Option A → Value
view_pointer f none = Value.nil_pointer
view_pointer f (some x) = Value.pointer (f x)

-- What the encoder sees of a value of a type. No field of an `Element` has a tag.
unfoldable mutual
  pub view : (t : GoType) → El t → Value
  view bool b = Value.bool b
  view string s = Value.string s
  view bytes b = Value.bytes b
  view raw_element e = Value.struct Fields.end
  view other x = Value.other false
  view (int w) n = Value.int n
  view (uint w) n = Value.uint n
  view (slice t) xs = Value.slice (view_all (λ x. view t x) xs)
  view (pointer t) p = view_pointer (λ x. view t x) p
  view (struct ts) vs = Value.struct (view_fields ts vs)

  pub view_fields : (ts : FieldTypes) → Els ts → Fields
  view_fields end vs = Fields.end
  view_fields (field text exported t ts) (v, vs) = Fields.field text (view t v) (view_fields ts vs)
