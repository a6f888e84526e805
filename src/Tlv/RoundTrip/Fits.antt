-- ===== src/Tlv/RoundTrip/Fits.antt =====
-- The Go values that the encoding carries.
use go_matter.Base.{
  ℕ, ◌^◌, ◌<◌, ◌≡◌, ◌≢◌, refl, arith, Bool, true, false, List, [], ◌∷◌, length, All, none, some, ok,
}
use go_matter.Base.Bytes.{Bytes, equal}
use go_matter.Base.Int.{pos, negsuc}
use go_matter.Tlv.StructTags.{dash}
use go_matter.Tlv.Writer.{fits_int}
use go_matter.Tlv.Encoder.{is_empty_value, is_skipped, field_id}
use go_matter.Tlv.Decoder.{
  GoType, FieldTypes, El, Els, view, zero_value, is_ignored, wanted_id, overflows_int,
}

-- A field's tag means the same id to the encoder and to the decoder, and neither skips the field
-- for its tag.
pub record IsFieldTag (text : Bytes) (exported : Bool) (id : ℕ) : Type 0 where
  pub writes : field_id text ≡ ok id
  pub wants : wanted_id text ≡ ok (pos id)
  pub byte : id < 256
  pub read_back : is_ignored text exported ≡ false
  pub not_empty : equal text [] ≡ false
  pub not_dash : equal text dash ≡ false

-- A value in the range of its type, short enough, with different ids for the fields of a struct.
-- A nil pointer fits only where it is left out.
abbrev mutual
  pub Fits : (t : GoType) → El t → Type 0
  Fits GoType.bool b = Unit {0}
  Fits GoType.string s = length s < 2 ^ 31
  Fits GoType.bytes b = length b < 2 ^ 31
  Fits GoType.raw_element e = ⊥
  Fits GoType.other x = ⊥
  Fits (GoType.int w) n = (overflows_int w n ≡ false) × (fits_int 63 n ≡ true)
  Fits (GoType.uint w) n = (n < 2 ^ w) × (n < 2 ^ 64)
  Fits (GoType.slice t) xs = All (λ x. Fits t x) xs
  Fits (GoType.pointer t) none = ⊥
  Fits (GoType.pointer t) (some v) = Fits t v
  Fits (GoType.struct ts) vs = (ids : List ℕ) × FitsFields ts ids vs

  pub FitsFields : (ts : FieldTypes) → List ℕ → Els ts → Type 0
  FitsFields FieldTypes.end ids vs = ids ≡ []
  FitsFields (FieldTypes.field text exported t ts) [] vs = ⊥
  FitsFields (FieldTypes.field text exported t ts) (id ∷ ids) (v, vs) =
      IsFieldTag text exported id
      × All (λ j. j ≢ id) ids
      × (is_skipped text (view t v) ≡ false → Fits t v)
      × FitsFields ts ids vs

-- Only the zero value is empty.
empty_lem : (t : GoType) (v : El t) → is_empty_value (view t v) ≡ true → v ≡ zero_value t
unfolding is_empty_value view zero_value
empty_lem GoType.bool true h = cc
empty_lem GoType.bool false h = refl
empty_lem GoType.string [] h = refl
empty_lem GoType.string (x ∷ s) h = ground arith
empty_lem GoType.bytes [] h = refl
empty_lem GoType.bytes (x ∷ s) h = ground arith
empty_lem GoType.raw_element e h = cc
empty_lem GoType.other x h = cc
empty_lem (GoType.int w) (pos n) h = ground arith
empty_lem (GoType.int w) (negsuc n) h = cc
empty_lem (GoType.uint w) n h = ground arith
empty_lem (GoType.slice t) [] h = refl
empty_lem (GoType.slice t) (x ∷ xs) h = cc
empty_lem (GoType.pointer t) none h = refl
empty_lem (GoType.pointer t) (some v) h = cc
empty_lem (GoType.struct ts) vs h = cc

-- A field that is left out holds the zero value.
pub skipped-zero :
    (t : GoType) (v : El t) (text : Bytes) (exported : Bool) (id : ℕ)
    → IsFieldTag text exported id
    → is_skipped text (view t v) ≡ true
    → v ≡ zero_value t
unfolding is_skipped
skipped-zero t v text exported id tag h =
    empty_lem t v (ground (arith, tag.not_empty, tag.not_dash))
