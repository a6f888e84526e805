-- ===== src/Crypto/Spake/Init.antt =====
-- crypto/spake2plus.go: `init`, which decompresses M and N. `elliptic.UnmarshalCompressed` is a
-- parameter; none is one of the panics.
use go_matter.Base.{
  arith, ◌≡◌, true, [], ◌∷◌, length, if◌then◌else◌, Bool-cases, Option, none, some, ok, inl, inr,
}
use mathlib.Core.Option.{some-injective}
use go_matter.Base.Bytes.{Bytes}
use go_matter.Crypto.Spake.Group.{Curve, Point, unmarshal_p256_point, unmarshal_p256_point-marshal}

-- `hex.DecodeString` of the two constants.
abbrev pub m_bin : Bytes
m_bin =
    0x02 ∷ 0x88 ∷ 0x6e ∷ 0x2f ∷ 0x97 ∷ 0xac ∷ 0xe4 ∷ 0x6e ∷ 0x55 ∷ 0xba ∷ 0x9d ∷ 0xd7 ∷ 0x24 ∷ 0x25
    ∷ 0x79 ∷ 0xf2 ∷ 0x99 ∷ 0x3b ∷ 0x64 ∷ 0xe1 ∷ 0x6e ∷ 0xf3 ∷ 0xdc ∷ 0xab ∷ 0x95 ∷ 0xaf ∷ 0xd4
    ∷ 0x97 ∷ 0x33 ∷ 0x3d ∷ 0x8f ∷ 0xa1 ∷ 0x2f ∷ []

abbrev pub n_bin : Bytes
n_bin =
    0x03 ∷ 0xd8 ∷ 0xbb ∷ 0xd6 ∷ 0xc6 ∷ 0x39 ∷ 0xc6 ∷ 0x29 ∷ 0x37 ∷ 0xb0 ∷ 0x4d ∷ 0x99 ∷ 0x7f ∷ 0x38
    ∷ 0xc3 ∷ 0x77 ∷ 0x07 ∷ 0x19 ∷ 0xc6 ∷ 0x29 ∷ 0xd7 ∷ 0x01 ∷ 0x4d ∷ 0x49 ∷ 0xa2 ∷ 0x4b ∷ 0x4f
    ∷ 0x98 ∷ 0xba ∷ 0xa1 ∷ 0x29 ∷ 0x2b ∷ 0x49 ∷ []

-- What the package keeps of M and N, each with its uncompressed encoding.
pub record Generators : Type 0 where
  pub m : Point
  pub n : Point
  pub m_bytes : Bytes
  pub n_bytes : Bytes

-- A point that was decompressed, if it is one of the curve.
abbrev pub checked : Curve → Option Point → Option Point
checked curve none = none
checked curve (some q) = if curve.is_on_curve q then some q else none

abbrev pub generators : Curve → Option Point → Option Point → Option Generators
generators curve (some m) (some n) =
    some (record { m = m; n = n; m_bytes = curve.marshal m; n_bytes = curve.marshal n })
generators curve _ _ = none

-- `init`
unfoldable pub init : Curve → (unmarshal_compressed : Bytes → Option Point) → Option Generators
init curve unmarshal_compressed =
    generators curve (checked curve (unmarshal_compressed m_bin))
      (checked curve (unmarshal_compressed n_bin))

checked-on_curve :
    (curve : Curve) (o : Option Point) (q : Point)
    → checked curve o ≡ some q
    → curve.is_on_curve q ≡ true
checked-on_curve curve none q h = cc
checked-on_curve curve (some p) q h = elim (Bool-cases (curve.is_on_curve p)) [
  | inl on ↦ rw (← some-injective _ _ (rw on at h)) on
  | inr off ↦ ground arith
]

generators-parts :
    (curve : Curve) (o p : Option Point) (g : Generators)
    → generators curve o p ≡ some g
    → (o ≡ some g.m)
      × (p ≡ some g.n)
      × (g.m_bytes ≡ curve.marshal g.m)
      × (g.n_bytes ≡ curve.marshal g.n)
generators-parts curve (some m) (some n) g h = (cc, cc, cc, cc)
generators-parts curve (some m) none g h = ground arith
generators-parts curve none p g h = ground arith

-- The points that `init` keeps are on the curve, and their encodings, of 65 bytes each, are read
-- back to them.
pub init-readable :
    (curve : Curve) (unmarshal_compressed : Bytes → Option Point) (g : Generators)
    → init curve unmarshal_compressed ≡ some g
    → (unmarshal_p256_point curve g.m_bytes ≡ ok g.m)
      × (unmarshal_p256_point curve g.n_bytes ≡ ok g.n)
      × (length g.m_bytes ≡ 65)
      × (length g.n_bytes ≡ 65)
unfolding init
init-readable curve unmarshal_compressed g h =
    let (m, n, mb, nb) = generators-parts curve _ _ g h in
    let on_m = checked-on_curve curve _ g.m m in
    let on_n = checked-on_curve curve _ g.n n in
    (
      rw mb (unmarshal_p256_point-marshal curve g.m on_m),
      rw nb (unmarshal_p256_point-marshal curve g.n on_n),
      rw mb (curve.marshal_length g.m),
      rw nb (curve.marshal_length g.n),
    )
