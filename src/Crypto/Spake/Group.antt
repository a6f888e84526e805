-- ===== src/Crypto/Spake/Group.antt =====
-- What spake2plus.go takes from other packages: P-256 of crypto/elliptic, SHA-256 and HMAC.
use go_matter.Base.{
  ℕ, ◌-◌, ◌%◌, ◌≡◌, Bool, true, length, if◌then◌else◌, Option, none, some, Result, ok, err,
}
use go_matter.Base.Bytes.{Bytes}
use go_matter.Crypto.Provider.{Hkdf}

-- Affine coordinates. The point at infinity is (0, 0), as in crypto/elliptic.
abbrev pub Point : Type 0
Point = ℕ × ℕ

-- `spakeNegateY` over the field of `p` elements.
abbrev pub negate_y : ℕ → Point → Point
negate_y p (x, y) = (x, (p - y % p) % p)

-- `elliptic.P256()` with its field size and group order, the points M and N that `init`
-- decompresses, and the laws of the group: multiples of the base point commute, and adding and
-- then subtracting a point of the group changes nothing. An encoded point of the curve decodes; the
-- encoding is uncompressed, 65 bytes.
pub record Curve : Type 0 where
  pub field_size : ℕ
  pub order : ℕ
  pub add : Point → Point → Point
  pub scalar_mult : Point → Bytes → Point
  pub scalar_base_mult : Bytes → Point
  pub is_on_curve : Point → Bool
  pub marshal : Point → Bytes
  pub unmarshal : Bytes → Option Point
  pub spake_m : Point
  pub spake_n : Point
  pub in_group : Point → Bool
  pub base_in_group : (k : Bytes) → in_group (scalar_base_mult k) ≡ true
  pub mult_in_group :
      (q : Point) (k : Bytes) → in_group q ≡ true → in_group (scalar_mult q k) ≡ true
  pub m_in_group : in_group spake_m ≡ true
  pub n_in_group : in_group spake_n ≡ true
  pub add-negate :
      (a b : Point)
      → in_group a ≡ true
      → in_group b ≡ true
      → add (add a b) (negate_y field_size b) ≡ a
  pub mult_comm :
      (j k : Bytes) → scalar_mult (scalar_base_mult j) k ≡ scalar_mult (scalar_base_mult k) j
  pub unmarshal-marshal : (q : Point) → is_on_curve q ≡ true → unmarshal (marshal q) ≡ some q
  pub marshal_length : (q : Point) → length (marshal q) ≡ 65

-- `sha256`, `hmac.New(sha256.New, key)` and HKDF. A digest has 32 bytes.
pub record Hashes : Type 0 where
  pub sha256 : Bytes → Bytes
  pub hmac : (key input : Bytes) → Bytes
  pub kdf : Hkdf
  pub sha256_length : (b : Bytes) → length (sha256 b) ≡ 32
  pub hmac_length : (key input : Bytes) → length (hmac key input) ≡ 32

pub data Error : Type 0 where
  invalid_point : Error
  confirmation_mismatch : Error
  not_finalized : Error
  already_finalized : Error
  random : Error
  hkdf_expand : Error
  empty_scalars : Error
  compute_pa_first : Error
  compute_pb_first : Error
  verifier_point : Error → Error
  iterations : Error
  empty_salt : Error

-- `unmarshalP256Point`
abbrev pub on_curve : Curve → Option Point → Result Error Point
on_curve curve none = err invalid_point
on_curve curve (some q) = if curve.is_on_curve q then ok q else err invalid_point

unfoldable pub unmarshal_p256_point : Curve → Bytes → Result Error Point
unmarshal_p256_point curve input = on_curve curve (curve.unmarshal input)

pub unmarshal_p256_point-marshal :
    (curve : Curve) (q : Point)
    → curve.is_on_curve q ≡ true
    → unmarshal_p256_point curve (curve.marshal q) ≡ ok q
unfolding unmarshal_p256_point
unmarshal_p256_point-marshal curve q h = rw (curve.unmarshal-marshal q h, h)
