-- ===== src/Message/Wire.antt =====
-- What the two headers of message/ share: the errors of the package, and the reading of a field
-- that the flags may leave out.
use Prim.Native.Nat.{zero, suc}
use go_matter.Base.{
  ℕ, ◌+◌, ◌^◌, ◌≤◌, ◌<◌, ◌≡◌, Bool, true, false, [], ◌∷◌, ◌++◌, ltb, if◌then◌else◌, length, get_or,
  take, All, Result, ok, err, arith,
}
use go_matter.Base.Bytes.{
  Bytes, IsByte, slice, put_le, get_le, put_le-slice, get_le-slice-lt, take-slice,
}
use native.Mathlib.Nat.{one-le-pow}
use mathlib.Core.List.{append-nil}

-- The errors of the package.
pub data Error : Type 0 where
  header_too_short : Error
  header_reserved_dsiz : Error
  header_unknown_version : ℕ → Error
  payload_header_too_short : Error

-- An optional field of `k` bytes at `off`: its value and the offset behind it. An absent field is
-- 0 and takes no bytes; `e` is the error of an input that ends inside the field.
abbrev pub optional_field : Error → Bool → ℕ → ℕ → Bytes → Result Error (ℕ × ℕ)
optional_field e false k off b = ok (0, off)
optional_field e true k off b =
    if ltb (length b) (off + k) then err e else ok (get_le (slice off (off + k) b), off + k)

pub get_or-IsByte : (b : Bytes) (i : ℕ) → All IsByte b → get_or b i 0 < 256
get_or-IsByte [] i h = omega arith
get_or-IsByte (x ∷ b) zero (h, hs) = h
get_or-IsByte (x ∷ b) (suc i) (h, hs) = get_or-IsByte b i hs

-- What an optional field leaves: it lies within the input, fits its width, and its bytes are
-- what is written for its value.
pub optional_field_inv :
    (e : Error) (p : Bool) (k off : ℕ) (b : Bytes) (v end : ℕ)
    → All IsByte b
    → off ≤ length b
    → optional_field e p k off b ≡ ok (v, end)
    → (off ≤ end)
      × (end ≤ length b)
      × (v < 256 ^ k)
      × (p ≡ false → v ≡ 0)
      × (take end b ≡ take off b ++ (if p then put_le k v else []))
optional_field_inv e false k off b v end hb ho h =
    ground (arith, one-le-pow k 256, append-nil (take off b))
optional_field_inv e true k off b v end hb ho h =
    ground (arith, put_le-slice off k b, get_le-slice-lt off k b, take-slice off k b)
