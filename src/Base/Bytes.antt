-- ===== src/Base/Bytes.antt =====
-- Byte slices as lists of numbers, and `encoding/binary`'s little-endian integers on them.
use Prim.Native.Nat.{ℕ, zero, suc, ◌+◌, ◌-◌, ◌*◌, ◌/◌, ◌%◌, ◌^◌, ◌<◌, ◌≤◌}
use mathlib.Core.Path.{◌≡◌, refl, ap}
use mathlib.Core.List.{List, [], ◌∷◌, ◌++◌}
use mathlib.Core.Bool.{Bool, true, false, ◌&&◌}
use go_matter.Base.Tests.{◌==◌, ==_self}
use native.Mathlib.Omega.{arith}
use native.Mathlib.Nat.{pow-suc, zero-add, suc-add}
use go_matter.Base.Lists.{length, take, drop, All, length-take, length-drop, All-take, All-drop}

abbrev pub IsByte : ℕ → Type 0
IsByte b = b < 256

abbrev pub Bytes : Type 0
Bytes = List ℕ

-- `b[lo:hi]`, for lo ≤ hi ≤ len(b).
abbrev pub slice : ℕ → ℕ → Bytes → Bytes
slice lo hi b = take (hi - lo) (drop lo b)

-- `copy(b[off:], src)`, for a target that is long enough.
abbrev pub put_at : ℕ → Bytes → Bytes → Bytes
put_at off src [] = []
put_at zero [] (b ∷ bs) = b ∷ bs
put_at zero (x ∷ src) (b ∷ bs) = x ∷ put_at zero src bs
put_at (suc off) src (b ∷ bs) = b ∷ put_at off src bs

-- `PutUint16`, `PutUint32` and `PutUint64` at k = 2, 4, 8.
unfoldable pub put_le : ℕ → ℕ → Bytes
put_le zero v = []
put_le (suc k) v = v % 256 ∷ put_le k (v / 256)

-- `Uint16`, `Uint32` and `Uint64`, by the length of the slice.
unfoldable pub get_le : Bytes → ℕ
get_le [] = 0
get_le (b ∷ bs) = b + 256 * get_le bs

pub length-put_le : (k v : ℕ) → length (put_le k v) ≡ k
unfolding put_le
length-put_le zero v = refl
length-put_le (suc k) v = ap suc (length-put_le k (v / 256))

pub put_le-IsByte : (k v : ℕ) → All IsByte (put_le k v)
unfolding put_le
put_le-IsByte zero v = tt
put_le-IsByte (suc k) v = (omega arith, put_le-IsByte k (v / 256))

pub get_le-put_le : (k v : ℕ) → v < 256 ^ k → get_le (put_le k v) ≡ v
unfolding put_le get_le
get_le-put_le zero v h = omega arith
get_le-put_le (suc k) v h = omega (arith, get_le-put_le k (v / 256) (omega (arith, pow-suc 256 k)))

pub put_le-get_le : (bs : Bytes) → All IsByte bs → put_le (length bs) (get_le bs) ≡ bs
unfolding put_le get_le
put_le-get_le [] h = refl
put_le-get_le (b ∷ bs) (h, hs) =
    let low : (b + 256 * get_le bs) % 256 ≡ b = omega arith in
    let high : (b + 256 * get_le bs) / 256 ≡ get_le bs = omega arith in
    rw (low, high, put_le-get_le bs hs)

pub get_le-lt : (bs : Bytes) → All IsByte bs → get_le bs < 256 ^ length bs
unfolding get_le
get_le-lt [] h = omega arith
get_le-lt (b ∷ bs) (h, hs) = omega (arith, get_le-lt bs hs, pow-suc 256 (length bs))

pub length-slice : (off k : ℕ) (b : Bytes) → off + k ≤ length b → length (slice off (off + k) b) ≡ k
length-slice off k b h = omega (arith, length-take (off + k - off) (drop off b), length-drop off b)

-- Writing back what was read from a slice gives the slice.
pub put_le-slice :
    (off k : ℕ) (b : Bytes)
    → off + k ≤ length b
    → All IsByte b
    → put_le k (get_le (slice off (off + k) b)) ≡ slice off (off + k) b
put_le-slice off k b h hb = rw (length-slice off k b h) at (
    put_le-get_le (slice off (off + k) b)
      (All-take IsByte (off + k - off) (drop off b) (All-drop IsByte off b hb)))

pub get_le-slice-lt :
    (off k : ℕ) (b : Bytes)
    → off + k ≤ length b
    → All IsByte b
    → get_le (slice off (off + k) b) < 256 ^ k
get_le-slice-lt off k b h hb = rw (length-slice off k b h) at (
    get_le-lt (slice off (off + k) b)
      (All-take IsByte (off + k - off) (drop off b) (All-drop IsByte off b hb)))

take-nil : (k : ℕ) → [] ≡ take {A = ℕ} k []
take-nil zero = refl
take-nil (suc k) = refl

take-add : (off k : ℕ) (b : Bytes) → take (off + k) b ≡ take off b ++ take k (drop off b)
take-add zero k b = rw zero-add
take-add (suc off) k [] = rw suc-add (take-nil k)
take-add (suc off) k (x ∷ b) = rw (suc-add, take-add off k b)

-- A prefix grows by the slice behind it.
pub take-slice : (off k : ℕ) (b : Bytes) → take (off + k) b ≡ take off b ++ slice off (off + k) b
take-slice off k b = let width : off + k - off ≡ k = omega arith in rw width (take-add off k b)

-- Whether two byte slices hold the same bytes: `bytes.Equal`, `==` of strings, and
-- `subtle.ConstantTimeCompare`.
unfoldable pub equal : Bytes → Bytes → Bool
equal [] [] = true
equal (a ∷ as') (b ∷ bs) = a == b && equal as' bs
equal _ _ = false

pub equal_self : (a : Bytes) → equal a a ≡ true
unfolding equal
equal_self [] = refl
equal_self (x ∷ a) = rw (==_self x, equal_self a)
