-- ===== src/Crypto/BigInt.antt =====
-- `math/big` as far as crypto/ uses it: a non-negative integer is a number, read from and written
-- to big-endian bytes.
use go_matter.Base.{
  ℕ, zero, suc, ◌+◌, ◌*◌, ◌/◌, ◌%◌, ◌^◌, ◌<◌, ◌≡◌, ap, ◌∙◌, refl, arith, [], ◌∷◌, ◌==◌,
  if◌then◌else◌, Bool-cases, inl, inr,
}
use native.Mathlib.Nat.{pow-suc}
use go_matter.Base.Bytes.{Bytes}

-- `Int.SetBytes`, for a number read so far.
unfoldable pub set_bytes_from : ℕ → Bytes → ℕ
set_bytes_from acc [] = acc
set_bytes_from acc (b ∷ bs) = set_bytes_from (acc * 256 + b) bs

abbrev pub set_bytes : Bytes → ℕ
set_bytes = set_bytes_from 0

-- `Int.Bytes`, in front of `tail`: no leading zeros. `k` bytes are enough for a number below
-- 256 ^ k.
unfoldable pub put_be : ℕ → ℕ → Bytes → Bytes
put_be zero n tail = tail
put_be (suc k) n tail =
    let more = put_be k (n / 256) (n % 256 ∷ tail) in if n == 0 then tail else more

-- The scalars of crypto/ are read from 40 bytes at most.
unfoldable pub to_bytes : ℕ → Bytes
unfolding put_be
to_bytes n = put_be 40 n []

set_bytes-put_be :
    (k n : ℕ) (tail : Bytes)
    → n < 256 ^ k
    → set_bytes_from 0 (put_be k n tail) ≡ set_bytes_from n tail
unfolding put_be set_bytes_from
set_bytes-put_be zero n tail h = ground arith
set_bytes-put_be (suc k) n tail h = elim (Bool-cases (n == 0)) [
  | inl z ↦ rw z (ground arith)
  | inr nz ↦
      let whole : n / 256 * 256 + n % 256 ≡ n = omega arith in
      rw nz (
        set_bytes-put_be k (n / 256) (n % 256 ∷ tail) (omega (arith, pow-suc 256 k))
        ∙ ap (λ (t : ℕ). set_bytes_from t tail) whole)
]

-- Writing a number of at most 40 bytes and reading it back gives the number.
pub set_bytes-to_bytes : (n : ℕ) → n < 256 ^ 40 → set_bytes (to_bytes n) ≡ n
unfolding to_bytes
set_bytes-to_bytes n h = set_bytes-put_be 40 n [] h ∙ (unfold set_bytes_from in refl)
