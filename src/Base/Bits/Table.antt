-- ===== src/Base/Bits/Table.antt =====
-- Two functions on bytes that agree on every byte, checked by evaluation.
use Prim.Native.Nat.{ℕ, zero, suc, ◌<◌}
use mathlib.Core.Path.{◌≡◌}
use mathlib.Core.Bool.{Bool, true, ◌&&◌}
use native.Mathlib.Omega.{arith}
use go_matter.Base.Tests.{◌==◌}

module _ (f g : ℕ → ℕ) where
  unfoldable pub agree_below : ℕ → Bool
  agree_below zero = true
  agree_below (suc n) = f n == g n && agree_below n

  agree_below→eq : (n : ℕ) → agree_below n ≡ true → (x : ℕ) → x < n → f x ≡ g x
  unfolding agree_below
  agree_below→eq zero e x h = absurd (omega arith)
  agree_below→eq (suc n) e x h = ground (arith, agree_below→eq n (ground arith) x)

  pub on_bytes : agree_below 256 ≡ true → (x : ℕ) → x < 256 → f x ≡ g x
  on_bytes e x h = agree_below→eq 256 e x h
