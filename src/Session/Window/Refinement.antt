-- ===== src/Session/Window/Refinement.antt =====
-- The window refines the log of accepted counters.
use go_matter.Base.{
  ℕ, ◌+◌, ◌-◌, ◌*◌, ◌%◌, ◌^◌, ◌≤◌, ◌<◌, ◌≡◌, ◌≢◌, List, [], ◌∷◌, if◌then◌else◌, bit_or, arith, refl,
  sym, suc, ◌⊎◌, inl, inr, ok, is_ok,
}
use go_matter.Base.Bits.{
  bit, bit-zero, bit-le-one, bit-bit_or, bit-shift, bit-mod, bit-two-pow, bit_and-two-pow,
  two-pow_pos,
}
use mathlib.Core.Path.{subst}
use native.Mathlib.Nat.{pow-le-pow_right, pow-suc}
use go_matter.Session.Window.{ReplayWindow, check, accept, empty_window, advance}
use go_matter.Session.Window.Log.{
  contains, highest, is_fresh, contains-le-highest, contains-highest,
}

-- The window tells the truth about the log: its maximum is the highest accepted counter, and the
-- bit of each of the 32 counters below is set exactly if that counter was accepted.
pub record Represents (w : ReplayWindow) (log : List ℕ) : Type 0 where
  pub maximum : w.max ≡ highest log
  pub unused : w.max ≡ 0 → w.bitmap ≡ 0
  pub bits :
      (c : ℕ)
      → c < w.max
      → 0 < c
      → w.max ≤ c + 32
      → bit w.bitmap (w.max - c - 1) ≡ (if contains log c then 1 else 0)

pub empty_window-Represents : Represents empty_window []
unfolding highest
empty_window-Represents = record {
  maximum = refl;
  unused = λ h. refl;
  bits = λ c h p q. absurd (omega arith);
}

pub small_power : (k : ℕ) → k < 32 → 2 ^ k < 2 ^ 32
small_power k h = omega (
  arith,
  pow-le-pow_right {n = 2} (omega arith) {i = suc k} {j = 32} h,
  pow-suc 2 k,
  two-pow_pos k,
)

-- A window that represents a log accepts a nonzero counter exactly if it was not accepted before and lies at most 32
-- below the highest accepted counter.
pub check-is_fresh :
    (w : ReplayWindow) (log : List ℕ) (c : ℕ)
    → Represents w log
    → 0 < c
    → is_ok (check w c) ≡ is_fresh log c
unfolding check is_fresh
check-is_fresh w log c r pos =
    let k = w.max - c - 1 in
    ground (
      arith,
      r.bits c,
      bit_and-two-pow w.bitmap k,
      small_power k,
      contains-le-highest log c,
      contains-highest log,
      two-pow_pos k,
      bit-le-one w.bitmap k,
    )

-- The three ways in which a counter is accepted.
abbrev Accepted : ReplayWindow → ℕ → ReplayWindow → Type 0
Accepted w c v =
    (w.max ≡ 0) × (v ≡ record w { max = c })
    ⊎ (0 < w.max) × (w.max < c) × (v ≡ advance c (c - w.max) w)
    ⊎ (c < w.max)
      × (w.max ≤ c + 32)
      × (v ≡ record w { bitmap = bit_or w.bitmap (2 ^ (w.max - c - 1) % 2 ^ 32) })

accept_inv : (w : ReplayWindow) (c : ℕ) (v : ReplayWindow) → accept w c ≡ ok v → Accepted w c v
unfolding accept
accept_inv w c v e = ground arith

module _ (w : ReplayWindow) (log : List ℕ) (c : ℕ) (r : Represents w log) (pos : 0 < c) where
  commit_first : w.max ≡ 0 → Represents (record w { max = c }) (c ∷ log)
  unfolding highest contains
  commit_first h = record {
    maximum = ground arith;
    unused = λ z. absurd (omega arith);
    bits = λ d below some_d near. ground (arith, bit-zero (c - d - 1), contains-le-highest log d);
  }

  commit_advance :
      w.max < c → 0 < w.max → c ≢ w.max + 32 → Represents (advance c (c - w.max) w) (c ∷ log)
  unfolding highest contains
  commit_advance h used edge = record {
    maximum = ground arith;
    unused = λ z. absurd (omega arith);
    bits = λ d below some_d near.
        let i = c - d - 1 in
        let s = c - w.max in
        ground (
          arith,
          bit-zero i,
          contains-le-highest log d,
          contains-highest log,
          bit-bit_or (w.bitmap * 2 ^ s % 2 ^ 32) (2 ^ (s - 1) % 2 ^ 32) i,
          bit-mod (w.bitmap * 2 ^ s) 32 i,
          bit-mod (2 ^ (s - 1)) 32 i,
          bit-shift w.bitmap s i,
          bit-two-pow (s - 1) i,
          r.bits d,
          bit-le-one w.bitmap (i - s),
        );
  }

  commit_inside :
      c < w.max
      → w.max ≤ c + 32
      → Represents (record w { bitmap = bit_or w.bitmap (2 ^ (w.max - c - 1) % 2 ^ 32) }) (c ∷ log)
  unfolding highest contains
  commit_inside h near = record {
    maximum = ground arith;
    unused = λ z. absurd (omega arith);
    bits = λ d below some_d near_d.
        let i = w.max - d - 1 in
        let k = w.max - c - 1 in
        ground (
          arith,
          bit-bit_or w.bitmap (2 ^ k % 2 ^ 32) i,
          bit-mod (2 ^ k) 32 i,
          bit-two-pow k i,
          r.bits d,
          bit-le-one w.bitmap i,
        );
  }

  -- Where a window represents a log, accepting a nonzero counter that does not lie exactly 32
  -- above a nonzero maximum records it: the new window represents the log with the counter added.
  pub accept-Represents :
      (v : ReplayWindow)
      → (w.max ≡ 0) ⊎ (c ≢ w.max + 32)
      → accept w c ≡ ok v
      → Represents v (c ∷ log)
  accept-Represents v edge e = elim (accept_inv w c v e) [
    | inl (z, same) ↦ subst (λ u. Represents u (c ∷ log)) (sym same) (commit_first z)
    | inr (inl (used, above, same)) ↦
        subst (λ u. Represents u (c ∷ log)) (sym same)
          (commit_advance above used (ground (arith, edge)))
    | inr (inr (below, near, same)) ↦
        subst (λ u. Represents u (c ∷ log)) (sym same) (commit_inside below near)
  ]
