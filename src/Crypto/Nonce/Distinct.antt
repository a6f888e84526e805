-- ===== src/Crypto/Nonce/Distinct.antt =====
-- No nonce is used twice.
use go_matter.Base.{
  ℕ, zero, suc, ◌+◌, ◌^◌, ◌≤◌, ◌<◌, ◌≡◌, ◌≢◌, refl, arith, List, [], ◌∷◌, ◌++◌, length, All, ◌⊎◌,
  inl, inr, ok, err,
}
use go_matter.Base.Bytes.{Bytes, put_le, get_le-put_le}
use go_matter.Crypto.Nonce.{build_nonce, NonceGenerator, next_nonce, counter_exhausted}

nonce_layout : (f c s : ℕ) → build_nonce f c s ≡ f ∷ (put_le 4 c ++ put_le 8 s)
unfolding build_nonce put_le
nonce_layout f c s = refl

pub length-build_nonce : (f c s : ℕ) → length (build_nonce f c s) ≡ 13
unfolding build_nonce put_le
length-build_nonce f c s = refl

-- Two nonces are equal only if they are built of the same flags, counter and node.
pub build_nonce-injective :
    (f c s f' c' s' : ℕ)
    → c < 2 ^ 32
    → s < 2 ^ 64
    → c' < 2 ^ 32
    → s' < 2 ^ 64
    → build_nonce f c s ≡ build_nonce f' c' s'
    → (f ≡ f') × (c ≡ c') × (s ≡ s')
unfolding build_nonce put_le
build_nonce-injective f c s f' c' s' hc hs hc' hs' e =
    ground (arith, get_le-put_le 4 c, get_le-put_le 8 s, get_le-put_le 4 c', get_le-put_le 8 s')

-- The nonces of `k` calls of `NextNonce`, up to the first refusal.
unfoldable pub nonces : ℕ → NonceGenerator → List Bytes
nonces zero ng = []
nonces (suc k) ng = elim (next_nonce ng) [ ok (ng', n) ↦ n ∷ nonces k ng' | err e ↦ [] ]

abbrev pub Distinct : List Bytes → Type 0
Distinct [] = Unit {0}
Distinct (n ∷ ns) = All (λ m. n ≢ m) ns × Distinct ns

abbrev stepped : NonceGenerator → NonceGenerator
stepped ng = record ng { counter = ng.counter + 1 }

-- A call of `NextNonce` is refused at the highest counter, and else takes the next one.
next_nonce_cases :
    (ng : NonceGenerator)
    → ng.counter < 2 ^ 32
    → (next_nonce ng ≡ err counter_exhausted)
      ⊎ (ng.counter + 1 < 2 ^ 32)
        × (next_nonce ng
            ≡ ok (stepped ng, build_nonce ng.security_flags (ng.counter + 1) ng.source_node_id))
unfolding next_nonce
next_nonce_cases ng h = ground arith

-- All later nonces differ from one built with a counter that was already passed.
nonces-ne :
    (k : ℕ) (ng : NonceGenerator) (c : ℕ)
    → c ≤ ng.counter
    → ng.counter < 2 ^ 32
    → ng.source_node_id < 2 ^ 64
    → All (λ m. build_nonce ng.security_flags c ng.source_node_id ≢ m) (nonces k ng)
unfolding nonces
nonces-ne zero ng c h hc hs = tt
nonces-ne (suc k) ng c h hc hs = elim (next_nonce_cases ng hc) [
  | inl e ↦ rw (e, nonces) tt
  | inr (more, e) ↦
      rw (e, nonces)
        (
          λ same.
              let f = ng.security_flags in
              let s = ng.source_node_id in
              omega (
                arith,
                (build_nonce-injective f c s f (ng.counter + 1) s (omega arith) hs more hs same).1,
              ),
          nonces-ne k (stepped ng) c (omega arith) more hs,
        )
]

-- However often a generator is called, its nonces are pairwise different, if its counter and its
-- node lie in the range of their Go types.
pub nonces-Distinct :
    (k : ℕ) (ng : NonceGenerator)
    → ng.counter < 2 ^ 32
    → ng.source_node_id < 2 ^ 64
    → Distinct (nonces k ng)
unfolding nonces
nonces-Distinct zero ng hc hs = tt
nonces-Distinct (suc k) ng hc hs = elim (next_nonce_cases ng hc) [
  | inl e ↦ rw (e, nonces) tt
  | inr (more, e) ↦
      rw (e, nonces)
        (
          nonces-ne k (stepped ng) (ng.counter + 1) (omega arith) more hs,
          nonces-Distinct k (stepped ng) more hs,
        )
]
