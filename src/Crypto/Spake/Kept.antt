-- ===== src/Crypto/Spake/Kept.antt =====
-- Prover and verifier over their lifetime: negotiated keys stay.
use go_matter.Base.{◌≡◌, refl, ap, ◌∙◌, arith, true, Option, none, some, ok, Result-cases, inl, inr}
use go_matter.Base.Bytes.{Bytes}
use go_matter.Crypto.Spake.Group.{Curve, Hashes, Point, unmarshal_p256_point}
use go_matter.Crypto.Spake.Prover
use go_matter.Crypto.Spake.Prover.{Prover}
use go_matter.Crypto.Spake.Verifier
use go_matter.Crypto.Spake.Verifier.{Verifier}

-- The provers that calls of `ComputePA` and `Finalize` reach, in any order and with any input and
-- outcome.
pub data ProverCalls (curve : Curve) (hashes : Hashes) (p : Prover) : Prover → Type 0 where
  none_yet : ProverCalls curve hashes p p
  computed :
      (q : Prover) (rand : Option Bytes) (r : Prover) (pa : Bytes)
      → ProverCalls curve hashes p q
      → Prover.compute_pa curve hashes q rand ≡ ok (r, pa)
      → ProverCalls curve hashes p r
  finalized :
      (q : Prover) (pb : Bytes)
      → ProverCalls curve hashes p q
      → ProverCalls curve hashes p (Prover.finalize curve hashes q pb).0

-- The same for calls of `ComputePB` and `Finalize`.
pub data VerifierCalls (curve : Curve) (hashes : Hashes) (v : Verifier) : Verifier → Type 0 where
  none_yet : VerifierCalls curve hashes v v
  computed :
      (q : Verifier) (pa : Bytes) (rand : Option Bytes)
      → VerifierCalls curve hashes v q
      → VerifierCalls curve hashes v (Verifier.compute_pb curve hashes q pa rand).0
  finalized :
      (q r : Verifier)
      → VerifierCalls curve hashes v q
      → Verifier.finalize curve hashes q ≡ ok r
      → VerifierCalls curve hashes v r

module _ (curve : Curve) (hashes : Hashes) where
  compute_pa-keys :
      (q r : Prover) (rand : Option Bytes) (pa : Bytes)
      → Prover.compute_pa curve hashes q rand ≡ ok (r, pa)
      → (r.finalized ≡ q.finalized) × (r.keys ≡ q.keys)
  unfolding Prover.compute_pa
  compute_pa-keys q r none pa e = ground arith
  compute_pa-keys q r (some buf) pa e = ground arith

  -- Once a prover is finalized, no sequence of calls changes its keys, whatever it is given: the
  -- shared key and the two confirmations stay what they were.
  pub prover_keys-kept :
      (p q : Prover)
      → ProverCalls curve hashes p q
      → p.finalized ≡ true
      → (q.finalized ≡ true) × (q.keys ≡ p.keys)
  unfolding Prover.finalize
  prover_keys-kept p _ none_yet h = (h, refl)
  prover_keys-kept p r (computed q rand _ pa before e) h =
      let (done, keys) = prover_keys-kept p q before h in
      let (done', keys') = compute_pa-keys q r rand pa e in (done' ∙ done, keys' ∙ keys)
  prover_keys-kept p _ (finalized q pb before) h =
      let (done, keys) = prover_keys-kept p q before h in
      let stays : (Prover.finalize curve hashes q pb).0 ≡ q = rw done in
      (ap (λ (t : Prover). t.finalized) stays ∙ done, ap (λ (t : Prover). t.keys) stays ∙ keys)

  compute_pb-keys :
      (q : Verifier) (pa : Bytes) (rand : Option Bytes)
      → let r = (Verifier.compute_pb curve hashes q pa rand).0 in
        (r.finalized ≡ q.finalized) × (r.keys ≡ q.keys)
  unfolding Verifier.compute_pb
  compute_pb-keys q pa rand = elim (Result-cases (unmarshal_p256_point curve pa)) [
    | inr (x, bad) ↦ rw bad (refl, refl)
    | inl (d, good) ↦ rw good (shared q d pa rand)
  ]
    where
      shared :
          (q : Verifier) (d : Point) (pa : Bytes) (rand : Option Bytes)
          → let r = (Verifier.accept_pa curve hashes q pa rand (ok d)).0 in
            (r.finalized ≡ q.finalized) × (r.keys ≡ q.keys)
      shared q d pa none = (refl, refl)
      shared q d pa (some buf) = (refl, refl)

  -- Once a verifier is finalized, no sequence of calls changes its keys, whatever it is given,
  -- though `ComputePB` still draws a new share.
  pub verifier_keys-kept :
      (v q : Verifier)
      → VerifierCalls curve hashes v q
      → v.finalized ≡ true
      → (q.finalized ≡ true) × (q.keys ≡ v.keys)
  unfolding Verifier.finalize
  verifier_keys-kept v _ none_yet h = (h, refl)
  verifier_keys-kept v _ (computed q pa rand before) h =
      let (done, keys) = verifier_keys-kept v q before h in
      let (done', keys') = compute_pb-keys q pa rand in (done' ∙ done, keys' ∙ keys)
  verifier_keys-kept v _ (finalized q r before e) h =
      let (done, keys) = verifier_keys-kept v q before h in ground arith
