-- ===== src/Crypto/Spake/Confirmed.antt =====
-- What an accepted confirmation says about the two sides.
use go_matter.Base.{◌≡◌, ◌≢◌, ◌⊎◌, Option, ok}
use go_matter.Base.Bytes.{Bytes}
use go_matter.Crypto.Spake.Group.{Curve, Hashes}
use go_matter.Crypto.Spake.Transcript.{Keys}
use go_matter.Crypto.Spake.Binding.{Inputs, transcript, derive}
use go_matter.Crypto.Spake.Prover
use go_matter.Crypto.Spake.Prover.{Prover}
use go_matter.Crypto.Spake.Verifier
use go_matter.Crypto.Spake.Verifier.{Verifier}

-- The verifier accepts the confirmation that the prover gives, or the prover the verifier's.
abbrev pub Accepts : Prover → Verifier → Type 0
Accepts p w =
    ((ca : Bytes) × (Prover.confirmation_a p ≡ ok ca)
      × (Verifier.verify_confirmation_a w ca ≡ ok tt))
    ⊎ ((cb : Bytes) × (Verifier.confirmation_b w ≡ ok cb)
        × (Prover.verify_confirmation_b p cb ≡ ok tt))

module _ (curve : Curve) (hashes : Hashes) where
  -- Two inputs on which the key schedule collides: contexts with one digest, or transcripts with one
  -- confirmation of the prover or of the verifier.
  pub data Collision : Type 0 where
    digests : (c c' : Bytes) → c ≢ c' → hashes.sha256 c ≡ hashes.sha256 c' → Collision
    confirmations :
        (i j : Inputs) (k l : Keys)
        → derive curve hashes i ≡ ok k
        → derive curve hashes j ≡ ok l
        → transcript curve hashes i ≢ transcript curve hashes j
        → (k.ca ≡ l.ca) ⊎ (k.cb ≡ l.cb)
        → Collision
