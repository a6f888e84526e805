-- ===== src/Crypto/Spake/Passcode.antt =====
-- From a passcode to a shared key: the scalars of the controller fit what the device has stored.
use go_matter.Base.{ℕ, ◌≡◌, ◌<◌, true, length, ok}
use go_matter.Base.Bytes.{Bytes}
use go_matter.Base.Int.{ℤ}
use go_matter.Crypto.BigInt.{set_bytes}
use go_matter.Crypto.Pbkdf.{Pbkdf2, spake2p_w0_w1_from_passcode, compute_spake2p_verifier_data}
use go_matter.Crypto.Spake.Group.{Curve, Hashes}
use go_matter.Crypto.Spake.Prover
use go_matter.Crypto.Spake.Prover.{Prover, share_pa}
use go_matter.Crypto.Spake.Verifier
use go_matter.Crypto.Spake.Verifier.{Verifier, share_pb}
use go_matter.Crypto.Spake.Agreement.{exchange, exchange_agrees}

-- A device that stored the verifier data of a passcode, and a controller that knows the passcode,
-- the salt and the number of rounds, complete the exchange with the same shared key, if neither
-- scalar of the passcode is 0 and the two shares and L are points of the curve.
pub passcode_agrees :
    (derive : Pbkdf2) (curve : Curve) (hashes : Hashes) (passcode : ℕ) (salt : Bytes) (rounds : ℤ)
    (w0 w1 context ra rb : Bytes)
    → spake2p_w0_w1_from_passcode derive curve passcode salt rounds ≡ ok (w0, w1)
    → 0 < length w0
    → 0 < length w1
    → curve.is_on_curve (curve.scalar_base_mult w1) ≡ true
    → curve.is_on_curve (share_pa curve hashes w0 (set_bytes ra)) ≡ true
    → curve.is_on_curve (share_pb curve hashes w0 (set_bytes rb)) ≡ true
    → (l : Bytes) × (p : Prover) × (v : Verifier) × (ke : Bytes) × (compute_spake2p_verifier_data
          derive curve passcode salt rounds
        ≡ ok (w0, l))
      × (exchange curve hashes w0 w1 l context ra rb ≡ ok (p, v))
      × (Prover.shared_key p ≡ ok ke)
      × (Verifier.shared_key v ≡ ok ke)
unfolding compute_spake2p_verifier_data
passcode_agrees derive curve hashes passcode salt rounds w0 w1 context ra rb scalars h0 h1 on_l on_a
      on_b =
    let (p, v, ke, run, kp, kv) =
      exchange_agrees curve hashes w0 w1 context ra rb h0 h1 on_l on_a on_b in
    (curve.marshal (curve.scalar_base_mult w1), p, v, ke, rw scalars, run, kp, kv)
