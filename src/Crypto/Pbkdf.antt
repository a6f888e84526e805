-- ===== src/Crypto/Pbkdf.antt =====
-- crypto/pbkdf.go: the scalars w0 and w1 of a passcode, and what a device keeps of them. PBKDF2 is
-- golang.org/x/crypto's, a parameter: `derive password salt iterations` gives 80 bytes.
use go_matter.Base.{ℕ, ◌%◌, ◌==◌, length, take, drop, Result, ok, err, ◌>>=◌, ◌>>◌, refuse}
use go_matter.Base.Bytes.{Bytes, put_le}
use go_matter.Base.Int.{ℤ, pos, negsuc}
use go_matter.Crypto.BigInt.{set_bytes, to_bytes}
use go_matter.Crypto.Spake.Group.{Curve, Error, iterations, empty_salt}

abbrev pub Pbkdf2 : Type 0
Pbkdf2 = (password salt : Bytes) (rounds : ℕ) → Bytes

-- `Spake2pW0W1FromPasscode`
unfoldable pub spake2p_w0_w1_from_passcode :
    Pbkdf2 → Curve → ℕ → Bytes → ℤ → Result Error (Bytes × Bytes)
spake2p_w0_w1_from_passcode derive curve passcode salt (negsuc n) = err iterations
spake2p_w0_w1_from_passcode derive curve passcode salt (pos n) = do
  refuse (n == 0) iterations
  refuse (length salt == 0) empty_salt
  let ws = derive (put_le 4 passcode) salt n
  let w0 = set_bytes (take 40 ws) % curve.order
  let w1 = set_bytes (drop 40 ws) % curve.order
  ok (to_bytes w0, to_bytes w1)

-- `ComputeSPAKE2PVerifierData`: w0, and L = w1·G.
unfoldable pub compute_spake2p_verifier_data :
    Pbkdf2 → Curve → ℕ → Bytes → ℤ → Result Error (Bytes × Bytes)
compute_spake2p_verifier_data derive curve passcode salt rounds = do
  (w0, w1) ← spake2p_w0_w1_from_passcode derive curve passcode salt rounds
  ok (w0, curve.marshal (curve.scalar_base_mult w1))
