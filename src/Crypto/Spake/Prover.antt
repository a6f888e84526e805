-- ===== src/Crypto/Spake/Prover.antt =====
-- crypto/spake2plus.go: `SPAKE2PProver`, the side that knows the passcode. `compute_pa` takes what
-- the random source gives, 32 bytes or an error; `finalize` keeps what it stored before an error.
use go_matter.Base.{
  ℕ, ◌==◌, ◌||◌, not, Bool, true, false, [], length, if◌then◌else◌, Option, none, some, Result, ok,
  err, ◌>>=◌, ◌>>◌, refuse,
}
use go_matter.Base.Bytes.{Bytes, equal}
use go_matter.Crypto.BigInt.{set_bytes, to_bytes}
use go_matter.Crypto.Spake.Group.{
  Curve, Hashes, Error, Point, negate_y, unmarshal_p256_point, random, empty_scalars, not_finalized,
  already_finalized, compute_pa_first, confirmation_mismatch,
}
use go_matter.Crypto.Spake.Transcript.{Keys, spake_finalize}

pub record Prover : Type 0 where
  pub w0 : Bytes
  pub w1 : Bytes
  pub context : Bytes
  pub x : Option ℕ
  pub pa : Bytes
  pub pb : Bytes
  pub keys : Keys
  pub finalized : Bool

abbrev pub no_keys : Keys
no_keys = record { ke = []; ca = []; cb = [] }

-- `spakeRandomScalar`
abbrev pub random_scalar : Option Bytes → Result Error ℕ
random_scalar none = err random
random_scalar (some buf) = ok (set_bytes buf)

-- `NewSPAKE2PProver`
unfoldable pub new_prover : (w0 w1 context : Bytes) → Result Error Prover
new_prover w0 w1 context = do
  refuse (length w0 == 0 || length w1 == 0) empty_scalars
  ok (record {
    w0 = w0;
    w1 = w1;
    context = context;
    x = none;
    pa = [];
    pb = [];
    keys = no_keys;
    finalized = false;
  })

module _ (curve : Curve) (hashes : Hashes) where
  -- pA = x·G + w0·M
  unfoldable pub share_pa : Bytes → ℕ → Point
  share_pa w0 x =
      curve.add (curve.scalar_base_mult (to_bytes x)) (curve.scalar_mult curve.spake_m w0)

  -- `SPAKE2PProver.ComputePA`: the prover afterwards, and pA.
  unfoldable pub compute_pa : Prover → Option Bytes → Result Error (Prover × Bytes)
  compute_pa p rand = do
    x ← random_scalar rand
    let pa = curve.marshal (share_pa p.w0 x)
    ok (record p { x = some x; pa = pa }, pa)

  -- D = pB − w0·N
  unfoldable pub unblind_pb : Bytes → Point → Point
  unblind_pb w0 pb = curve.add pb (negate_y curve.field_size (curve.scalar_mult curve.spake_n w0))

  abbrev pub derived : Prover → Result Error Keys → Prover × Result Error (Unit {0})
  derived p (ok keys) = (record p { keys = keys; finalized = true }, ok tt)
  derived p (err e) = (p, err e)

  -- The key derivation, once x is there and pB is a point: Z = x·D and V = w1·D.
  abbrev pub derive_with :
      Prover → ℕ → Bytes → Result Error Point → Prover × Result Error (Unit {0})
  derive_with p x pb (err e) = (p, err e)
  derive_with p x pb (ok point) =
      let d = unblind_pb p.w0 point in
      let z = curve.marshal (curve.scalar_mult d (to_bytes x)) in
      let v = curve.marshal (curve.scalar_mult d p.w1) in
      derived (record p { pb = pb }) (spake_finalize curve hashes p.context p.pa pb z v p.w0)

  abbrev pub finalize_with : Prover → Option ℕ → Bytes → Prover × Result Error (Unit {0})
  finalize_with p none pb = (p, err compute_pa_first)
  finalize_with p (some x) pb = derive_with p x pb (unmarshal_p256_point curve pb)

  -- `SPAKE2PProver.Finalize`: the prover afterwards, and the error.
  unfoldable pub finalize : Prover → Bytes → Prover × Result Error (Unit {0})
  finalize p pb = if p.finalized then (p, err already_finalized) else finalize_with p p.x pb

-- `SPAKE2PProver.ConfirmationA`
unfoldable pub confirmation_a : Prover → Result Error Bytes
confirmation_a p = do refuse (not p.finalized) not_finalized; ok p.keys.ca

-- `SPAKE2PProver.VerifyConfirmationB`
unfoldable pub verify_confirmation_b : Prover → Bytes → Result Error (Unit {0})
verify_confirmation_b p cb = do
  refuse (not p.finalized) not_finalized
  refuse (not (equal p.keys.cb cb)) confirmation_mismatch

-- `SPAKE2PProver.SharedKey`
unfoldable pub shared_key : Prover → Result Error Bytes
shared_key p = do refuse (not p.finalized) not_finalized; ok p.keys.ke
