-- ===== src/Crypto/Spake/Verifier.antt =====
-- crypto/spake2plus.go: `SPAKE2PVerifier`, the side that holds (w0, L). As for the prover,
-- `compute_pb` takes what the random source gives, and keeps what it stored before an error.
use go_matter.Base.{
  ℕ, ◌==◌, not, Bool, true, false, [], length, Option, none, some, Result, ok, err, ◌>>=◌, ◌>>◌,
  refuse, wrap,
}
use go_matter.Base.Bytes.{Bytes, equal}
use go_matter.Crypto.BigInt.{to_bytes}
use go_matter.Crypto.Spake.Group.{
  Curve, Hashes, Error, Point, negate_y, unmarshal_p256_point, empty_scalars, not_finalized,
  already_finalized, compute_pb_first, confirmation_mismatch, verifier_point,
}
use go_matter.Crypto.Spake.Transcript.{Keys, spake_finalize}
use go_matter.Crypto.Spake.Prover.{no_keys, random_scalar}

pub record Verifier : Type 0 where
  pub w0 : Bytes
  pub l_bytes : Bytes
  pub l : Point
  pub context : Bytes
  pub y : Option ℕ
  pub pa : Bytes
  pub pb : Bytes
  pub zv : Option Bytes
  pub vv : Option Bytes
  pub keys : Keys
  pub finalized : Bool

module _ (curve : Curve) (hashes : Hashes) where
  -- `NewSPAKE2PVerifier`
  unfoldable pub new_verifier : (w0 l context : Bytes) → Result Error Verifier
  new_verifier w0 l context = do
    refuse (length w0 == 0) empty_scalars
    point ← wrap verifier_point (unmarshal_p256_point curve l)
    ok (record {
      w0 = w0;
      l_bytes = l;
      l = point;
      context = context;
      y = none;
      pa = [];
      pb = [];
      zv = none;
      vv = none;
      keys = no_keys;
      finalized = false;
    })

  -- pB = y·G + w0·N
  unfoldable pub share_pb : Bytes → ℕ → Point
  share_pb w0 y =
      curve.add (curve.scalar_base_mult (to_bytes y)) (curve.scalar_mult curve.spake_n w0)

  -- D = pA − w0·M
  unfoldable pub unblind_pa : Bytes → Point → Point
  unblind_pa w0 pa = curve.add pa (negate_y curve.field_size (curve.scalar_mult curve.spake_m w0))

  -- The share and the two secrets, Z = y·D and V = y·L, once y is drawn.
  abbrev pub share_with : Verifier → Point → Result Error ℕ → Verifier × Result Error Bytes
  share_with v pa (err e) = (v, err e)
  share_with v pa (ok y) =
      let pb = curve.marshal (share_pb v.w0 y) in
      let d = unblind_pa v.w0 pa in
      (
        record v {
          y = some y;
          pb = pb;
          zv = some (curve.marshal (curve.scalar_mult d (to_bytes y)));
          vv = some (curve.marshal (curve.scalar_mult v.l (to_bytes y)));
        },
        ok pb,
      )

  abbrev pub accept_pa :
      Verifier → Bytes → Option Bytes → Result Error Point → Verifier × Result Error Bytes
  accept_pa v pa rand (err e) = (v, err e)
  accept_pa v pa rand (ok point) = share_with (record v { pa = pa }) point (random_scalar rand)

  -- `SPAKE2PVerifier.ComputePB`: the verifier afterwards, and pB or the error.
  unfoldable pub compute_pb : Verifier → Bytes → Option Bytes → Verifier × Result Error Bytes
  compute_pb v pa rand = accept_pa v pa rand (unmarshal_p256_point curve pa)

  abbrev pub derived : Verifier → Result Error Keys → Result Error Verifier
  derived v (ok keys) = ok (record v { keys = keys; finalized = true })
  derived v (err e) = err e

  abbrev pub finalize_with : Verifier → Option Bytes → Option Bytes → Result Error Verifier
  finalize_with v (some z) (some s) =
      derived v (spake_finalize curve hashes v.context v.pa v.pb z s v.w0)
  finalize_with v _ _ = err compute_pb_first

  -- `SPAKE2PVerifier.Finalize`: the verifier afterwards; an error changes nothing.
  unfoldable pub finalize : Verifier → Result Error Verifier
  finalize v = do refuse v.finalized already_finalized; finalize_with v v.zv v.vv

-- `SPAKE2PVerifier.ConfirmationB`
unfoldable pub confirmation_b : Verifier → Result Error Bytes
confirmation_b v = do refuse (not v.finalized) not_finalized; ok v.keys.cb

-- `SPAKE2PVerifier.VerifyConfirmationA`
unfoldable pub verify_confirmation_a : Verifier → Bytes → Result Error (Unit {0})
verify_confirmation_a v ca = do
  refuse (not v.finalized) not_finalized
  refuse (not (equal v.keys.ca ca)) confirmation_mismatch

-- `SPAKE2PVerifier.SharedKey`
unfoldable pub shared_key : Verifier → Result Error Bytes
shared_key v = do refuse (not v.finalized) not_finalized; ok v.keys.ke
