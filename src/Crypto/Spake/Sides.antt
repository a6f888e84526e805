-- ===== src/Crypto/Spake/Sides.antt =====
-- The calls of a run, one by one, as the two sides of the handshake make them.
use go_matter.Base.{◌≡◌, ◌<◌, refl, true, length, some, ok}
use go_matter.Base.Bytes.{Bytes, equal_self}
use go_matter.Crypto.BigInt.{set_bytes}
use go_matter.Crypto.Spake.Group.{Curve, Hashes}
use go_matter.Crypto.Spake.Transcript.{Keys, spake_finalize_sizes}
use go_matter.Crypto.Spake.Prover
use go_matter.Crypto.Spake.Prover.{Prover, share_pa}
use go_matter.Crypto.Spake.Verifier
use go_matter.Crypto.Spake.Verifier.{Verifier, share_pb}
use go_matter.Crypto.Spake.Agreement.{
  new_prover_ok, new_verifier_ok, compute_pa_ok, compute_pb_ok, verifier_finalize_ok,
  prover_finalize_ok,
}

-- Every call succeeds, each on what the one before it left, and the two shared keys are one.
pub record Sides (curve : Curve) (hashes : Hashes) (w0 w1 l context ra rb : Bytes) : Type 0 where
  pub p : Prover
  pub p' : Prover
  pub p'' : Prover
  pub v : Verifier
  pub v' : Verifier
  pub v'' : Verifier
  pub pa : Bytes
  pub pb : Bytes
  pub keys : Keys
  pub prover_made : Prover.new_prover w0 w1 context ≡ ok p
  pub pa_shared : Prover.compute_pa curve hashes p (some ra) ≡ ok (p', pa)
  pub verifier_made : Verifier.new_verifier curve hashes w0 l context ≡ ok v
  pub pb_shared : Verifier.compute_pb curve hashes v pa (some rb) ≡ (v', ok pb)
  pub verifier_done : Verifier.finalize curve hashes v' ≡ ok v''
  pub cb_given : Verifier.confirmation_b v'' ≡ ok keys.cb
  pub prover_done : Prover.finalize curve hashes p' pb ≡ (p'', ok tt)
  pub cb_checked : Prover.verify_confirmation_b p'' keys.cb ≡ ok tt
  pub ca_given : Prover.confirmation_a p'' ≡ ok keys.ca
  pub ca_checked : Verifier.verify_confirmation_a v'' keys.ca ≡ ok tt
  pub prover_key : Prover.shared_key p'' ≡ ok keys.ke
  pub verifier_key : Verifier.shared_key v'' ≡ ok keys.ke
  pub pa_size : length pa ≡ 65
  pub pb_size : length pb ≡ 65
  pub ke_size : length keys.ke ≡ 16
  pub ca_size : length keys.ca ≡ 32
  pub cb_size : length keys.cb ≡ 32

pub sides_agree :
    (curve : Curve) (hashes : Hashes) (w0 w1 context ra rb : Bytes)
    → 0 < length w0
    → 0 < length w1
    → curve.is_on_curve (curve.scalar_base_mult w1) ≡ true
    → curve.is_on_curve (share_pa curve hashes w0 (set_bytes ra)) ≡ true
    → curve.is_on_curve (share_pb curve hashes w0 (set_bytes rb)) ≡ true
    → Sides curve hashes w0 w1 (curve.marshal (curve.scalar_base_mult w1)) context ra rb
unfolding Prover.verify_confirmation_b Prover.confirmation_a Verifier.verify_confirmation_a
    Verifier.confirmation_b Prover.shared_key Verifier.shared_key
sides_agree curve hashes w0 w1 context ra rb h0 h1 on_l on_a on_b =
    let (keys, done, ke_size, ca_size, cb_size) =
      spake_finalize_sizes curve hashes context _ _ _ _ w0 in
    record {
      p = _;
      p' = _;
      p'' = _;
      v = _;
      v' = _;
      v'' = _;
      pa = _;
      pb = _;
      keys = keys;
      prover_made = new_prover_ok curve hashes w0 w1 context ra rb h0 h1 on_l on_a on_b;
      pa_shared = compute_pa_ok curve hashes w0 w1 context ra rb h0 h1 on_l on_a on_b;
      verifier_made = new_verifier_ok curve hashes w0 w1 context ra rb h0 h1 on_l on_a on_b;
      pb_shared = compute_pb_ok curve hashes w0 w1 context ra rb h0 h1 on_l on_a on_b;
      verifier_done =
          verifier_finalize_ok curve hashes w0 w1 context ra rb h0 h1 on_l on_a on_b keys done;
      cb_given = refl;
      prover_done =
          prover_finalize_ok curve hashes w0 w1 context ra rb h0 h1 on_l on_a on_b keys done;
      cb_checked = rw (equal_self keys.cb);
      ca_given = refl;
      ca_checked = rw (equal_self keys.ca);
      prover_key = refl;
      verifier_key = refl;
      pa_size = curve.marshal_length _;
      pb_size = curve.marshal_length _;
      ke_size = ke_size;
      ca_size = ca_size;
      cb_size = cb_size;
    }
