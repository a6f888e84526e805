-- ===== src/Crypto/Spake/Agreement.antt =====
-- A run of SPAKE2+ between two sides that know the same passcode.
use go_matter.Base.{
  ℕ, ◌≡◌, ◌<◌, refl, arith, Bool, true, false, [], length, Option, none, some, Result, ok, ◌>>=◌,
  ◌>>◌, ==_ne,
}
use go_matter.Base.Bytes.{Bytes, equal_self}
use go_matter.Crypto.BigInt.{set_bytes, to_bytes}
use go_matter.Crypto.Spake.Group.{Curve, Hashes, Error, Point, unmarshal_p256_point-marshal}
use go_matter.Crypto.Spake.Transcript.{Keys, spake_finalize, spake_finalize_total}
use go_matter.Crypto.Spake.Prover
use go_matter.Crypto.Spake.Prover.{Prover, no_keys, share_pa, unblind_pb}
use go_matter.Crypto.Spake.Verifier
use go_matter.Crypto.Spake.Verifier.{Verifier, share_pb, unblind_pa}

-- The calls that commissioner and commissionee make, in the order of the handshake; `ra` and `rb`
-- are what the random source gives the prover and the verifier.
unfoldable pub exchange :
    Curve → Hashes → (w0 w1 l context ra rb : Bytes) → Result Error (Prover × Verifier)
exchange curve hashes w0 w1 l context ra rb = do
  p ← Prover.new_prover w0 w1 context
  (p, pa) ← Prover.compute_pa curve hashes p (some ra)
  v ← Verifier.new_verifier curve hashes w0 l context
  let (v, share) = Verifier.compute_pb curve hashes v pa (some rb)
  pb ← share
  v ← Verifier.finalize curve hashes v
  cb ← Verifier.confirmation_b v
  let (p, outcome) = Prover.finalize curve hashes p pb
  outcome >> Prover.verify_confirmation_b p cb
  ca ← Prover.confirmation_a p
  Verifier.verify_confirmation_a v ca
  ok (p, v)

module _ (curve : Curve) (hashes : Hashes) (w0 : Bytes) where
  unblind_pb-share_pb :
      (y : ℕ)
      → unblind_pb curve hashes w0 (share_pb curve hashes w0 y)
        ≡ curve.scalar_base_mult (to_bytes y)
  unfolding unblind_pb share_pb
  unblind_pb-share_pb y =
      curve.add-negate _ _ (curve.base_in_group _) (curve.mult_in_group _ w0 curve.n_in_group)

  unblind_pa-share_pa :
      (x : ℕ)
      → unblind_pa curve hashes w0 (share_pa curve hashes w0 x)
        ≡ curve.scalar_base_mult (to_bytes x)
  unfolding unblind_pa share_pa
  unblind_pa-share_pa x =
      curve.add-negate _ _ (curve.base_in_group _) (curve.mult_in_group _ w0 curve.m_in_group)

module _ (curve : Curve) (hashes : Hashes) (w0 w1 context ra rb : Bytes) (h0 : 0 < length w0)
    (h1 : 0 < length w1) (on_l : curve.is_on_curve (curve.scalar_base_mult w1) ≡ true)
    (on_a : curve.is_on_curve (share_pa curve hashes w0 (set_bytes ra)) ≡ true)
    (on_b : curve.is_on_curve (share_pb curve hashes w0 (set_bytes rb)) ≡ true) where
  abbrev x : ℕ
  x = set_bytes ra

  abbrev y : ℕ
  y = set_bytes rb

  abbrev pa : Bytes
  pa = curve.marshal (share_pa curve hashes w0 x)

  abbrev pb : Bytes
  pb = curve.marshal (share_pb curve hashes w0 y)

  -- Z = xy·G and V = yw1·G
  abbrev z : Bytes
  z = curve.marshal (curve.scalar_mult (curve.scalar_base_mult (to_bytes y)) (to_bytes x))

  abbrev s : Bytes
  s = curve.marshal (curve.scalar_mult (curve.scalar_base_mult (to_bytes y)) w1)

  abbrev l : Point
  l = curve.scalar_base_mult w1

  abbrev prover_with : Option ℕ → Bytes → Bytes → Keys → Bool → Prover
  prover_with x a b keys done = record {
    w0 = w0;
    w1 = w1;
    context = context;
    x = x;
    pa = a;
    pb = b;
    keys = keys;
    finalized = done;
  }

  abbrev verifier_with :
      Option ℕ → Bytes → Bytes → Option Bytes → Option Bytes → Keys → Bool → Verifier
  verifier_with y a b zv vv keys done = record {
    w0 = w0;
    l_bytes = curve.marshal l;
    l = l;
    context = context;
    y = y;
    pa = a;
    pb = b;
    zv = zv;
    vv = vv;
    keys = keys;
    finalized = done;
  }

  pub new_prover_ok : Prover.new_prover w0 w1 context ≡ ok (prover_with none [] [] no_keys false)
  unfolding Prover.new_prover
  new_prover_ok = rw (==_ne (length w0) 0 (omega arith), ==_ne (length w1) 0 (omega arith))

  pub new_verifier_ok :
      Verifier.new_verifier curve hashes w0 (curve.marshal l) context
      ≡ ok (verifier_with none [] [] none none no_keys false)
  unfolding Verifier.new_verifier
  new_verifier_ok =
      rw (==_ne (length w0) 0 (omega arith), unmarshal_p256_point-marshal curve l on_l)

  pub compute_pa_ok :
      Prover.compute_pa curve hashes (prover_with none [] [] no_keys false) (some ra)
      ≡ ok (prover_with (some x) pa [] no_keys false, pa)
  unfolding Prover.compute_pa
  compute_pa_ok = refl

  pub compute_pb_ok :
      Verifier.compute_pb curve hashes
        (verifier_with none [] [] none none no_keys false)
        pa
        (some rb)
      ≡ (verifier_with (some y) pa pb (some z) (some s) no_keys false, ok pb)
  unfolding Verifier.compute_pb
  compute_pb_ok = rw (
    unmarshal_p256_point-marshal curve (share_pa curve hashes w0 x) on_a,
    unblind_pa-share_pa curve hashes w0 x,
    curve.mult_comm (to_bytes x) (to_bytes y),
    curve.mult_comm w1 (to_bytes y),
  )

  module _ (keys : Keys) (done : spake_finalize curve hashes context pa pb z s w0 ≡ ok keys) where
    pub verifier_finalize_ok :
        Verifier.finalize curve hashes
          (verifier_with (some y) pa pb (some z) (some s) no_keys false)
        ≡ ok (verifier_with (some y) pa pb (some z) (some s) keys true)
    unfolding Verifier.finalize
    verifier_finalize_ok = rw done

    pub prover_finalize_ok :
        Prover.finalize curve hashes (prover_with (some x) pa [] no_keys false) pb
        ≡ (prover_with (some x) pa pb keys true, ok tt)
    unfolding Prover.finalize
    prover_finalize_ok = rw (
      unmarshal_p256_point-marshal curve (share_pb curve hashes w0 y) on_b,
      unblind_pb-share_pb curve hashes w0 y,
      done,
    )

    exchange_ok :
        exchange curve hashes w0 w1 (curve.marshal l) context ra rb
        ≡ ok (
          prover_with (some x) pa pb keys true,
          verifier_with (some y) pa pb (some z) (some s) keys true,
        )
    unfolding exchange Prover.verify_confirmation_b Prover.confirmation_a
        Verifier.verify_confirmation_a Verifier.confirmation_b
    exchange_ok = rw (
      new_prover_ok,
      compute_pa_ok,
      new_verifier_ok,
      compute_pb_ok,
      verifier_finalize_ok,
      prover_finalize_ok,
      equal_self keys.cb,
      equal_self keys.ca,
    )

-- If both sides hold the nonempty scalars of one passcode and the same context, the verifier stores
-- L = w1·G, and the two shares and L are points of the curve, the exchange completes: each side
-- accepts the other's confirmation, and both end with the same shared key.
pub exchange_agrees :
    (curve : Curve) (hashes : Hashes) (w0 w1 context ra rb : Bytes)
    → 0 < length w0
    → 0 < length w1
    → curve.is_on_curve (curve.scalar_base_mult w1) ≡ true
    → curve.is_on_curve (share_pa curve hashes w0 (set_bytes ra)) ≡ true
    → curve.is_on_curve (share_pb curve hashes w0 (set_bytes rb)) ≡ true
    → (p : Prover) × (v : Verifier) × (ke : Bytes) × (exchange curve hashes w0 w1
          (curve.marshal (curve.scalar_base_mult w1))
          context
          ra
          rb
        ≡ ok (p, v))
      × (Prover.shared_key p ≡ ok ke)
      × (Verifier.shared_key v ≡ ok ke)
unfolding Prover.shared_key Verifier.shared_key
exchange_agrees curve hashes w0 w1 context ra rb h0 h1 on_l on_a on_b =
    let (keys, done) = spake_finalize_total curve hashes context _ _ _ _ w0 in
    (
      _,
      _,
      keys.ke,
      exchange_ok curve hashes w0 w1 context ra rb h0 h1 on_l on_a on_b keys done,
      refl,
      refl,
    )
