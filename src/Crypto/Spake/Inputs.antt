-- ===== src/Crypto/Spake/Inputs.antt =====
-- What the two sides of an exchange derive their keys from.
use go_matter.Base.{
  ◌≡◌, refl, sym, ap, arith, ◌∙◌, true, Option, none, some, Result, ok, err, Bool-cases,
  ok-injective, Option-cases, Result-cases, inl, inr,
}
use mathlib.Core.Path.{subst}
use go_matter.Base.Bytes.{Bytes}
use go_matter.Crypto.BigInt.{to_bytes, set_bytes}
use go_matter.Crypto.Spake.Group.{Curve, Hashes, Error, Point, unmarshal_p256_point}
use go_matter.Crypto.Spake.Transcript.{Keys}
use go_matter.Crypto.Spake.Binding.{IsShort, Inputs, derive}
use go_matter.Crypto.Spake.Prover
use go_matter.Crypto.Spake.Prover.{Prover}
use go_matter.Crypto.Spake.Verifier
use go_matter.Crypto.Spake.Verifier.{Verifier}

-- What a prover and a verifier with these shares and secrets hash.
abbrev pub prover_inputs : Prover → (pb z v : Bytes) → Inputs
prover_inputs p pb z v = record { context = p.context; pa = p.pa; pb = pb; z = z; v = v; w0 = p.w0 }

abbrev pub verifier_inputs : Verifier → (z v : Bytes) → Inputs
verifier_inputs w z v = record {
  context = w.context;
  pa = w.pa;
  pb = w.pb;
  z = z;
  v = v;
  w0 = w.w0;
}

-- What a verifier has kept once it has answered a share.
pub record Answered (w w' : Verifier) (pa pb : Bytes) : Type 0 where
  pub same_pa : w'.pa ≡ pa
  pub same_pb : w'.pb ≡ pb
  pub same_w0 : w'.w0 ≡ w.w0
  pub same_context : w'.context ≡ w.context
  pub short_pb : IsShort pb
  pub z : Bytes
  pub z_kept : w'.zv ≡ some z
  pub z_short : IsShort z
  pub v : Bytes
  pub v_kept : w'.vv ≡ some v
  pub v_short : IsShort v

module _ (curve : Curve) (hashes : Hashes) where
  marshal-IsShort : (q : Point) → IsShort (curve.marshal q)
  marshal-IsShort q = rw (curve.marshal_length q) (omega arith)

  prover_derived :
      (q p' : Prover) (r : Result Error Keys)
      → Prover.derived curve hashes q r ≡ (p', ok tt)
      → (k : Keys) × (r ≡ ok k) × (p'.keys ≡ k) × (p'.finalized ≡ true)
  prover_derived q p' (ok k) h = (k, refl, ground arith, ground arith)
  prover_derived q p' (err e) h = ground arith

  pub prover_derives :
      (p p' : Prover) (pb : Bytes)
      → Prover.finalize curve hashes p pb ≡ (p', ok tt)
      → (z v : Bytes) × (k : Keys) × IsShort z
        × IsShort v
        × (derive curve hashes (prover_inputs p pb z v) ≡ ok k)
        × (p'.keys ≡ k)
        × (p'.finalized ≡ true)
  unfolding Prover.finalize
  prover_derives p p' pb h = elim (Bool-cases p.finalized) [
    | inl again ↦ ground arith
    | inr once ↦ elim (Option-cases p.x) [
      | inl missing ↦ ground arith
      | inr (x, drawn) ↦ elim (Result-cases (unmarshal_p256_point curve pb)) [
        | inr (e, bad) ↦ ground arith
        | inl (point, read) ↦
            let d = Prover.unblind_pb curve hashes p.w0 point in
            let z = curve.marshal (curve.scalar_mult d (to_bytes x)) in
            let v = curve.marshal (curve.scalar_mult d p.w1) in
            let step : Prover.finalize curve hashes p pb
                ≡ Prover.derive_with curve hashes p x pb (ok point) =
              rw (once, drawn, read) in
            let (k, made, kept, done) = prover_derived (record p { pb = pb }) p' _ (sym step ∙ h) in
            (z, v, k, marshal-IsShort _, marshal-IsShort _, made, kept, done)
      ]
    ]
  ]

  verifier_derived :
      (w w' : Verifier) (r : Result Error Keys)
      → Verifier.derived curve hashes w r ≡ ok w'
      → (k : Keys) × (r ≡ ok k) × (w'.keys ≡ k) × (w'.finalized ≡ true)
  verifier_derived w w' (ok k) h = (k, refl, ground arith, ground arith)
  verifier_derived w w' (err e) h = ground arith

  pub verifier_derives :
      (w w' : Verifier)
      → Verifier.finalize curve hashes w ≡ ok w'
      → (z v : Bytes) × (k : Keys) × (w.zv ≡ some z)
        × (w.vv ≡ some v)
        × (derive curve hashes (verifier_inputs w z v) ≡ ok k)
        × (w'.keys ≡ k)
        × (w'.finalized ≡ true)
  unfolding Verifier.finalize
  verifier_derives w w' h = elim (Bool-cases w.finalized) [
    | inl again ↦ ground arith
    | inr once ↦ elim (Option-cases w.zv) [
      | inl missing ↦ ground arith
      | inr (z, z_kept) ↦ elim (Option-cases w.vv) [
        | inl missing ↦ ground arith
        | inr (v, v_kept) ↦
            let step : Verifier.finalize curve hashes w
                ≡ Verifier.finalize_with curve hashes w (some z) (some v) =
              rw (once, z_kept, v_kept) in
            let (k, made, kept, done) = verifier_derived w w' _ (sym step ∙ h) in
            (z, v, k, z_kept, v_kept, made, kept, done)
      ]
    ]
  ]

  pub pa_sent :
      (p p' : Prover) (r : Option Bytes) (pa : Bytes)
      → Prover.compute_pa curve hashes p r ≡ ok (p', pa)
      → (p'.pa ≡ pa) × (p'.w0 ≡ p.w0) × (p'.context ≡ p.context) × IsShort pa
  unfolding Prover.compute_pa
  pa_sent p p' none pa h = ground arith
  pa_sent p p' (some r) pa h =
      subst
        (λ (x : Prover × Bytes).
          (x.0.pa ≡ x.1) × (x.0.w0 ≡ p.w0) × (x.0.context ≡ p.context) × IsShort x.1)
        (ok-injective h) (refl, refl, refl, marshal-IsShort _)

  pub pb_sent :
      (w w' : Verifier) (pa : Bytes) (r : Option Bytes) (pb : Bytes)
      → Verifier.compute_pb curve hashes w pa r ≡ (w', ok pb)
      → Answered w w' pa pb
  unfolding Verifier.compute_pb
  pb_sent w w' pa none pb h = elim (Result-cases (unmarshal_p256_point curve pa)) [
    | inl (point, read) ↦ ground arith
    | inr (e, bad) ↦ ground arith
  ]
  pb_sent w w' pa (some r) pb h = elim (Result-cases (unmarshal_p256_point curve pa)) [
    | inr (e, bad) ↦ ground arith
    | inl (point, read) ↦
        let step : Verifier.compute_pb curve hashes w pa (some r)
            ≡ Verifier.share_with curve hashes (record w { pa = pa }) point (ok (set_bytes r)) =
          rw read in
        let both = sym step ∙ h in
        let state : _ ≡ w' = ap (λ (x : Verifier × Result Error Bytes). x.0) both in
        let share = ok-injective (ap (λ (x : Verifier × Result Error Bytes). x.1) both) in
        rw (← state, ← share)
          (record {
            same_pa = refl;
            same_pb = refl;
            same_w0 = refl;
            same_context = refl;
            short_pb = marshal-IsShort _;
            z = _;
            z_kept = refl;
            z_short = marshal-IsShort _;
            v = _;
            v_kept = refl;
            v_short = marshal-IsShort _;
          })
  ]
