-- ===== src/Commissioning/Safety/Retry.antt =====
-- commissioning/commissioner.go: what comes after a Pake2 whose confirmation was refused.
use go_matter.Base.{◌≡◌, arith, true, List, [], ◌∷◌, some, ok, err, inl, inr, Result-cases}
use go_matter.Base.Bytes.{Bytes}
use go_matter.Message.Frame.{Frame}
use go_matter.Tlv.Payload.{decode_payload}
use go_matter.Crypto.Spake.Group
use go_matter.Crypto.Spake.Group.{Curve, Hashes, already_finalized}
use go_matter.Crypto.Spake.Prover
use go_matter.Crypto.Spake.Prover.{Prover}
use go_matter.Commissioning.Messages.{pake2}
use go_matter.Commissioning.Pase.{Suite, Error, Randomness}
use go_matter.Commissioning.Commissioner
use go_matter.Commissioning.Commissioner.{Commissioner}

finished :
    (curve : Curve) (hashes : Hashes) (p p' : Prover) (pb : Bytes)
    → Prover.finalize curve hashes p pb ≡ (p', ok tt)
    → p'.finalized ≡ true
unfolding Prover.finalize
finished curve hashes p p' pb h = ground arith

-- The controller after any number of Pake2 frames, each with the draws of its handler.
unfoldable pub pake2_run : Suite → List (Frame × Randomness) → Commissioner → Commissioner
pake2_run suite [] c = c
pake2_run suite ((f, r) ∷ fs) c = pake2_run suite fs (Commissioner.handle_pake2 suite f r c).0

module _ (suite : Suite) where
  refused_keeps :
      (c : Commissioner) (f : Frame) (r : Randomness) (p p' : Prover) (pb cb : Bytes)
      (x : Group.Error)
      → c.prover ≡ some p
      → decode_payload pake2 f.payload ≡ ok (pb, (cb, tt))
      → Prover.finalize suite.curve suite.hashes p pb ≡ (p', ok tt)
      → Prover.verify_confirmation_b p' cb ≡ err x
      → (Commissioner.handle_pake2 suite f r c).0.prover ≡ some p'
  unfolding Commissioner.handle_pake2
  refused_keeps c f r p p' pb cb x held decoded done refused = ground arith

  -- A finished prover stays, whatever the payload of the next Pake2.
  finished-kept :
      (c : Commissioner) (f : Frame) (r : Randomness) (p : Prover)
      → c.prover ≡ some p
      → p.finalized ≡ true
      → (Commissioner.handle_pake2 suite f r c).0.prover ≡ some p
  unfolding Commissioner.handle_pake2 Prover.finalize
  finished-kept c f r p held over = elim (Result-cases (decode_payload pake2 f.payload)) [
    | inr (x, bad) ↦ ground arith
    | inl ((pb, (cb, _)), decoded) ↦ rw (held, decoded, over)
  ]

  pake2_run-kept :
      (fs : List (Frame × Randomness)) (c : Commissioner) (p : Prover)
      → c.prover ≡ some p
      → p.finalized ≡ true
      → (pake2_run suite fs c).prover ≡ some p
  unfolding pake2_run
  pake2_run-kept [] c p held over = held
  pake2_run-kept ((f, r) ∷ fs) c p held over =
      pake2_run-kept fs (Commissioner.handle_pake2 suite f r c).0 p
        (finished-kept c f r p held over) over

  again_refused :
      (c : Commissioner) (f : Frame) (r : Randomness) (p : Prover) (pb cb : Bytes)
      → c.prover ≡ some p
      → p.finalized ≡ true
      → decode_payload pake2 f.payload ≡ ok (pb, (cb, tt))
      → (Commissioner.handle_pake2 suite f r c).1 ≡ err (Error.finalize already_finalized)
  unfolding Commissioner.handle_pake2 Prover.finalize
  again_refused c f r p pb cb held over decoded = ground arith

  -- The controller has refused the confirmation of a Pake2 whose share its prover had finished
  -- with. As long as only Pake2 frames come, however many and whatever they hold, it refuses each
  -- one that decodes, the right one included, because its prover is finished; another parameter
  -- response, which makes a new prover, is not considered.
  pub pake2_retry-refused :
      (c : Commissioner) (f f' : Frame) (r r' : Randomness) (fs : List (Frame × Randomness))
      (p p' : Prover) (pb cb pb' cb' : Bytes) (x : Group.Error)
      → c.prover ≡ some p
      → decode_payload pake2 f.payload ≡ ok (pb, (cb, tt))
      → Prover.finalize suite.curve suite.hashes p pb ≡ (p', ok tt)
      → Prover.verify_confirmation_b p' cb ≡ err x
      → decode_payload pake2 f'.payload ≡ ok (pb', (cb', tt))
      → let c' = pake2_run suite fs (Commissioner.handle_pake2 suite f r c).0 in
        (Commissioner.handle_pake2 suite f' r' c').1 ≡ err (Error.finalize already_finalized)
  pake2_retry-refused c f f' r r' fs p p' pb cb pb' cb' x held decoded done refused decoded' =
      let over = finished suite.curve suite.hashes p p' pb done in
      let kept = refused_keeps c f r p p' pb cb x held decoded done refused in
      again_refused _ f' r' p' pb' cb'
        (pake2_run-kept fs (Commissioner.handle_pake2 suite f r c).0 p' kept over) over decoded'
