-- ===== src/Examples/Commissioning/Orders.antt =====
-- commissioning/: messages out of order, and repeated ones.
use go_matter.Base.{◌≡◌, refl, arith, false, [], ◌∷◌, none, some, ok, err}
use go_matter.Base.Bytes.{equal, get_le}
use go_matter.Message.Builder
use go_matter.Message.Frame.{Frame}
use go_matter.Tlv.Reader.{
  read_element, read_full, read_tag, read_value, read_children, read_container_children,
}
use go_matter.Tlv.Decoder.{decode, view}
use go_matter.Tlv.Payload.{decode_payload}
use go_matter.Crypto.BigInt.{set_bytes_from, to_bytes}
use go_matter.Crypto.Spake.Group.{already_finalized, confirmation_mismatch, unmarshal_p256_point}
use go_matter.Crypto.Spake.Transcript.{spake_finalize}
use go_matter.Crypto.Spake.Prover
use go_matter.Crypto.Spake.Prover.{Prover, share_pa, unblind_pb, no_keys}
use go_matter.Crypto.Spake.Verifier.{share_pb}
use go_matter.Crypto.Spake.Sides.{Sides, sides_agree}
use go_matter.Session.Manager.{Session, session, unsecured_session_id}
use go_matter.Commissioning.Messages.{pake1, pake2, pake3}
use go_matter.Commissioning.Opcodes.{opcode_pase_pake1, opcode_pase_pake3}
use go_matter.Commissioning.Pase.{State, Error, pase_context}
use go_matter.Commissioning.Commissioner
use go_matter.Commissioning.Commissioner.{Commissioner}
use go_matter.Commissioning.Commissionee.{Commissionee}
use go_matter.Commissioning.Frames.{Delivers, initiator_frame-Delivers}
use go_matter.Commissioning.Fitting.{pake1-Fits, pake3-Fits}
use go_matter.Commissioning.Handshake.{to_device}
use go_matter.Commissioning.Safety.Unrequested.{unrequested-Complete}
use go_matter.Commissioning.Safety.Retry.{pake2_run, pake2_retry-refused}
use go_matter.Examples.Parameters.{toy_curve, toy_hashes, toy_marshal}
use go_matter.Examples.Commissioning.{toy_suite, toy_draws, toy_granted, controller, device}

-- A Pake2 with the share (0, 3) and a wrong confirmation.
abbrev wrong_pake2 : Frame
wrong_pake2 = record (Builder.empty_frame) {
  payload = 0x15 ∷ 0x30 ∷ 1 ∷ 2 ∷ 0 ∷ 3 ∷ 0x30 ∷ 2 ∷ 1 ∷ 9 ∷ 0x18 ∷ [];
}

wrong_pake2_reads : decode_payload pake2 wrong_pake2.payload ≡ ok (0 ∷ 3 ∷ [], (9 ∷ [], tt))
unfolding decode_payload read_container_children read_children read_element read_full read_tag
    read_value get_le decode equal
wrong_pake2_reads = refl

abbrev sent_prover : Prover
sent_prover = record {
  w0 = 2 ∷ [];
  w1 = 3 ∷ [];
  context = [];
  x = some 4;
  pa = toy_marshal (0, 3);
  pb = [];
  keys = no_keys;
  finalized = false;
}

abbrev finished_prover : Prover
finished_prover = (Prover.finalize toy_curve toy_hashes sent_prover (0 ∷ 3 ∷ [])).0

finished_run :
    Prover.finalize toy_curve toy_hashes sent_prover (0 ∷ 3 ∷ []) ≡ (finished_prover, ok tt)
unfolding Prover.finalize unmarshal_p256_point spake_finalize
finished_run = refl

wrong_refused : Prover.verify_confirmation_b finished_prover (9 ∷ []) ≡ err confirmation_mismatch
unfolding Prover.finalize Prover.verify_confirmation_b unmarshal_p256_point spake_finalize equal
    set_bytes_from
wrong_refused = refl

abbrev waiting : Commissioner
waiting = record controller { state = State.pase_pake2; prover = some sent_prover }

pake2_retry-refused_example :
    (Commissioner.handle_pake2 toy_suite wrong_pake2 (toy_draws 2) (
      pake2_run toy_suite
        ((wrong_pake2, toy_draws 3) ∷ (Builder.empty_frame, toy_draws 4) ∷ [])
        (Commissioner.handle_pake2 toy_suite wrong_pake2 (toy_draws 1) waiting).0)).1
    ≡ err (Error.finalize already_finalized)
pake2_retry-refused_example =
    pake2_retry-refused toy_suite waiting wrong_pake2 wrong_pake2 (toy_draws 1) (toy_draws 2)
      ((wrong_pake2, toy_draws 3) ∷ (Builder.empty_frame, toy_draws 4) ∷ []) sent_prover
      finished_prover (0 ∷ 3 ∷ []) (9 ∷ []) (0 ∷ 3 ∷ []) (9 ∷ []) confirmation_mismatch refl
      wrong_pake2_reads finished_run wrong_refused wrong_pake2_reads

-- A peer that knows the passcode of the device and skips the parameters.
abbrev toy_run :
    Sides toy_curve toy_hashes device.w0 (3 ∷ []) device.l (pase_context [] []) (4 ∷ []) (5 ∷ [])
unfolding set_bytes_from share_pa to_bytes share_pb
toy_run =
    sides_agree toy_curve toy_hashes (2 ∷ []) (3 ∷ []) (pase_context [] []) (4 ∷ []) (5 ∷ [])
      (omega arith) (omega arith) refl refl refl

abbrev early_pake1 : (f : Frame) × Delivers f 1 1 opcode_pase_pake1 pake1 (toy_run.pa, tt)
early_pake1 =
    let fits = pake1-Fits toy_run.pa (rw toy_run.pa_size (omega arith)) in
    let (f, _, told) =
      initiator_frame-Delivers 1 1 opcode_pase_pake1 0 pake1 (toy_run.pa, tt) (omega arith)
        (omega arith) (omega arith) refl (omega arith) fits
        (unfold view in rw toy_run.pa_size (omega arith)) in
    (f, told)

abbrev early_pake3 : (f : Frame) × Delivers f 1 2 opcode_pase_pake3 pake3 (toy_run.keys.ca, tt)
early_pake3 =
    let fits = pake3-Fits toy_run.keys.ca (rw toy_run.ca_size (omega arith)) in
    let (f, _, told) =
      initiator_frame-Delivers 1 2 opcode_pase_pake3 0 pake3 (toy_run.keys.ca, tt) (omega arith)
        (omega arith) (omega arith) refl (omega arith) fits
        (unfold view in rw toy_run.ca_size (omega arith)) in
    (f, told)

unrequested-Complete_example :
    (out : Frame) × (d' d'' : Commissionee) × (t : Session) × (to_device toy_suite
        (toy_draws 5)
        device
        early_pake1.0
      ≡ ok (d', some out))
    × (to_device toy_suite (toy_draws 6) d' early_pake3.0 ≡ ok (d'', none))
    × (d''.state ≡ State.complete)
    × (session d''.session_manager unsecured_session_id ≡ some t)
unrequested-Complete_example =
    unrequested-Complete toy_suite device (3 ∷ []) (4 ∷ []) (toy_draws 5) (toy_draws 6)
      (toy_granted 5 (omega arith)) toy_run early_pake1.0 early_pake3.0 1 1 1 2 refl (omega arith)
      refl refl early_pake1.1 early_pake3.1
