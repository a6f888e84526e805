-- ===== src/Commissioning/Safety/Controller.antt =====
-- commissioning/commissioner.go: when the controller's session table changes.
use go_matter.Base.{
  ◌≡◌, ◌∙◌, ap, sym, refl, arith, ◌==◌, some, Result, ok, err, ◌⊎◌, inl, inr, Bool-cases,
  Option-cases, Result-cases,
}
use go_matter.Base.Bytes.{Bytes}
use go_matter.Message.Frame.{Frame}
use go_matter.Tlv.Payload.{decode_payload}
use go_matter.Crypto.Spake.Prover
use go_matter.Crypto.Spake.Prover.{Prover}
use go_matter.Session.Manager.{SessionManager, initiator}
use go_matter.Commissioning.Messages.{pake2}
use go_matter.Commissioning.Opcodes.{opcode_pbkdf_param_response, opcode_pase_pake2}
use go_matter.Commissioning.Pase.{Suite, Randomness, install_pase_session}
use go_matter.Commissioning.Commissioner
use go_matter.Commissioning.Commissioner.{Commissioner}

-- The controller has a session: the prover that sent Pake1 finished with the share in the frame,
-- and accepted the confirmation in it.
pub record ControllerConfirmed (suite : Suite) (f : Frame) (c c' : Commissioner) : Type 0 where
  pub prover : Prover
  pub held : c.prover ≡ some prover
  pub pb : Bytes
  pub cb : Bytes
  pub decoded : decode_payload pake2 f.payload ≡ ok (pb, (cb, tt))
  pub finished : Prover
  pub finalized : Prover.finalize suite.curve suite.hashes prover pb ≡ (finished, ok tt)
  pub accepted : Prover.verify_confirmation_b finished cb ≡ ok tt
  pub shared : Prover.shared_key finished ≡ ok c'.ke
  pub installed :
      install_pase_session suite.hashes.kdf c.session_manager c.session_id c'.ke initiator
      ≡ ok c'.session_manager

outcome-cases :
    {E S : Type 0} (x : S × Result E (Unit {0}))
    → ((s : S) × (x ≡ (s, ok tt))) ⊎ ((s : S) × (e : E) × (x ≡ (s, err e)))
outcome-cases (s, ok _) = inl (s, refl)
outcome-cases (s, err e) = inr (s, e, refl)

module _ (suite : Suite) (f : Frame) (r : Randomness) (c : Commissioner) where
  response-keeps :
      (Commissioner.handle_pbkdf_param_response suite f r c).0.session_manager ≡ c.session_manager
  unfolding Commissioner.handle_pbkdf_param_response Commissioner.send_pake1
      Commissioner.build_frame
  response-keeps = ground arith

  -- Once everything is accepted, the key and the table are set, even if no Pake3 can be sent.
  pake2-sets :
      (p p' : Prover) (pb cb ca ke : Bytes) (sm : SessionManager)
      → c.prover ≡ some p
      → decode_payload pake2 f.payload ≡ ok (pb, (cb, tt))
      → Prover.finalize suite.curve suite.hashes p pb ≡ (p', ok tt)
      → Prover.verify_confirmation_b p' cb ≡ ok tt
      → Prover.confirmation_a p' ≡ ok ca
      → Prover.shared_key p' ≡ ok ke
      → install_pase_session suite.hashes.kdf c.session_manager c.session_id ke initiator ≡ ok sm
      → let c' = (Commissioner.handle_pake2 suite f r c).0 in
        (c'.ke ≡ ke) × (c'.session_manager ≡ sm)
  unfolding Commissioner.handle_pake2 Commissioner.build_frame
  pake2-sets p p' pb cb ca ke sm held decoded done accepted confirmed shared put = ground arith

  pake2-confirmed :
      (p p' : Prover) (pb cb ca ke : Bytes) (sm : SessionManager)
      → c.prover ≡ some p
      → decode_payload pake2 f.payload ≡ ok (pb, (cb, tt))
      → Prover.finalize suite.curve suite.hashes p pb ≡ (p', ok tt)
      → Prover.verify_confirmation_b p' cb ≡ ok tt
      → Prover.confirmation_a p' ≡ ok ca
      → Prover.shared_key p' ≡ ok ke
      → install_pase_session suite.hashes.kdf c.session_manager c.session_id ke initiator ≡ ok sm
      → ControllerConfirmed suite f c (Commissioner.handle_pake2 suite f r c).0
  pake2-confirmed p p' pb cb ca ke sm held decoded done accepted confirmed shared put =
      let (key, table) =
        pake2-sets p p' pb cb ca ke sm held decoded done accepted confirmed shared put in
      record {
        prover = p;
        held = held;
        pb = pb;
        cb = cb;
        decoded = decoded;
        finished = p';
        finalized = done;
        accepted = accepted;
        shared = shared ∙ ap ok (sym key);
        installed =
            ap
              (λ k.
                install_pase_session suite.hashes.kdf c.session_manager c.session_id k initiator)
              key
            ∙ put
            ∙ ap ok (sym table);
      }

  finished-cases :
      (p p' : Prover) (pb cb : Bytes)
      → c.prover ≡ some p
      → decode_payload pake2 f.payload ≡ ok (pb, (cb, tt))
      → Prover.finalize suite.curve suite.hashes p pb ≡ (p', ok tt)
      → let c' = (Commissioner.handle_pake2 suite f r c).0 in
        (c'.session_manager ≡ c.session_manager) ⊎ ControllerConfirmed suite f c c'
  unfolding Commissioner.handle_pake2
  finished-cases p p' pb cb held decoded done =
      elim (Result-cases (Prover.verify_confirmation_b p' cb)) [
        | inr (x, bad) ↦ inl (ground arith)
        | inl (_, accepted) ↦ elim (Result-cases (Prover.confirmation_a p')) [
          | inr (x, bad) ↦ inl (ground arith)
          | inl (ca, confirmed) ↦ elim (Result-cases (Prover.shared_key p')) [
            | inr (x, bad) ↦ inl (ground arith)
            | inl (ke, shared) ↦
                elim (Result-cases (
                  install_pase_session suite.hashes.kdf c.session_manager c.session_id ke
                    initiator)) [
                      | inr (x, bad) ↦ inl (ground arith)
                      | inl (sm, put) ↦ inr (
                          pake2-confirmed p p' pb cb ca ke sm held decoded done accepted confirmed
                            shared put)
                    ]
          ]
        ]
      ]

  pake2-cases :
      let c' = (Commissioner.handle_pake2 suite f r c).0 in
      (c'.session_manager ≡ c.session_manager) ⊎ ControllerConfirmed suite f c c'
  unfolding Commissioner.handle_pake2
  pake2-cases = elim (Option-cases c.prover) [
    | inl missing ↦ inl (rw missing)
    | inr (p, held) ↦ elim (Result-cases (decode_payload pake2 f.payload)) [
      | inr (x, bad) ↦ inl (ground arith)
      | inl ((pb, (cb, _)), decoded) ↦
          elim (outcome-cases (Prover.finalize suite.curve suite.hashes p pb)) [
            | inr (p', x, bad) ↦ inl (ground arith)
            | inl (p', done) ↦ finished-cases p p' pb cb held decoded done
          ]
    ]
  ]

  -- Whatever frame arrives, the controller's session table changes only when the prover of Pake1
  -- finishes with the frame's share and accepts the frame's confirmation; the session is then
  -- installed under the controller's session id with the keys of the prover's shared key.
  pub controller_table-changes :
      let c' = (Commissioner.handle_message suite f r c).0 in
      (c'.session_manager ≡ c.session_manager) ⊎ ControllerConfirmed suite f c c'
  unfolding Commissioner.handle_message
  controller_table-changes =
      let opcode = f.payload_header.opcode in
      elim (Bool-cases (opcode == opcode_pbkdf_param_response)) [
        | inl is ↦ inl (rw is response-keeps)
        | inr differs ↦ elim (Bool-cases (opcode == opcode_pase_pake2)) [
          | inl is ↦ rw (differs, is) pake2-cases
          | inr other ↦ inl (rw (differs, other))
        ]
      ]
