-- ===== src/Commissioning/Safety/Device.antt =====
-- What the handlers do to the session table, whatever arrives.
use go_matter.Base.{
  ◌≡◌, ◌∙◌, refl, ap, arith, ◌==◌, List, [], ◌∷◌, ◌++◌, some, Result, ok, err, ◌⊎◌, inl, inr,
  Bool-cases, Option-cases, Result-cases,
}
use go_matter.Base.Bytes.{Bytes}
use go_matter.Message.Frame.{Frame}
use go_matter.Tlv.Payload.{decode_payload}
use go_matter.Crypto.Spake.Verifier
use go_matter.Crypto.Spake.Verifier.{Verifier}
use go_matter.Session.Manager.{SessionManager, responder}
use go_matter.Commissioning.Messages.{pake3}
use go_matter.Commissioning.Opcodes.{
  opcode_pbkdf_param_request, opcode_pase_pake1, opcode_pase_pake3,
}
use go_matter.Commissioning.Handler.{Handler, continue}
use go_matter.Commissioning.Pase.{Suite, State, Randomness, install_pase_session}
use go_matter.Commissioning.Handshake.Steps.{pake3-handled}
use go_matter.Commissioning.Commissionee
use go_matter.Commissioning.Commissionee.{Commissionee}

module _ (f : Frame) (r : Randomness) (d : Commissionee) where
  request-keeps :
      (Commissionee.handle_pbkdf_param_request f r d).0.session_manager ≡ d.session_manager
  unfolding Commissionee.handle_pbkdf_param_request Commissionee.build_frame
  request-keeps = ground arith

  pake1-keeps :
      (suite : Suite)
      → (Commissionee.handle_pake1 suite f r d).0.session_manager ≡ d.session_manager
  unfolding Commissionee.handle_pake1 Commissionee.build_frame
  pake1-keeps suite = ground arith

-- What follows a handler without changing the state leaves the handler's state.
continue_state :
    {E S A B : Type 0} (x : S × Result E A) (k : A → Handler E S B)
    → ((a : A) (s : S) → (k a s).0 ≡ s)
    → (continue x k).0 ≡ x.0
continue_state (s, ok a) k h = h a s
continue_state (s, err e) k h = refl

-- The device has a session: it held a verifier that accepted the confirmation in the frame.
pub record DeviceConfirmed (suite : Suite) (f : Frame) (d d' : Commissionee) : Type 0 where
  pub verifier : Verifier
  pub held : d.verifier ≡ some verifier
  pub ca : Bytes
  pub decoded : decode_payload pake3 f.payload ≡ ok (ca, tt)
  pub accepted : Verifier.verify_confirmation_a verifier ca ≡ ok tt
  pub shared : Verifier.shared_key verifier ≡ ok d'.ke
  pub installed :
      install_pase_session suite.hashes.kdf d.session_manager d.session_id d'.ke responder
      ≡ ok d'.session_manager
  pub complete : d'.state ≡ State.complete

module _ (suite : Suite) (f : Frame) (d : Commissionee) where
  pake3-confirmed :
      (v : Verifier) (ca ke : Bytes) (sm : SessionManager)
      → d.verifier ≡ some v
      → decode_payload pake3 f.payload ≡ ok (ca, tt)
      → Verifier.verify_confirmation_a v ca ≡ ok tt
      → Verifier.shared_key v ≡ ok ke
      → install_pase_session suite.hashes.kdf d.session_manager d.session_id ke responder ≡ ok sm
      → DeviceConfirmed suite f d (Commissionee.handle_pake3 suite f d).0
  pake3-confirmed v ca ke sm held decoded accepted shared put =
      rw (pake3-handled suite d f ca ke v sm held decoded accepted shared put) (record {
        verifier = v;
        held = held;
        ca = ca;
        decoded = decoded;
        accepted = accepted;
        shared = shared;
        installed = put;
        complete = refl;
      })

  pake3-cases :
      let d' = (Commissionee.handle_pake3 suite f d).0 in
      (d'.session_manager ≡ d.session_manager) ⊎ DeviceConfirmed suite f d d'
  unfolding Commissionee.handle_pake3
  pake3-cases = elim (Option-cases d.verifier) [
    | inl missing ↦ inl (rw missing)
    | inr (v, held) ↦ elim (Result-cases (decode_payload pake3 f.payload)) [
      | inr (x, bad) ↦ inl (rw (held, bad))
      | inl ((ca, _), decoded) ↦ elim (Result-cases (Verifier.verify_confirmation_a v ca)) [
        | inr (x, bad) ↦ inl (rw (held, decoded, bad))
        | inl (_, accepted) ↦ elim (Result-cases (Verifier.shared_key v)) [
          | inr (x, bad) ↦ inl (rw (held, decoded, accepted, bad))
          | inl (ke, shared) ↦
              elim (Result-cases (
                install_pase_session suite.hashes.kdf d.session_manager d.session_id ke
                  responder)) [
                    | inr (x, bad) ↦ inl (rw (held, decoded, accepted, shared, bad))
                    | inl (sm, put) ↦
                        inr (pake3-confirmed v ca ke sm held decoded accepted shared put)
                  ]
        ]
      ]
    ]
  ]

  -- The state that some handler leaves, or the state before an unexpected opcode.
  device_dispatch :
      (r : Randomness)
      → let d' = (Commissionee.handle_message suite f r d).0 in
        (d' ≡ (Commissionee.handle_pbkdf_param_request f r d).0)
        ⊎ (d' ≡ (Commissionee.handle_pake1 suite f r d).0)
        ⊎ (d' ≡ (Commissionee.handle_pake3 suite f d).0)
        ⊎ (d' ≡ d)
  unfolding Commissionee.handle_message
  device_dispatch r =
      let opcode = f.payload_header.opcode in
      elim (Bool-cases (opcode == opcode_pbkdf_param_request)) [
        | inl is ↦ inl (rw is (continue_state _ _ λ a s. refl))
        | inr differs ↦ elim (Bool-cases (opcode == opcode_pase_pake1)) [
          | inl is ↦ inr (inl (rw (differs, is) (continue_state _ _ λ a s. refl)))
          | inr differs' ↦ elim (Bool-cases (opcode == opcode_pase_pake3)) [
            | inl is ↦ inr (inr (inl (rw (differs, differs', is) (continue_state _ _ λ a s. refl))))
            | inr other ↦ inr (inr (inr (rw (differs, differs', other))))
          ]
        ]
      ]

  -- Whatever frame arrives, the device's session table changes only when the frame carries the
  -- confirmation that the device's finished verifier expects; the session is then installed under
  -- the device's session id with the keys of the verifier's shared key.
  pub device_table-changes :
      (r : Randomness)
      → let d' = (Commissionee.handle_message suite f r d).0 in
        (d'.session_manager ≡ d.session_manager) ⊎ DeviceConfirmed suite f d d'
  device_table-changes r = elim (device_dispatch r) [
    | inl e ↦ inl (rw e (request-keeps f r d))
    | inr (inl e) ↦ inl (rw e (pake1-keeps f r d suite))
    | inr (inr (inl e)) ↦ rw e pake3-cases
    | inr (inr (inr e)) ↦ inl (rw e)
  ]

-- The device after a sequence of frames, each with the draws of its handler.
unfoldable pub device_run : Suite → List (Frame × Randomness) → Commissionee → Commissionee
device_run suite [] d = d
device_run suite ((f, r) ∷ fs) d = device_run suite fs (Commissionee.handle_message suite f r d).0

-- A frame of a run at which the device's confirmation is accepted, in the state that the frames
-- before it lead to; the frames behind it leave the session table as its handler left it.
pub record ConfirmedAt (suite : Suite) (fs : List (Frame × Randomness)) (d : Commissionee)
    : Type 0 where
  pub earlier : List (Frame × Randomness)
  pub frame : Frame
  pub drawn : Randomness
  pub later : List (Frame × Randomness)
  pub split : fs ≡ earlier ++ ((frame, drawn) ∷ later)
  pub confirmed :
      let before = device_run suite earlier d in
      DeviceConfirmed suite frame before (Commissionee.handle_message suite frame drawn before).0
  pub kept :
      (device_run suite fs d).session_manager
      ≡ (device_run suite (earlier ++ ((frame, drawn) ∷ [])) d).session_manager

-- Whatever frames a device handles, in whatever order, its session table is the one it started
-- with, or the one that the handler of some frame of the sequence left, in the state that the
-- frames before it had led to: this frame carries the confirmation that the verifier of that state
-- expects, and its handler adds the session with the keys of the verifier's shared key.
pub device_run-Confirmed :
    (suite : Suite) (fs : List (Frame × Randomness)) (d : Commissionee)
    → ((device_run suite fs d).session_manager ≡ d.session_manager) ⊎ ConfirmedAt suite fs d
unfolding device_run
device_run-Confirmed suite [] d = inl refl
device_run-Confirmed suite ((f, r) ∷ fs) d =
    let next = (Commissionee.handle_message suite f r d).0 in
    elim (device_run-Confirmed suite fs next) [
      | inr at ↦ inr (record {
        earlier = (f, r) ∷ at.earlier;
        frame = at.frame;
        drawn = at.drawn;
        later = at.later;
        split = ap (λ (xs : List (Frame × Randomness)). (f, r) ∷ xs) at.split;
        confirmed = at.confirmed;
        kept = at.kept;
      })
      | inl same ↦ elim (device_table-changes suite f d r) [
        | inl kept ↦ inl (same ∙ kept)
        | inr confirmed ↦ inr (record {
          earlier = [];
          frame = f;
          drawn = r;
          later = fs;
          split = refl;
          confirmed = confirmed;
          kept = same;
        })
      ]
    ]
