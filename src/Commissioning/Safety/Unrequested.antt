-- ===== src/Commissioning/Safety/Unrequested.antt =====
-- commissioning/commissionee.go: no handler looks at the state, so Pake1 need not follow a request.
use go_matter.Base.{ℕ, ◌^◌, ◌<◌, ◌≡◌, refl, arith, [], none, some, ok}
use go_matter.Base.Bytes.{Bytes}
use go_matter.Message.Frame.{Frame}
use go_matter.Crypto.Spake.Sides.{Sides}
use go_matter.Session.Manager.{
  Session, session, new_session, install_secure_session, responder, unsecured_session_id,
}
use go_matter.Commissioning.Messages.{pake1, pake3}
use go_matter.Commissioning.Opcodes.{opcode_pase_pake1, opcode_pase_pake3}
use go_matter.Commissioning.Pase.{Suite, State, Randomness, pase_context}
use go_matter.Commissioning.Commissionee.{Commissionee}
use go_matter.Commissioning.Frames.{Delivers}
use go_matter.Commissioning.Handshake.{to_device}
use go_matter.Commissioning.Handshake.Steps.{verifying, device_done, pake3-handled}
use go_matter.Commissioning.Handshake.Delivery.{IsGranted, deliver_pake1, deliver_pake3}
use go_matter.Commissioning.Handshake.Turns.{pake1-turn}
use go_matter.Commissioning.Handshake.Outcome.{installed}

-- A device that never got a request, and so has no session id yet, accepts Pake1 and then Pake3 of
-- a peer that computed both over the empty parameter messages: it reaches the complete state with
-- a session under the id 0, which is the id of unsecured messages.
pub unrequested-Complete :
    (suite : Suite) (d : Commissionee) (w1 ra : Bytes) (r r' : Randomness) (g : IsGranted r)
    (run : Sides suite.curve suite.hashes d.w0 w1 d.l (pase_context [] []) ra g.scalar)
    (f h : Frame) (ex m ex' m' : ℕ)
    → d.session_id ≡ 0
    → d.exchange_id < 2 ^ 16
    → d.request_payload ≡ []
    → d.response_payload ≡ []
    → Delivers f ex m opcode_pase_pake1 pake1 (run.pa, tt)
    → Delivers h ex' m' opcode_pase_pake3 pake3 (run.keys.ca, tt)
    → (out : Frame) × (d' d'' : Commissionee) × (t : Session) × (to_device suite r d f
        ≡ ok (d', some out))
      × (to_device suite r' d' h ≡ ok (d'', none))
      × (d''.state ≡ State.complete)
      × (session d''.session_manager unsecured_session_id ≡ some t)
unfolding session install_secure_session
unrequested-Complete suite d w1 ra r r' g run f h ex m ex' m' id word req resp first last =
    let same : pase_context d.request_payload d.response_payload ≡ pase_context [] [] =
      rw (req, resp) in
    let (n, out, sent, _) = pake1-turn suite d f r g ex m w1 _ ra run same first word in
    let d' = verifying d run.v'' n in
    let (keys, install, _, _) =
      installed suite.hashes.kdf run.keys.ke (rw run.ke_size (omega arith)) in
    let done =
      pake3-handled suite d' h run.keys.ca run.keys.ke run.v'' _ refl last.decoded run.ca_checked
        run.verifier_key (install d.session_manager d.session_id responder) in
    (
      out,
      d',
      device_done d' run.keys.ke
          (install_secure_session d.session_manager d.session_id 0 0 keys responder),
      new_session d.session_id 0 0 keys responder,
      rw (deliver_pake1 suite r f _ _ d _ first, sent),
      deliver_pake3 suite r' h _ _ d' _ last _ done,
      refl,
      rw id,
    )
