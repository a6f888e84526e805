-- ===== src/Commissioning/Handshake/Turns.antt =====
-- The turns of the handshake: a frame that delivers a message makes the side send the next one.
use go_matter.Base.{
  ℕ, ◌^◌, ◌<◌, ◌≤◌, ◌≡◌, refl, arith, false, ◌==◌, if◌then◌else◌, length, some, ok,
}
use go_matter.Base.Bytes.{Bytes}
use go_matter.Base.Int.{pos}
use go_matter.Message.Frame.{Frame}
use go_matter.Tlv.Decoder.{El, view}
use go_matter.Crypto.Pbkdf.{spake2p_w0_w1_from_passcode}
use go_matter.Crypto.Spake.Sides.{Sides}
use go_matter.Session.Manager.{SessionManager, initiator}
use go_matter.Commissioning.Messages.{
  pbkdf_param_request, pbkdf_param_response, pake1, pake2, pake3,
}
use go_matter.Commissioning.Opcodes.{
  opcode_pbkdf_param_request, opcode_pbkdf_param_response, opcode_pase_pake1, opcode_pase_pake2,
  opcode_pase_pake3,
}
use go_matter.Commissioning.Pase.{Suite, Randomness, pase_context, install_pase_session}
use go_matter.Commissioning.Commissioner
use go_matter.Commissioning.Commissioner.{Commissioner}
use go_matter.Commissioning.Commissionee
use go_matter.Commissioning.Commissionee.{Commissionee}
use go_matter.Commissioning.Frames.{Delivers, initiator_frame-Delivers, responder_frame-Delivers}
use go_matter.Commissioning.Fitting.{
  pbkdf_param_request-Fits, pbkdf_param_response-Fits, pake1-Fits, pake2-Fits, pake3-Fits,
}
use go_matter.Commissioning.Handshake.Steps.{
  starting, started, start_pase-sends, requested, responded, request-answered, informed, proving,
  response-answered, verifying, pake1-answered, controller_done, pake2-answered,
}
use go_matter.Commissioning.Handshake.Delivery.{IsGranted, bump_counter_ok}

pub default_word :
    (id default : ℕ) → id < 2 ^ 16 → default < 2 ^ 16 → (if id == 0 then default else id) < 2 ^ 16
default_word id default h k = ground arith

pub start-turn :
    (c : Commissioner) (passcode : ℕ) (r : Randomness) (g : IsGranted r)
    → c.session_id < 2 ^ 16
    → c.exchange_id < 2 ^ 16
    → let c' = starting c passcode g.nonce in
      (n : ℕ) × (f : Frame) × (Commissioner.start_pase passcode r c
        ≡ (started c' n f.payload, ok f))
      × Delivers f c'.exchange_id n opcode_pbkdf_param_request pbkdf_param_request
          (g.nonce, (c'.session_id, (0, (false, (0, tt)))))
unfolding view
start-turn c passcode r g hs hx =
    let (n, bumped, small) = bump_counter_ok c.message_counter r g in
    let c' = starting c passcode g.nonce in
    let fits =
      pbkdf_param_request-Fits g.nonce c'.session_id 0 false 0 (rw g.nonce_size (omega arith))
        (default_word c.session_id 12345 hs (omega arith)) (omega arith) (omega arith) in
    let (f, built, h) =
      initiator_frame-Delivers c'.exchange_id n opcode_pbkdf_param_request 0 _ _
        (default_word c.exchange_id 1 hx (omega arith)) small (omega arith) refl (omega arith) fits
        (rw g.nonce_size (omega arith)) in
    (n, f, start_pase-sends c passcode r g.nonce n f g.nonce_drawn bumped built, h)

pub request-turn :
    (d : Commissionee) (f : Frame) (r : Randomness) (g : IsGranted r) (ex m : ℕ) (random : Bytes)
    (id : ℕ)
    → let message : El pbkdf_param_request = (random, (id, (0, (false, (0, tt))))) in
      let d' = requested d f message g.nonce in
      Delivers f ex m opcode_pbkdf_param_request pbkdf_param_request message
      → length random ≡ 32
      → d.session_id < 2 ^ 16
      → d.iterations < 2 ^ 32
      → length d.salt ≤ 1024
      → (n : ℕ) × (out : Frame) × (Commissionee.handle_pbkdf_param_request f r d
          ≡ (responded d' n out.payload, ok out))
        × Delivers out f.payload_header.exchange_id n opcode_pbkdf_param_response
            pbkdf_param_response
            (random, (g.nonce, (d'.session_id, (some (d.iterations, (d.salt, tt)), tt))))
unfolding view
request-turn d f r g ex m random id h size hs hi hl =
    let (n, bumped, small) = bump_counter_ok d.message_counter r g in
    let d' = requested d f (random, (id, (0, (false, (0, tt))))) g.nonce in
    let fits =
      pbkdf_param_response-Fits random g.nonce d'.session_id (some (d.iterations, (d.salt, tt)))
        (rw size (omega arith)) (rw g.nonce_size (omega arith))
        (default_word d.session_id 23456 hs (omega arith)) (hi, omega arith) in
    let (out, built, next) =
      responder_frame-Delivers f.payload_header.exchange_id n opcode_pbkdf_param_response
        f.header.message_counter _ _ h.canonical.payload_header.exchange_word small (omega arith)
        refl h.canonical.header.counter_word fits (rw (size, g.nonce_size) (omega arith)) in
    (
      n,
      out,
      request-answered d f r random id 0 false 0 g.nonce n out h.decoded g.nonce_drawn bumped built,
      next,
    )

module _ (suite : Suite) where
  pub response-turn :
      (c : Commissioner) (f : Frame) (r : Randomness) (g : IsGranted r) (ex m : ℕ) (random : Bytes)
      (id iterations : ℕ) (salt w0 w1 l rb : Bytes)
      → Delivers f ex m opcode_pbkdf_param_response pbkdf_param_response
          (c.random, (random, (id, (some (iterations, (salt, tt)), tt))))
      → spake2p_w0_w1_from_passcode suite.pbkdf2 suite.curve c.passcode salt (pos iterations)
        ≡ ok (w0, w1)
      → (run : Sides suite.curve suite.hashes w0 w1 l
          (pase_context c.request_payload f.payload)
          g.scalar
          rb)
      → c.exchange_id < 2 ^ 16
      → (n : ℕ) × (out : Frame) × (Commissioner.handle_pbkdf_param_response suite f r c
          ≡ (proving (informed c f random id iterations salt) run.p' n, ok out))
        × Delivers out c.exchange_id n opcode_pase_pake1 pake1 (run.pa, tt)
  unfolding view
  response-turn c f r g ex m random id iterations salt w0 w1 l rb h scalars run hx =
      let (n, bumped, small) = bump_counter_ok c.message_counter r g in
      let (out, built, next) =
        initiator_frame-Delivers c.exchange_id n opcode_pase_pake1 f.header.message_counter _ _ hx
          small (omega arith) refl h.canonical.header.counter_word
          (pake1-Fits run.pa (rw run.pa_size (omega arith))) (rw run.pa_size (omega arith)) in
      (
        n,
        out,
        response-answered suite c f r random id iterations salt w0 w1 run.pa run.p run.p' n out
            h.decoded scalars run.prover_made (rw g.scalar_drawn run.pa_shared) bumped built,
        next,
      )

  pub pake1-turn :
      (d : Commissionee) (f : Frame) (r : Randomness) (g : IsGranted r) (ex m : ℕ)
      (w1 context ra : Bytes) (run : Sides suite.curve suite.hashes d.w0 w1 d.l context ra g.scalar)
      → pase_context d.request_payload d.response_payload ≡ context
      → Delivers f ex m opcode_pase_pake1 pake1 (run.pa, tt)
      → d.exchange_id < 2 ^ 16
      → (n : ℕ) × (out : Frame) × (Commissionee.handle_pake1 suite f r d
          ≡ (verifying d run.v'' n, ok out))
        × Delivers out d.exchange_id n opcode_pase_pake2 pake2 (run.pb, (run.keys.cb, tt))
  unfolding view
  pake1-turn d f r g ex m w1 context ra run same h hx =
      let (n, bumped, small) = bump_counter_ok d.message_counter r g in
      let fits =
        pake2-Fits run.pb run.keys.cb (rw run.pb_size (omega arith))
          (rw run.cb_size (omega arith)) in
      let (out, built, next) =
        responder_frame-Delivers d.exchange_id n opcode_pase_pake2 f.header.message_counter _ _ hx
          small (omega arith) refl h.canonical.header.counter_word fits
          (rw (run.pb_size, run.cb_size) (omega arith)) in
      (
        n,
        out,
        pake1-answered suite d f r run.pa run.pb run.keys.cb run.v run.v' run.v'' n out h.decoded
            (rw same run.verifier_made) (rw g.scalar_drawn run.pb_shared) run.verifier_done
            run.cb_given bumped built,
        next,
      )

  pub pake2-turn :
      (c : Commissioner) (f : Frame) (r : Randomness) (g : IsGranted r) (ex m : ℕ)
      (w0 w1 l context ra rb : Bytes) (run : Sides suite.curve suite.hashes w0 w1 l context ra rb)
      (sm : SessionManager)
      → c.prover ≡ some run.p'
      → Delivers f ex m opcode_pase_pake2 pake2 (run.pb, (run.keys.cb, tt))
      → install_pase_session suite.hashes.kdf c.session_manager c.session_id run.keys.ke initiator
        ≡ ok sm
      → c.exchange_id < 2 ^ 16
      → (n : ℕ) × (out : Frame) × (Commissioner.handle_pake2 suite f r c
          ≡ (controller_done c run.p'' run.keys.ke sm n, ok out))
        × Delivers out c.exchange_id n opcode_pase_pake3 pake3 (run.keys.ca, tt)
  unfolding view
  pake2-turn c f r g ex m w0 w1 l context ra rb run sm kept h installed hx =
      let (n, bumped, small) = bump_counter_ok c.message_counter r g in
      let (out, built, next) =
        initiator_frame-Delivers c.exchange_id n opcode_pase_pake3 f.header.message_counter _ _ hx
          small (omega arith) refl h.canonical.header.counter_word
          (pake3-Fits run.keys.ca (rw run.ca_size (omega arith))) (rw run.ca_size (omega arith)) in
      (
        n,
        out,
        pake2-answered suite c f r run.pb run.keys.cb run.keys.ca run.keys.ke run.p' run.p'' sm n
            out kept h.decoded run.prover_done run.cb_checked run.ca_given run.prover_key installed
            bumped built,
        next,
      )
