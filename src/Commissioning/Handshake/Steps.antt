-- ===== src/Commissioning/Handshake/Steps.antt =====
-- What each handler does when nothing fails.
use go_matter.Base.{ℕ, ◌≡◌, Bool, ◌==◌, if◌then◌else◌, some, ok}
use go_matter.Base.Bytes.{Bytes, equal_self}
use go_matter.Base.Int.{pos}
use go_matter.Message.Frame.{Frame}
use go_matter.Tlv.Encoder
use go_matter.Tlv.Decoder.{El, view}
use go_matter.Tlv.Payload.{decode_payload}
use go_matter.Crypto.Pbkdf.{spake2p_w0_w1_from_passcode}
use go_matter.Crypto.Spake.Prover
use go_matter.Crypto.Spake.Prover.{Prover}
use go_matter.Crypto.Spake.Verifier
use go_matter.Crypto.Spake.Verifier.{Verifier}
use go_matter.Session.Manager.{SessionManager, initiator, responder}
use go_matter.Commissioning.Messages.{
  pbkdf_param_request, pbkdf_param_response, pake1, pake2, pake3,
}
use go_matter.Commissioning.Opcodes.{
  opcode_pbkdf_param_request, opcode_pbkdf_param_response, opcode_pase_pake1, opcode_pase_pake2,
  opcode_pase_pake3,
}
use go_matter.Commissioning.Pase.{
  Suite, State, Randomness, pase_context, bump_counter, install_pase_session,
}
use go_matter.Commissioning.Commissioner
use go_matter.Commissioning.Commissioner.{Commissioner, initiator_frame, request}
use go_matter.Commissioning.Commissionee
use go_matter.Commissioning.Commissionee.{Commissionee, responder_frame, response}

-- The controller before it sends the request.
abbrev pub starting : Commissioner → ℕ → Bytes → Commissioner
starting c passcode nonce = record c {
  passcode = passcode;
  random = nonce;
  session_id = if c.session_id == 0 then 12345 else c.session_id;
  exchange_id = if c.exchange_id == 0 then 1 else c.exchange_id;
}

abbrev pub started : Commissioner → ℕ → Bytes → Commissioner
started c n payload = record c {
  message_counter = n;
  request_payload = payload;
  state = State.pase_pbkdf_param_response;
}

pub start_pase-sends :
    (c : Commissioner) (passcode : ℕ) (r : Randomness) (nonce : Bytes) (n : ℕ) (f : Frame)
    → r.nonce ≡ some nonce
    → bump_counter c.message_counter r.seed ≡ ok n
    → initiator_frame
        (starting c passcode nonce).exchange_id
        n
        opcode_pbkdf_param_request
        0
        (request (starting c passcode nonce))
      ≡ ok f
    → Commissioner.start_pase passcode r c ≡ (started (starting c passcode nonce) n f.payload, ok f)
unfolding Commissioner.start_pase Commissioner.build_frame
start_pase-sends c passcode r nonce n f drawn bumped built = rw (drawn, bumped, built)

-- The device once it has read a request.
abbrev pub requested : Commissionee → Frame → El pbkdf_param_request → Bytes → Commissionee
requested d f (random, (id, _)) nonce = record d {
  initiator_random = random;
  initiator_session_id = id;
  exchange_id = f.payload_header.exchange_id;
  request_payload = f.payload;
  random = nonce;
  session_id = if d.session_id == 0 then 23456 else d.session_id;
}

abbrev pub responded : Commissionee → ℕ → Bytes → Commissionee
responded d n payload = record d {
  message_counter = n;
  response_payload = payload;
  state = State.pase_pake1;
}

pub request-answered :
    (d : Commissionee) (f : Frame) (r : Randomness) (random : Bytes) (id passcode_id : ℕ)
    (has_params : Bool) (node_id : ℕ) (nonce : Bytes) (n : ℕ) (out : Frame)
    → let message : El pbkdf_param_request =
        (random, (id, (passcode_id, (has_params, (node_id, tt))))) in
      let d' = requested d f message nonce in
      decode_payload pbkdf_param_request f.payload ≡ ok message
      → r.nonce ≡ some nonce
      → bump_counter d.message_counter r.seed ≡ ok n
      → responder_frame d'.exchange_id n opcode_pbkdf_param_response f.header.message_counter
          (response has_params d')
        ≡ ok out
      → Commissionee.handle_pbkdf_param_request f r d ≡ (responded d' n out.payload, ok out)
unfolding Commissionee.handle_pbkdf_param_request Commissionee.build_frame
request-answered d f r random id passcode_id has_params node_id nonce n out decoded drawn bumped
      built =
    rw (decoded, drawn, bumped, built)

-- The controller once it has read the parameters.
abbrev pub informed : Commissioner → Frame → Bytes → ℕ → ℕ → Bytes → Commissioner
informed c f random id iterations salt = record c {
  responder_random = random;
  responder_session_id = id;
  salt = salt;
  iterations = iterations;
  response_payload = f.payload;
}

abbrev pub proving : Commissioner → Prover → ℕ → Commissioner
proving c p n = record c { prover = some p; message_counter = n; state = State.pase_pake2 }

-- The device once it has sent its share.
abbrev pub verifying : Commissionee → Verifier → ℕ → Commissionee
verifying d v n = record d { verifier = some v; message_counter = n; state = State.pase_pake3 }

abbrev pub controller_done : Commissioner → Prover → Bytes → SessionManager → ℕ → Commissioner
controller_done c p ke sm n = record c {
  prover = some p;
  ke = ke;
  session_manager = sm;
  message_counter = n;
  state = State.complete;
}

abbrev pub device_done : Commissionee → Bytes → SessionManager → Commissionee
device_done d ke sm = record d { ke = ke; session_manager = sm; state = State.complete }

module _ (suite : Suite) where
  pub response-answered :
      (c : Commissioner) (f : Frame) (r : Randomness) (random : Bytes) (id iterations : ℕ)
      (salt w0 w1 pa : Bytes) (p p' : Prover) (n : ℕ) (out : Frame)
      → decode_payload pbkdf_param_response f.payload
        ≡ ok (c.random, (random, (id, (some (iterations, (salt, tt)), tt))))
      → spake2p_w0_w1_from_passcode suite.pbkdf2 suite.curve c.passcode salt (pos iterations)
        ≡ ok (w0, w1)
      → Prover.new_prover w0 w1 (pase_context c.request_payload f.payload) ≡ ok p
      → Prover.compute_pa suite.curve suite.hashes p r.scalar ≡ ok (p', pa)
      → bump_counter c.message_counter r.seed ≡ ok n
      → initiator_frame c.exchange_id n opcode_pase_pake1 f.header.message_counter
          (Encoder.pointer (view pake1 (pa, tt)))
        ≡ ok out
      → Commissioner.handle_pbkdf_param_response suite f r c
        ≡ (proving (informed c f random id iterations salt) p' n, ok out)
  unfolding Commissioner.handle_pbkdf_param_response Commissioner.send_pake1
      Commissioner.build_frame
  response-answered c f r random id iterations salt w0 w1 pa p p' n out decoded derived made shared
        bumped built =
      rw (decoded, equal_self c.random, derived, made, shared, bumped, built)

  pub pake1-answered :
      (d : Commissionee) (f : Frame) (r : Randomness) (pa pb cb : Bytes) (v v' v'' : Verifier)
      (n : ℕ) (out : Frame)
      → decode_payload pake1 f.payload ≡ ok (pa, tt)
      → Verifier.new_verifier suite.curve suite.hashes d.w0 d.l
          (pase_context d.request_payload d.response_payload)
        ≡ ok v
      → Verifier.compute_pb suite.curve suite.hashes v pa r.scalar ≡ (v', ok pb)
      → Verifier.finalize suite.curve suite.hashes v' ≡ ok v''
      → Verifier.confirmation_b v'' ≡ ok cb
      → bump_counter d.message_counter r.seed ≡ ok n
      → responder_frame d.exchange_id n opcode_pase_pake2 f.header.message_counter
          (Encoder.pointer (view pake2 (pb, (cb, tt))))
        ≡ ok out
      → Commissionee.handle_pake1 suite f r d ≡ (verifying d v'' n, ok out)
  unfolding Commissionee.handle_pake1 Commissionee.build_frame
  pake1-answered d f r pa pb cb v v' v'' n out decoded made shared done confirmed bumped built =
      rw (decoded, made, shared, done, confirmed, bumped, built)

  pub pake2-answered :
      (c : Commissioner) (f : Frame) (r : Randomness) (pb cb ca ke : Bytes) (p p' : Prover)
      (sm : SessionManager) (n : ℕ) (out : Frame)
      → c.prover ≡ some p
      → decode_payload pake2 f.payload ≡ ok (pb, (cb, tt))
      → Prover.finalize suite.curve suite.hashes p pb ≡ (p', ok tt)
      → Prover.verify_confirmation_b p' cb ≡ ok tt
      → Prover.confirmation_a p' ≡ ok ca
      → Prover.shared_key p' ≡ ok ke
      → install_pase_session suite.hashes.kdf c.session_manager c.session_id ke initiator ≡ ok sm
      → bump_counter c.message_counter r.seed ≡ ok n
      → initiator_frame c.exchange_id n opcode_pase_pake3 f.header.message_counter
          (Encoder.pointer (view pake3 (ca, tt)))
        ≡ ok out
      → Commissioner.handle_pake2 suite f r c ≡ (controller_done c p' ke sm n, ok out)
  unfolding Commissioner.handle_pake2 Commissioner.build_frame
  pake2-answered c f r pb cb ca ke p p' sm n out kept decoded done checked confirmed shared
        installed bumped built =
      rw (kept, decoded, done, checked, confirmed, shared, installed, bumped, built)

  pub pake3-handled :
      (d : Commissionee) (f : Frame) (ca ke : Bytes) (v : Verifier) (sm : SessionManager)
      → d.verifier ≡ some v
      → decode_payload pake3 f.payload ≡ ok (ca, tt)
      → Verifier.verify_confirmation_a v ca ≡ ok tt
      → Verifier.shared_key v ≡ ok ke
      → install_pase_session suite.hashes.kdf d.session_manager d.session_id ke responder ≡ ok sm
      → Commissionee.handle_pake3 suite f d ≡ (device_done d ke sm, ok tt)
  unfolding Commissionee.handle_pake3
  pake3-handled d f ca ke v sm kept decoded checked shared installed =
      rw (kept, decoded, checked, shared, installed)
