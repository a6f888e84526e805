-- ===== src/Commissioning/Commissioner.antt =====
-- commissioning/commissioner.go: the controller's side. The frame that a method hands to `send`,
-- always the last thing that it does, is its result. The session manager behind the pointer is
-- kept in the record; nothing else uses it during the handshake.
use go_matter.Base.{ℕ, false, not, [], ◌==◌, if◌then◌else◌, Option, none, some, Result, ok, err}
use go_matter.Base.Bytes.{Bytes, equal}
use go_matter.Base.Int.{pos}
use go_matter.Message.Frame.{Frame}
use go_matter.Message.Builder
use go_matter.Message.Builder.{Builder}
use go_matter.Tlv.Encoder
use go_matter.Tlv.Decoder.{view}
use go_matter.Tlv.Payload.{decode_payload}
use go_matter.Crypto.Pbkdf.{spake2p_w0_w1_from_passcode}
use go_matter.Crypto.Spake.Prover
use go_matter.Crypto.Spake.Prover.{Prover}
use go_matter.Session.Manager.{SessionManager, initiator}
use go_matter.Commissioning.Messages.{
  pbkdf_param_request, pbkdf_param_response, pake1, pake2, pake3,
}
use go_matter.Commissioning.Opcodes.{
  protocol_secure_channel, opcode_pbkdf_param_request, opcode_pbkdf_param_response,
  opcode_pase_pake1, opcode_pase_pake2, opcode_pase_pake3,
}
use go_matter.Commissioning.Handler.{Handler, ◌>>=◌, ◌>>◌, return, fail, get, modify, call, refuse}
use go_matter.Commissioning.Pase.{
  Suite, State, Error, Randomness, pase_context, drawn, bump_counter, install_pase_session,
  acknowledge, or_zeros,
}

pub record Commissioner : Type 0 where
  pub state : State
  pub session_manager : SessionManager
  pub passcode : ℕ
  pub random : Bytes
  pub session_id : ℕ
  pub exchange_id : ℕ
  pub message_counter : ℕ
  pub request_payload : Bytes
  pub response_payload : Bytes
  pub responder_random : Bytes
  pub responder_session_id : ℕ
  pub salt : Bytes
  pub iterations : ℕ
  pub ke : Bytes
  pub prover : Option Prover

abbrev pub Method : Type 0 → Type 0
Method A = Handler Error Commissioner A

-- `NewCommissioner`; none is the panic on a nil session manager.
unfoldable pub new_commissioner : Option SessionManager → Option Commissioner
new_commissioner none = none
new_commissioner (some sm) = some (record {
  state = State.idle;
  session_manager = sm;
  passcode = 0;
  random = [];
  session_id = 0;
  exchange_id = 0;
  message_counter = 0;
  request_payload = [];
  response_payload = [];
  responder_random = [];
  responder_session_id = 0;
  salt = [];
  iterations = 0;
  ke = [];
  prover = none;
})

-- The frame of `buildFrame`, for the counter that was bumped.
unfoldable pub initiator_frame :
    (exchange counter opcode ack : ℕ) → Encoder.Value → Result (Builder.Error Encoder.Error) Frame
initiator_frame exchange counter opcode ack v =
    let b = Builder.unsecured Builder.new_builder in
    let b = Builder.opcode opcode (Builder.protocol protocol_secure_channel b) in
    let b = Builder.message_counter counter (Builder.exchange_id exchange b) in
    let b = Builder.request_ack (Builder.initiator b) in
    let b = Builder.payload Encoder.marshal (Builder.value v) b in Builder.build (acknowledge ack b)

-- `Commissioner.buildFrame`
unfoldable pub build_frame : (opcode ack : ℕ) → Encoder.Value → Option Bytes → Method Frame
build_frame opcode ack v seed = do
  counter ← get λ c. c.message_counter
  counter ← call (λ e. e) (bump_counter counter seed)
  modify λ c. record c { message_counter = counter }
  exchange ← get λ c. c.exchange_id
  call Error.build (initiator_frame exchange counter opcode ack v)

-- The request, in a pointer as the code passes it.
abbrev pub request : Commissioner → Encoder.Value
request c =
    Encoder.pointer (view pbkdf_param_request (c.random, (c.session_id, (0, (false, (0, tt))))))

-- `Commissioner.StartPASE`
unfoldable pub start_pase : ℕ → Randomness → Method Frame
start_pase passcode r = do
  modify λ c. record c { passcode = passcode; random = or_zeros r.nonce }
  call (λ e. e) (drawn (λ b. b) r.nonce)
  modify λ c. record c { session_id = if c.session_id == 0 then 12345 else c.session_id }
  modify λ c. record c { exchange_id = if c.exchange_id == 0 then 1 else c.exchange_id }
  message ← get request
  frame ← build_frame opcode_pbkdf_param_request 0 message r.seed
  modify λ c. record c { request_payload = frame.payload; state = State.pase_pbkdf_param_response }
  return frame

module _ (suite : Suite) where
  abbrev pub kept_prover : {E : Type 0} → Result E Prover → Option Prover
  kept_prover (ok p) = some p
  kept_prover (err e) = none

  -- `Commissioner.sendPake1`
  unfoldable pub send_pake1 : ℕ → Randomness → Method Frame
  send_pake1 ack r = do
    c ← get λ c. c
    (w0, w1) ←
        call Error.derive_scalars (
          spake2p_w0_w1_from_passcode suite.pbkdf2 suite.curve c.passcode c.salt (pos c.iterations))
    let made = Prover.new_prover w0 w1 (pase_context c.request_payload c.response_payload)
    modify λ c. record c { prover = kept_prover made }
    prover ← call Error.new_prover made
    (prover, pa) ←
        call Error.compute_pa (Prover.compute_pa suite.curve suite.hashes prover r.scalar)
    modify λ c. record c { prover = some prover }
    frame ← build_frame opcode_pase_pake1 ack (Encoder.pointer (view pake1 (pa, tt))) r.seed
    modify λ c. record c { state = State.pase_pake2 }
    return frame

  abbrev pub params_of : {A : Type 0} → Option A → Method A
  params_of none = fail Error.missing_parameters
  params_of (some params) = return params

  -- `Commissioner.handlePBKDFParamResponse`
  unfoldable pub handle_pbkdf_param_response : Frame → Randomness → Method Frame
  handle_pbkdf_param_response frame r = do
    (echo, (random, (session_id, (params, _)))) ←
        call Error.decode (decode_payload pbkdf_param_response frame.payload)
    own ← get λ c. c.random
    refuse (not (equal echo own)) Error.wrong_random
    (iterations, (salt, _)) ← params_of params
    modify λ c. record c {
      responder_random = random;
      responder_session_id = session_id;
      salt = salt;
      iterations = iterations;
      response_payload = frame.payload;
    }
    send_pake1 frame.header.message_counter r

  abbrev pub current_prover : Option Prover → Method Prover
  current_prover none = fail Error.pake2_before_pake1
  current_prover (some p) = return p

  abbrev pub or_nil : {E : Type 0} → Result E Bytes → Bytes
  or_nil (ok b) = b
  or_nil (err e) = []

  -- `Commissioner.handlePake2`
  unfoldable pub handle_pake2 : Frame → Randomness → Method Frame
  handle_pake2 frame r = do
    kept ← get λ c. c.prover
    prover ← current_prover kept
    (pb, (cb, _)) ← call Error.decode (decode_payload pake2 frame.payload)
    let finalized = Prover.finalize suite.curve suite.hashes prover pb
    let prover = finalized.0
    modify λ c. record c { prover = some prover }
    call Error.finalize finalized.1
    call Error.verify (Prover.verify_confirmation_b prover cb)
    ca ← call Error.spake (Prover.confirmation_a prover)
    modify λ c. record c { ke = or_nil (Prover.shared_key prover) }
    ke ← call Error.spake (Prover.shared_key prover)
    c ← get λ c. c
    sm ←
        call (λ e. e)
          (install_pase_session suite.hashes.kdf c.session_manager c.session_id ke initiator)
    modify λ c. record c { session_manager = sm }
    out ←
        build_frame opcode_pase_pake3 frame.header.message_counter
          (Encoder.pointer (view pake3 (ca, tt))) r.seed
    modify λ c. record c { state = State.complete }
    return out

  -- `Commissioner.HandleMessage`
  unfoldable pub handle_message : Frame → Randomness → Method Frame
  handle_message frame r =
      let opcode = frame.payload_header.opcode in
      if opcode == opcode_pbkdf_param_response
      then handle_pbkdf_param_response frame r
      else if opcode == opcode_pase_pake2
      then handle_pake2 frame r
      else fail (Error.unexpected_opcode opcode)

-- `Commissioner.StartCASE`, a stub.
unfoldable pub start_case : ℕ → Method (Unit {0})
start_case node_id = modify λ c. record c { state = State.case }
