-- ===== src/Commissioning/Commissionee.antt =====
-- commissioning/commissionee.go: the device's side, modelled as the controller's.
use go_matter.Base.{
  ℕ, ◌-◌, ◌%◌, ◌^◌, Bool, true, false, [], ◌==◌, if◌then◌else◌, Option, none, some, Result, ok, err,
}
use go_matter.Base.Bytes.{Bytes}
use go_matter.Base.Int.{ℤ, pos, negsuc}
use go_matter.Message.Frame.{Frame}
use go_matter.Message.Builder
use go_matter.Message.Builder.{Builder}
use go_matter.Tlv.Encoder
use go_matter.Tlv.Decoder.{El, view}
use go_matter.Tlv.Payload.{decode_payload}
use go_matter.Crypto.Spake.Group
use go_matter.Crypto.Pbkdf.{compute_spake2p_verifier_data}
use go_matter.Crypto.Spake.Verifier
use go_matter.Crypto.Spake.Verifier.{Verifier}
use go_matter.Session.Manager.{SessionManager, responder}
use go_matter.Commissioning.Messages.{
  pbkdf_param_request, pbkdf_param_set, pbkdf_param_response, pake1, pake2, pake3,
}
use go_matter.Commissioning.Opcodes.{
  protocol_secure_channel, opcode_pbkdf_param_request, opcode_pbkdf_param_response,
  opcode_pase_pake1, opcode_pase_pake2, opcode_pase_pake3,
}
use go_matter.Commissioning.Handler.{Handler, ◌>>=◌, ◌>>◌, return, fail, get, modify, call}
use go_matter.Commissioning.Pase.{
  Suite, State, Error, Randomness, pase_context, drawn, bump_counter, install_pase_session,
  acknowledge, or_zeros,
}

pub record Commissionee : Type 0 where
  pub state : State
  pub salt : Bytes
  pub iterations : ℕ
  pub w0 : Bytes
  pub l : Bytes
  pub random : Bytes
  pub session_manager : SessionManager
  pub session_id : ℕ
  pub message_counter : ℕ
  pub initiator_random : Bytes
  pub initiator_session_id : ℕ
  pub exchange_id : ℕ
  pub request_payload : Bytes
  pub response_payload : Bytes
  pub ke : Bytes
  pub verifier : Option Verifier

abbrev pub Method : Type 0 → Type 0
Method A = Handler Error Commissionee A

-- `uint32(iterations)`
abbrev pub to_uint32 : ℤ → ℕ
to_uint32 (pos n) = n % 2 ^ 32
to_uint32 (negsuc n) = 2 ^ 32 - 1 - n % 2 ^ 32

abbrev pub commissionee_with :
    Bytes → ℤ → SessionManager → Result Group.Error (Bytes × Bytes) → Result Error Commissionee
commissionee_with salt iterations sm (err e) = err (Error.derive_verifier e)
commissionee_with salt iterations sm (ok (w0, l)) = ok (record {
  state = State.idle;
  salt = salt;
  iterations = to_uint32 iterations;
  w0 = w0;
  l = l;
  random = [];
  session_manager = sm;
  session_id = 0;
  message_counter = 0;
  initiator_random = [];
  initiator_session_id = 0;
  exchange_id = 0;
  request_payload = [];
  response_payload = [];
  ke = [];
  verifier = none;
})

-- `NewCommissionee`
unfoldable pub new_commissionee :
    Suite → ℕ → Bytes → ℤ → Option SessionManager → Result Error Commissionee
unfolding compute_spake2p_verifier_data
new_commissionee suite passcode salt iterations none = err Error.no_session_manager
new_commissionee suite passcode salt iterations (some sm) =
    commissionee_with salt iterations sm
      (compute_spake2p_verifier_data suite.pbkdf2 suite.curve passcode salt iterations)

-- The frame of `buildFrame`, for the counter that was bumped.
unfoldable pub responder_frame :
    (exchange counter opcode ack : ℕ) → Encoder.Value → Result (Builder.Error Encoder.Error) Frame
responder_frame exchange counter opcode ack v =
    let b = Builder.unsecured Builder.new_builder in
    let b = Builder.opcode opcode (Builder.protocol protocol_secure_channel b) in
    let b = Builder.message_counter counter (Builder.exchange_id exchange b) in
    let b = Builder.payload Encoder.marshal (Builder.value v) (Builder.request_ack b) in
    Builder.build (acknowledge ack b)

-- `Commissionee.buildFrame`
unfoldable pub build_frame : (opcode ack : ℕ) → Encoder.Value → Option Bytes → Method Frame
build_frame opcode ack v seed = do
  counter ← get λ c. c.message_counter
  counter ← call (λ e. e) (bump_counter counter seed)
  modify λ c. record c { message_counter = counter }
  exchange ← get λ c. c.exchange_id
  call Error.build (responder_frame exchange counter opcode ack v)

-- The parameters that the response carries: none if the initiator has them.
abbrev pub params : Commissionee → Bool → Option (El pbkdf_param_set)
params c true = none
params c false = some (c.iterations, (c.salt, tt))

abbrev pub response : Bool → Commissionee → Encoder.Value
response has_params c = Encoder.pointer (
    view pbkdf_param_response
      (c.initiator_random, (c.random, (c.session_id, (params c has_params, tt)))))

-- `Commissionee.handlePBKDFParamRequest`
unfoldable pub handle_pbkdf_param_request : Frame → Randomness → Method Frame
handle_pbkdf_param_request frame r = do
  (random, (session_id, (_, (has_params, _)))) ←
      call Error.decode (decode_payload pbkdf_param_request frame.payload)
  modify λ c. record c {
    initiator_random = random;
    initiator_session_id = session_id;
    exchange_id = frame.payload_header.exchange_id;
    request_payload = frame.payload;
    random = or_zeros r.nonce;
  }
  call (λ e. e) (drawn (λ b. b) r.nonce)
  modify λ c. record c { session_id = if c.session_id == 0 then 23456 else c.session_id }
  message ← get (response has_params)
  out ← build_frame opcode_pbkdf_param_response frame.header.message_counter message r.seed
  modify λ c. record c { response_payload = out.payload; state = State.pase_pake1 }
  return out

module _ (suite : Suite) where
  -- `Commissionee.handlePake1`
  unfoldable pub handle_pake1 : Frame → Randomness → Method Frame
  handle_pake1 frame r = do
    (pa, _) ← call Error.decode (decode_payload pake1 frame.payload)
    c ← get λ c. c
    verifier ← call Error.new_verifier (
        Verifier.new_verifier suite.curve suite.hashes c.w0 c.l
          (pase_context c.request_payload c.response_payload))
    let shared = Verifier.compute_pb suite.curve suite.hashes verifier pa r.scalar
    pb ← call Error.compute_pb shared.1
    verifier ← call Error.finalize (Verifier.finalize suite.curve suite.hashes shared.0)
    cb ← call Error.spake (Verifier.confirmation_b verifier)
    modify λ c. record c { verifier = some verifier }
    out ←
        build_frame opcode_pase_pake2 frame.header.message_counter
          (Encoder.pointer (view pake2 (pb, (cb, tt)))) r.seed
    modify λ c. record c { state = State.pase_pake3 }
    return out

  abbrev pub current_verifier : Option Verifier → Method Verifier
  current_verifier none = fail Error.pake3_before_pake1
  current_verifier (some v) = return v

  -- `Commissionee.handlePake3`
  unfoldable pub handle_pake3 : Frame → Method (Unit {0})
  handle_pake3 frame = do
    kept ← get λ c. c.verifier
    verifier ← current_verifier kept
    (ca, _) ← call Error.decode (decode_payload pake3 frame.payload)
    call Error.verify (Verifier.verify_confirmation_a verifier ca)
    ke ← call Error.spake (Verifier.shared_key verifier)
    modify λ c. record c { ke = ke }
    c ← get λ c. c
    sm ←
        call (λ e. e)
          (install_pase_session suite.hashes.kdf c.session_manager c.session_id ke responder)
    modify λ c. record c { session_manager = sm; state = State.complete }

  -- A handler that sends a frame.
  abbrev pub sending : Method Frame → Method (Option Frame)
  sending m = do frame ← m; return (some frame)

  -- `Commissionee.HandleMessage`: the frame that is sent, if one is.
  unfoldable pub handle_message : Frame → Randomness → Method (Option Frame)
  handle_message frame r =
      let opcode = frame.payload_header.opcode in
      if opcode == opcode_pbkdf_param_request
      then sending (handle_pbkdf_param_request frame r)
      else if opcode == opcode_pase_pake1
      then sending (handle_pake1 frame r)
      else if opcode == opcode_pase_pake3
      then (do handle_pake3 frame; return none)
      else fail (Error.unexpected_opcode opcode)
