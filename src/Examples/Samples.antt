-- ===== src/Examples/Samples.antt =====
-- samples/commissioning/: the two programs over the toy group.
use go_matter.Base.{ℕ, ◌≡◌, refl, arith, List, [], ◌∷◌, ◌++◌, some, ok, replicate, ◌⊎◌}
use go_matter.Base.Bytes.{Bytes}
use go_matter.Base.Int.{pos}
use go_matter.Crypto.BigInt.{set_bytes_from, to_bytes, put_be}
use go_matter.Crypto.Pbkdf.{spake2p_w0_w1_from_passcode}
use go_matter.Crypto.Spake.Prover.{share_pa}
use go_matter.Crypto.Spake.Verifier.{share_pb}
use go_matter.Commissioning.Pase.{Randomness}
use go_matter.Commissioning.Commissioner.{Commissioner, new_commissioner}
use go_matter.Commissioning.Commissionee.{new_commissionee}
use go_matter.Commissioning.Handshake.Outcome.{Established}
use go_matter.Samples.Controller
use go_matter.Samples.Controller.{Controller}
use go_matter.Samples.Device
use go_matter.Samples.Device.{Device}
use go_matter.Samples.Network.{Host, controller_host, device_host, turns}
use go_matter.Samples.Complete.{samples-Established}
use go_matter.Samples.Replies.{Answers, device_main-Answers}
use go_matter.Session.Manager.{Session, new_session_manager}
use go_matter.Samples.Safety.{
  DeviceInstalled, ControllerInstalled, device_main-InstalledBy, controller_main-InstalledBy,
}
use go_matter.Examples.Parameters.{toy_curve, toy_pbkdf}
use go_matter.Examples.Commissioning.{toy_suite, toy_draws, toy_granted}

abbrev controller_draws : ℕ → Randomness
controller_draws n = toy_draws 1

abbrev device_draws : ℕ → Randomness
device_draws n = toy_draws 2

sample_scalars :
    spake2p_w0_w1_from_passcode toy_pbkdf toy_curve 12345678 Device.salt (pos 1000)
    ≡ ok (2 ∷ [], 3 ∷ [])
unfolding spake2p_w0_w1_from_passcode set_bytes_from to_bytes put_be
sample_scalars = refl

samples-Established_example :
    (c : Controller Host) × (d : Device Host) × (Controller.main toy_suite controller_draws
        device_host [] []
      ≡ some c)
    × (Device.main toy_suite device_draws [] ≡ ok d)
    × let net =
        turns toy_suite controller_draws device_draws
          (device_host ∷ controller_host ∷ device_host ∷ controller_host ∷ device_host ∷ [])
          (c, d) in
      Established net.0.commissioner net.1.commissionee
unfolding set_bytes_from share_pa to_bytes share_pb
samples-Established_example =
    samples-Established toy_suite controller_draws device_draws (2 ∷ []) (3 ∷ [])
      (toy_granted 1 (omega arith)) (toy_granted 1 (omega arith)) (toy_granted 1 (omega arith))
      (toy_granted 2 (omega arith)) (toy_granted 2 (omega arith)) sample_scalars (omega arith)
      (omega arith) refl refl refl

-- A datagram that is too short, and a Pake3 that was not asked for.
abbrev stray : List (Bytes × Host)
stray =
    (1 ∷ [], controller_host)
    ∷ (0 ∷ 0 ∷ 0 ∷ 0 ∷ 1 ∷ 0 ∷ 0 ∷ 0 ∷ 5 ∷ 0x24 ∷ 1 ∷ 0 ∷ 0 ∷ 0 ∷ 0x15 ∷ 0x18 ∷ [], controller_host)
    ∷ []

abbrev strayed_device : (d : Device Host) × (Device.main toy_suite device_draws stray ≡ ok d)
unfolding Device.main new_commissionee spake2p_w0_w1_from_passcode set_bytes_from to_bytes put_be
strayed_device = (_, refl)

-- The three datagrams of the controller in a handshake: PBKDFParamRequest, Pake1 and Pake3.
abbrev to_device : List (Bytes × Host)
to_device =
    (
      (0 ∷ 0 ∷ 0 ∷ 0 ∷ 1 ∷ 0 ∷ 0 ∷ 0 ∷ 5 ∷ 0x20 ∷ 1 ∷ 0 ∷ 0 ∷ 0 ∷ 0x15 ∷ 0x30 ∷ 1 ∷ 32 ∷ [])
          ++ replicate 32 1
          ++ (0x25 ∷ 2 ∷ 57 ∷ 48 ∷ 0x24 ∷ 3 ∷ 0 ∷ 0x28 ∷ 4 ∷ 0x18 ∷ []),
      controller_host,
    )
    ∷ (
      (0 ∷ 0 ∷ 0 ∷ 0 ∷ 2 ∷ 0 ∷ 0 ∷ 0 ∷ 7 ∷ 0x22 ∷ 1 ∷ 0 ∷ 0 ∷ 0 ∷ 2 ∷ 0 ∷ 0 ∷ 0 ∷ 0x15 ∷ 0x30 ∷ 1
            ∷ 65 ∷ [])
          ++ replicate 65 0
          ++ (0x18 ∷ []),
      controller_host,
    )
    ∷ (
      (0 ∷ 0 ∷ 0 ∷ 0 ∷ 3 ∷ 0 ∷ 0 ∷ 0 ∷ 7 ∷ 0x24 ∷ 1 ∷ 0 ∷ 0 ∷ 0 ∷ 3 ∷ 0 ∷ 0 ∷ 0 ∷ 0x15 ∷ 0x30 ∷ 1
            ∷ 32 ∷ [])
          ++ replicate 32 0
          ++ (0x18 ∷ []),
      controller_host,
    )
    ∷ []

-- The two datagrams of the device: PBKDFParamResponse and Pake2.
abbrev to_controller : List (Bytes × Host)
to_controller =
    (
      (0 ∷ 0 ∷ 0 ∷ 0 ∷ 2 ∷ 0 ∷ 0 ∷ 0 ∷ 6 ∷ 0x21 ∷ 1 ∷ 0 ∷ 0 ∷ 0 ∷ 1 ∷ 0 ∷ 0 ∷ 0 ∷ 0x15 ∷ 0x30 ∷ 1
            ∷ 32 ∷ [])
          ++ replicate 32 1
          ++ (0x30 ∷ 2 ∷ 32 ∷ [])
          ++ replicate 32 2
          ++ (0x25 ∷ 3 ∷ 160 ∷ 91 ∷ 0x35 ∷ 4 ∷ 0x25 ∷ 1 ∷ 232 ∷ 3 ∷ 0x30 ∷ 2 ∷ 16 ∷ [])
          ++ Device.salt
          ++ (0x18 ∷ 0x18 ∷ []),
      device_host,
    )
    ∷ (
      (0 ∷ 0 ∷ 0 ∷ 0 ∷ 3 ∷ 0 ∷ 0 ∷ 0 ∷ 6 ∷ 0x23 ∷ 1 ∷ 0 ∷ 0 ∷ 0 ∷ 2 ∷ 0 ∷ 0 ∷ 0 ∷ 0x15 ∷ 0x30 ∷ 1
            ∷ 65 ∷ 0 ∷ 3 ∷ [])
          ++ replicate 63 0
          ++ (0x30 ∷ 2 ∷ 32 ∷ [])
          ++ replicate 32 0
          ++ (0x18 ∷ []),
      device_host,
    )
    ∷ []

-- A session with the keys that the toy hashes give.
abbrev zero_session : ℕ → Session
zero_session id = record {
  id = id;
  local_node_id = 0;
  peer_node_id = 0;
  encrypt_key = replicate 16 0;
  decrypt_key = replicate 16 0;
  attestation_challenge = replicate 16 0;
  out_counter = 0;
  replay = record { max = 0; bitmap = 0 };
}

installed_device :
    (d : Device Host) × (s : Session) × (Device.main toy_suite device_draws to_device ≡ ok d)
    × (d.commissionee.session_manager 23456 ≡ some s)
unfolding Device.main spake2p_w0_w1_from_passcode set_bytes_from to_bytes share_pb
    go_matter.Message.Frame.decode go_matter.Message.Header.unmarshal
    go_matter.Message.PayloadHeader.unmarshal go_matter.Commissioning.Commissionee.handle_message
    go_matter.Commissioning.Commissionee.handle_pake3
    go_matter.Commissioning.Commissionee.handle_pake1 go_matter.Tlv.Payload.decode_payload
    go_matter.Tlv.Reader.read_element go_matter.Tlv.Reader.read_tag go_matter.Tlv.Reader.read_value
    go_matter.Tlv.Reader.read_container_children go_matter.Base.Bytes.get_le
    go_matter.Tlv.Decoder.decode go_matter.Crypto.Spake.Verifier.new_verifier
    go_matter.Crypto.Spake.Verifier.compute_pb go_matter.Crypto.Spake.Verifier.finalize
    go_matter.Crypto.Spake.Verifier.confirmation_b
    go_matter.Crypto.Spake.Verifier.verify_confirmation_a go_matter.Crypto.Spake.Verifier.shared_key
    go_matter.Crypto.Spake.Transcript.spake_finalize
    go_matter.Crypto.Spake.Group.unmarshal_p256_point
    go_matter.Crypto.SessionKeys.derive_session_keys_from_ke
    go_matter.Commissioning.Commissionee.handle_pbkdf_param_request
    go_matter.Commissioning.Commissionee.build_frame
    go_matter.Commissioning.Commissionee.responder_frame go_matter.Commissioning.Pase.bump_counter
    go_matter.Commissioning.Pase.install_pase_session
    go_matter.Session.Manager.install_secure_session go_matter.Session.Manager.new_session
    go_matter.Message.Builder.new_builder go_matter.Message.Builder.build
    go_matter.Message.Builder.payload go_matter.Message.Builder.unsecured
    go_matter.Message.Builder.opcode go_matter.Message.Builder.exchange_id
    go_matter.Message.Builder.protocol go_matter.Message.Builder.ack_counter
    go_matter.Message.Builder.message_counter go_matter.Tlv.Encoder.marshal
    go_matter.Tlv.Decoder.view go_matter.Tlv.Writer.write_tag go_matter.Message.Builder.request_ack
installed_device = (_, zero_session 23456, refl, refl)

device_main-InstalledBy_example :
    (first : Device Host) × (Device.main toy_suite device_draws [] ≡ ok first)
    × DeviceInstalled toy_suite device_draws first to_device 23456 installed_device.1
device_main-InstalledBy_example =
    device_main-InstalledBy toy_suite device_draws to_device installed_device.0 23456
      installed_device.1 installed_device.2 installed_device.3

installed_controller :
    (c : Controller Host) × (s : Session) × (Controller.main toy_suite controller_draws device_host
        [] to_controller
      ≡ some c)
    × (c.commissioner.session_manager 12345 ≡ some s)
unfolding Controller.main spake2p_w0_w1_from_passcode set_bytes_from to_bytes
    go_matter.Samples.Controller.start_pase go_matter.Message.Frame.decode
    go_matter.Message.Header.unmarshal go_matter.Message.PayloadHeader.unmarshal
    go_matter.Tlv.Payload.decode_payload go_matter.Tlv.Reader.read_element
    go_matter.Tlv.Reader.read_tag go_matter.Tlv.Reader.read_value
    go_matter.Tlv.Reader.read_container_children go_matter.Base.Bytes.get_le
    go_matter.Tlv.Decoder.decode go_matter.Crypto.Spake.Transcript.spake_finalize
    go_matter.Crypto.Spake.Group.unmarshal_p256_point
    go_matter.Crypto.SessionKeys.derive_session_keys_from_ke
    go_matter.Commissioning.Pase.bump_counter go_matter.Commissioning.Pase.install_pase_session
    go_matter.Session.Manager.install_secure_session go_matter.Session.Manager.new_session
    go_matter.Message.Builder.new_builder go_matter.Message.Builder.build
    go_matter.Message.Builder.payload go_matter.Message.Builder.unsecured
    go_matter.Message.Builder.opcode go_matter.Message.Builder.exchange_id
    go_matter.Message.Builder.protocol go_matter.Message.Builder.ack_counter
    go_matter.Message.Builder.message_counter go_matter.Tlv.Encoder.marshal
    go_matter.Tlv.Decoder.view go_matter.Tlv.Writer.write_tag go_matter.Message.Builder.request_ack
    share_pa go_matter.Commissioning.Commissioner.handle_message
    go_matter.Commissioning.Commissioner.start_pase
    go_matter.Commissioning.Commissioner.handle_pbkdf_param_response
    go_matter.Commissioning.Commissioner.handle_pake2
    go_matter.Commissioning.Commissioner.build_frame
    go_matter.Commissioning.Commissioner.initiator_frame
    go_matter.Commissioning.Commissioner.send_pake1 go_matter.Crypto.Spake.Prover.new_prover
    go_matter.Crypto.Spake.Prover.compute_pa go_matter.Crypto.Spake.Prover.unblind_pb
    go_matter.Crypto.Spake.Prover.finalize go_matter.Crypto.Spake.Prover.confirmation_a
    go_matter.Crypto.Spake.Prover.verify_confirmation_b go_matter.Crypto.Spake.Prover.shared_key
    go_matter.Message.Builder.initiator
installed_controller = (_, zero_session 12345, refl, refl)

controller_main-InstalledBy_example :
    (new : Commissioner) × (begun : Controller Host) × (new_commissioner (some new_session_manager)
      ≡ some new)
    × (Controller.main toy_suite controller_draws device_host [] [] ≡ some begun)
    × (ControllerInstalled toy_suite controller_draws device_host
          (Controller.new_controller new)
          []
          12345
          installed_controller.1
        ⊎ ControllerInstalled toy_suite controller_draws device_host begun to_controller 12345
            installed_controller.1)
controller_main-InstalledBy_example =
    controller_main-InstalledBy toy_suite controller_draws device_host [] to_controller
      installed_controller.0 12345 installed_controller.1 installed_controller.2
      installed_controller.3

device_main-Answers_example : Answers stray strayed_device.0.sent
device_main-Answers_example =
    device_main-Answers toy_suite device_draws stray strayed_device.0 strayed_device.1
