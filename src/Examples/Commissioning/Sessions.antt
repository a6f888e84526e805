-- ===== src/Examples/Commissioning/Sessions.antt =====
-- commissioning/: established sides, and frames that come at the wrong time.
use go_matter.Base.{ℕ, true, ◌≡◌, ◌⊎◌, refl, arith, [], ◌∷◌, replicate, List, ok}
use go_matter.Base.Bytes.{Bytes, get_le}
use go_matter.Message.Frame.{Frame}
use go_matter.Message.Builder
use go_matter.Message.Header
use go_matter.Message.Header.{Header}
use go_matter.Crypto.SessionKeys.{SessionKeys}
use go_matter.Session.Manager.{
  session, new_session, new_session_manager, install_secure_session, initiator, responder,
}
use go_matter.Commissioning.Pase.{State, Randomness}
use go_matter.Commissioning.Opcodes.{opcode_pase_pake2, opcode_pase_pake3}
use go_matter.Commissioning.Commissioner
use go_matter.Commissioning.Commissioner.{Commissioner}
use go_matter.Commissioning.Commissionee.{Commissionee}
use go_matter.Commissioning.Handshake.Outcome.{Established}
use go_matter.Commissioning.Handshake.Traffic.{Established-transmits}
use go_matter.Session.Manager.Stream.{Sending, transmit}
use go_matter.Commissioning.Safety.Device.{ConfirmedAt, device_run, device_run-Confirmed}
use go_matter.Commissioning.Safety.Controller.{ControllerConfirmed, controller_table-changes}
use go_matter.Examples.Parameters.{plain_ccm}
use go_matter.Examples.Commissioning.{toy_suite, toy_draws, controller, device}

abbrev toy_keys : SessionKeys
toy_keys = record {
  i2r_key = replicate 16 1;
  r2i_key = replicate 16 2;
  attestation_challenge = replicate 16 3;
}

abbrev done_controller : Commissioner
done_controller = record controller {
  state = State.complete;
  session_id = 12345;
  responder_session_id = 23456;
  session_manager = install_secure_session new_session_manager 12345 0 0 toy_keys initiator;
}

abbrev done_device : Commissionee
done_device = record device {
  state = State.complete;
  session_id = 23456;
  initiator_session_id = 12345;
  session_manager = install_secure_session new_session_manager 23456 0 0 toy_keys responder;
}

toy-Established : Established done_controller done_device
unfolding install_secure_session new_session session
toy-Established = record {
  controller_session = new_session 12345 0 0 toy_keys initiator;
  device_session = new_session 23456 0 0 toy_keys responder;
  controller_complete = refl;
  device_complete = refl;
  same_key = refl;
  controller_found = refl;
  device_found = refl;
  pair = record { forth = refl; back = refl };
  controller_fresh = refl;
  device_fresh = refl;
  controller_id = omega arith;
  device_id = omega arith;
  controller_key = refl;
  device_key = refl;
  controller_peer = refl;
  device_peer = refl;
}

abbrev first_header : Bytes
first_header = 0 ∷ 20 ∷ 0 ∷ 0 ∷ 1 ∷ 0 ∷ 0 ∷ 0 ∷ []

abbrev first_read : Header
first_read = record {
  flags = 0;
  session_id = 20;
  security_flags = 0;
  message_counter = 1;
  source_node_id = 0;
  dest_node_id = 0;
}

first_parses : Header.unmarshal first_header ≡ ok (first_read, 8)
unfolding Header.unmarshal get_le
first_parses = refl

-- Pake2 or Pake3 with an empty structure.
abbrev early : ℕ → Frame
early opcode = record (Builder.empty_frame) {
  payload_header = record (Builder.empty_frame.payload_header) { opcode = opcode };
  payload = 0x15 ∷ 0x18 ∷ [];
}

abbrev tried_controller : Commissioner
tried_controller =
    (Commissioner.handle_message toy_suite (early opcode_pase_pake2) (toy_draws 1) controller).0

controller_table-changes_example :
    (tried_controller.session_manager ≡ controller.session_manager)
    ⊎ ControllerConfirmed toy_suite (early opcode_pase_pake2) controller tried_controller
controller_table-changes_example =
    controller_table-changes toy_suite (early opcode_pase_pake2) (toy_draws 1) controller

abbrev early_frames : List (Frame × Randomness)
early_frames = (early opcode_pase_pake3, toy_draws 1) ∷ (early opcode_pase_pake2, toy_draws 2) ∷ []

device_run-Confirmed_example :
    ((device_run toy_suite early_frames device).session_manager ≡ device.session_manager)
    ⊎ ConfirmedAt toy_suite early_frames device
device_run-Confirmed_example = device_run-Confirmed toy_suite early_frames device

abbrev one_message : List Sending
one_message = record { header = first_header; payload = 1 ∷ 2 ∷ []; delivered = true } ∷ []

Established-transmits_example :
    (transmit plain_ccm done_controller.session_manager done_device.session_manager 12345 23456
        one_message
      ≡ ok (1 ∷ 2 ∷ []) ∷ [])
    × (transmit plain_ccm done_device.session_manager done_controller.session_manager 23456 12345
          one_message
        ≡ ok (1 ∷ 2 ∷ []) ∷ [])
Established-transmits_example =
    Established-transmits plain_ccm done_controller done_device one_message toy-Established
      (first_read, 8, first_parses, omega arith, omega arith, tt)
