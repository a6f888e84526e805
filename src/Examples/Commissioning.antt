-- ===== src/Examples/Commissioning.antt =====
-- commissioning/: a handshake over the toy group.
mod Sessions
mod Orders
use go_matter.Base.{
  ℕ, ◌^◌, ◌<◌, ◌≡◌, ◌⊎◌, refl, arith, true, [], ◌∷◌, length, replicate, List, none, some, ok, ◌++◌,
}
use go_matter.Base.Bytes.{Bytes, put_le, get_le}
use go_matter.Base.Int.{pos}
use go_matter.Message.Frame.{Frame}
use go_matter.Message.Header
use go_matter.Crypto.BigInt.{set_bytes, set_bytes_from, to_bytes, put_be}
use go_matter.Crypto.Pbkdf.{spake2p_w0_w1_from_passcode}
use go_matter.Crypto.Spake.Prover.{share_pa}
use go_matter.Crypto.Spake.Verifier.{share_pb}
use go_matter.Session.Manager.{SessionManager, new_session_manager}
use go_matter.Commissioning.Pase.{Suite, State, Randomness}
use go_matter.Commissioning.Commissioner
use go_matter.Commissioning.Commissioner.{Commissioner}
use go_matter.Commissioning.Commissionee
use go_matter.Commissioning.Commissionee.{Commissionee}
use go_matter.Commissioning.Handshake.{handshake}
use go_matter.Commissioning.Handshake.Delivery.{IsGranted}
use go_matter.Commissioning.Handshake.Outcome.{
  IsProvisioned, Established, new_commissionee-IsProvisioned,
}
use go_matter.Commissioning.Handshake.Complete.{handshake-Established}
use go_matter.Commissioning.Handshake.Traffic.{Arrives, Established-Arrives}
use go_matter.Commissioning.Safety.Device.{
  DeviceConfirmed, device_table-changes, device_run, device_run-Confirmed,
}
use go_matter.Commissioning.Safety.Controller.{ControllerConfirmed, controller_table-changes}
use go_matter.Examples.Parameters.{toy_curve, toy_hashes, toy_marshal, toy_pbkdf, plain_ccm}

abbrev pub toy_suite : Suite
toy_suite = record { curve = toy_curve; hashes = toy_hashes; pbkdf2 = toy_pbkdf }

abbrev pub toy_draws : ℕ → Randomness
toy_draws n = record {
  nonce = some (replicate 32 n);
  scalar = some (n ∷ []);
  seed = some (n ∷ 0 ∷ 0 ∷ 0 ∷ []);
}

abbrev pub toy_granted : (n : ℕ) → n < 256 → IsGranted (toy_draws n)
toy_granted n h = record {
  nonce = replicate 32 n;
  nonce_drawn = refl;
  nonce_size = refl;
  scalar = n ∷ [];
  scalar_drawn = refl;
  seed = n ∷ 0 ∷ 0 ∷ 0 ∷ [];
  seed_drawn = refl;
  seed_size = refl;
  seed_bytes = (h, (omega arith, (omega arith, (omega arith, tt))));
}

abbrev pub controller : Commissioner
controller = record {
  state = State.idle;
  session_manager = λ id. none;
  passcode = 0;
  random = [];
  session_id = 0;
  exchange_id = 0;
  message_counter = 0;
  request_payload = [];
  response_payload = [];
  responder_random = [];
  responder_session_id = 0;
  salt = [];
  iterations = 0;
  ke = [];
  prover = none;
}

new_commissioner_run : Commissioner.new_commissioner (some λ id. none) ≡ some controller
unfolding Commissioner.new_commissioner
new_commissioner_run = refl

abbrev pub device : Commissionee
device = record {
  state = State.idle;
  salt = 7 ∷ [];
  iterations = 1000;
  w0 = 2 ∷ [];
  l = toy_marshal (0, 3);
  random = [];
  session_manager = λ id. none;
  session_id = 0;
  message_counter = 0;
  initiator_random = [];
  initiator_session_id = 0;
  exchange_id = 0;
  request_payload = [];
  response_payload = [];
  ke = [];
  verifier = none;
}

new_commissionee_run :
    Commissionee.new_commissionee toy_suite 20202021 (7 ∷ []) (pos 1000) (some λ id. none)
    ≡ ok device
unfolding Commissionee.new_commissionee spake2p_w0_w1_from_passcode set_bytes_from to_bytes put_be
new_commissionee_run = refl

toy_scalars :
    spake2p_w0_w1_from_passcode toy_pbkdf toy_curve 20202021 (7 ∷ []) (pos 1000)
    ≡ ok (2 ∷ [], 3 ∷ [])
unfolding spake2p_w0_w1_from_passcode set_bytes_from to_bytes put_be
toy_scalars = refl

new_commissionee-IsProvisioned_example :
    (d : Commissionee) × (Commissionee.new_commissionee toy_suite 20202021
        (7 ∷ [])
        (pos 1000)
        (some λ id. none)
      ≡ ok d)
    × IsProvisioned toy_suite d 20202021 (3 ∷ [])
unfolding set_bytes_from
new_commissionee-IsProvisioned_example =
    new_commissionee-IsProvisioned toy_suite 20202021 1000 (7 ∷ []) (2 ∷ []) (3 ∷ []) (λ id. none)
      toy_scalars (omega arith) (omega arith) refl (omega arith) (omega arith)

provisioned : IsProvisioned toy_suite device 20202021 (3 ∷ [])
unfolding spake2p_w0_w1_from_passcode set_bytes_from to_bytes put_be
provisioned = record {
  scalars = refl;
  point = refl;
  on_curve = refl;
  w0_set = omega arith;
  w1_set = omega arith;
  salt_size = omega arith;
  iterations_word = omega arith;
  session_word = omega arith;
}

handshake-Established_example :
    (c' : Commissioner) × (d' : Commissionee) × (handshake toy_suite controller device 20202021
        (toy_draws 1)
        (toy_draws 2)
        (toy_draws 3)
        (toy_draws 4)
        (toy_draws 5)
        (toy_draws 6)
      ≡ ok (c', d'))
    × Established c' d'
unfolding set_bytes_from share_pa to_bytes share_pb
handshake-Established_example =
    handshake-Established toy_suite controller device 20202021 (3 ∷ []) (toy_draws 1) (toy_draws 2)
      (toy_draws 3) (toy_draws 4) (toy_draws 5) (toy_draws 6) (toy_granted 1 (omega arith))
      (toy_granted 2 (omega arith)) (toy_granted 3 (omega arith)) (toy_granted 4 (omega arith))
      (toy_granted 5 (omega arith)) (omega arith) (omega arith) provisioned refl refl
