-- ===== src/Samples/Complete.antt =====
-- The two programs on the network complete the handshake.
use go_matter.Base.{◌<◌, arith, true, [], length, ℕ, ◌≡◌, refl, ◌∷◌, none, some, ok}
use go_matter.Base.Bytes.{Bytes}
use go_matter.Base.Int.{pos}
use go_matter.Crypto.BigInt.{set_bytes}
use go_matter.Crypto.Pbkdf.{spake2p_w0_w1_from_passcode}
use go_matter.Crypto.Spake.Prover.{share_pa}
use go_matter.Crypto.Spake.Verifier.{share_pb}
use go_matter.Session.Manager.{new_session_manager}
use go_matter.Commissioning.Handshake.Delivery.{IsGranted}
use go_matter.Commissioning.Handshake.Outcome.{
  Established, fresh, new_commissionee-fresh, fresh-IsProvisioned,
}
use go_matter.Commissioning.Handshake.Complete.{handshake-Established}
use go_matter.Commissioning.Pase
use go_matter.Commissioning.Pase.{Suite, Randomness}
use go_matter.Commissioning.Commissioner.{Commissioner, new_commissioner}
use go_matter.Transport.{start}
use go_matter.Samples.Controller
use go_matter.Samples.Controller.{Controller, sending}
use go_matter.Samples.Device
use go_matter.Samples.Device.{Device, replied}
use go_matter.Samples.Network.{Host, controller_host, device_host, turns}
use go_matter.Samples.Turns.{turns-handshake}

-- What `NewCommissioner` makes.
abbrev first_commissioner : Commissioner
first_commissioner = record {
  state = Pase.idle;
  session_manager = new_session_manager;
  passcode = 0;
  random = [];
  session_id = 0;
  exchange_id = 0;
  message_counter = 0;
  request_payload = [];
  response_payload = [];
  responder_random = [];
  responder_session_id = 0;
  salt = [];
  iterations = 0;
  ke = [];
  prover = none;
}

-- If the random source answers the first handlers of both programs, the scalars of passcode
-- 12345678 can be derived and are not 0, and the points that are sent are points of the curve, then
-- the two programs start, and on a network that delivers their datagrams, five turns in which the
-- one receives what the other has written establish the session: both sides are complete, with the
-- same key, and the sessions of their tables fit together.
pub samples-Established :
    (suite : Suite) (cr dr : ℕ → Randomness) (w0 w1 : Bytes) (g1 : IsGranted (cr 0))
    (g2 : IsGranted (cr 1)) (g3 : IsGranted (cr 2)) (h1 : IsGranted (dr 0)) (h2 : IsGranted (dr 1))
    → spake2p_w0_w1_from_passcode suite.pbkdf2 suite.curve 12345678 Device.salt (pos 1000)
      ≡ ok (w0, w1)
    → 0 < length w0
    → 0 < length w1
    → suite.curve.is_on_curve (suite.curve.scalar_base_mult w1) ≡ true
    → suite.curve.is_on_curve (share_pa suite.curve suite.hashes w0 (set_bytes g2.scalar)) ≡ true
    → suite.curve.is_on_curve (share_pb suite.curve suite.hashes w0 (set_bytes h2.scalar)) ≡ true
    → (c : Controller Host) × (d : Device Host) × (Controller.main suite cr device_host [] []
        ≡ some c)
      × (Device.main suite dr [] ≡ ok d)
      × let net =
          turns suite cr dr
            (device_host ∷ controller_host ∷ device_host ∷ controller_host ∷ device_host ∷ [])
            (c, d) in
        Established net.0.commissioner net.1.commissionee
unfolding Controller.main Device.main start new_commissioner
samples-Established suite cr dr w0 w1 g1 g2 g3 h1 h2 scalars nz0 nz1 on_l on_a on_b =
    let point = suite.curve.marshal (suite.curve.scalar_base_mult w1) in
    let d = fresh Device.salt 1000 w0 point new_session_manager in
    let made =
      new_commissionee-fresh suite 12345678 1000 Device.salt w0 w1 new_session_manager scalars
        (omega arith) in
    let ready =
      fresh-IsProvisioned suite 12345678 1000 Device.salt w0 w1 new_session_manager scalars nz0 nz1
        on_l (omega arith) (omega arith) in
    let (c', d', run, established) =
      handshake-Established suite first_commissioner d 12345678 w1 (cr 0) (cr 1) (cr 2) (dr 0)
        (dr 1) (dr 2) g1 g2 g3 h1 h2 (omega arith) (omega arith) ready on_a on_b in
    let (same_c, same_d) = turns-handshake suite cr dr first_commissioner c' d d' run in
    (
      Controller.start_pase suite cr device_host (Controller.new_controller first_commissioner),
      Device.new_device d,
      refl,
      rw made,
      rw (same_c, same_d) established,
    )
