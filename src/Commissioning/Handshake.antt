-- ===== src/Commissioning/Handshake.antt =====
-- commissioning/: a whole handshake. Each frame that one side sends is encoded, and decoded by the
-- other side (transport/transport.go: `Send` and `Start`).
pub mod Steps
pub mod Delivery
pub mod Turns
pub mod Outcome
pub mod Complete
pub mod Traffic
use go_matter.Base.{ℕ, take, Option, none, some, Result, ok, err, ◌>>=◌, wrap}
use go_matter.Message.Wire
use go_matter.Message.Frame
use go_matter.Message.Frame.{Frame}
use go_matter.Transport.{send, buffer_size}
use go_matter.Commissioning.Pase
use go_matter.Commissioning.Pase.{Suite, Randomness}
use go_matter.Commissioning.Commissioner
use go_matter.Commissioning.Commissioner.{Commissioner}
use go_matter.Commissioning.Commissionee
use go_matter.Commissioning.Commissionee.{Commissionee}

pub data Error : Type 0 where
  wire : Wire.Error → Error
  side : Pase.Error → Error
  no_answer : Error

-- The state of a side after a handler that succeeds, and what it sends.
abbrev pub settled : {S A : Type 0} → S × Result Pase.Error A → Result Error (S × A)
settled (s, ok a) = ok (s, a)
settled (s, err e) = err (side e)

-- What the receiver reads of the datagram that the sender writes.
unfoldable pub over_wire : Frame → Result Error Frame
unfolding send
over_wire f = do w ← wrap wire (send f); wrap wire (Frame.decode (take buffer_size w))

abbrev pub answer : Option Frame → Result Error Frame
answer none = err no_answer
answer (some f) = ok f

module _ (suite : Suite) where
  -- A frame of the device reaches the controller, and the other way round.
  unfoldable pub to_controller :
      Randomness → Commissioner → Frame → Result Error (Commissioner × Frame)
  to_controller r c f = do f ← over_wire f; settled (Commissioner.handle_message suite f r c)

  unfoldable pub to_device :
      Randomness → Commissionee → Frame → Result Error (Commissionee × Option Frame)
  to_device r d f = do f ← over_wire f; settled (Commissionee.handle_message suite f r d)

  -- From the parameters on: Pake1, Pake2 and Pake3, until the device has handled Pake3.
  unfoldable pub agree :
      Commissioner
      → Commissionee
      → Frame
      → (a2 a3 b2 b3 : Randomness) → Result Error (Commissioner × Commissionee)
  agree c d response a2 a3 b2 b3 = do
    (c, pake1) ← to_controller a2 c response
    (d, pake2) ← to_device b2 d pake1
    pake2 ← answer pake2
    (c, pake3) ← to_controller a3 c pake2
    (d, _) ← to_device b3 d pake3
    ok (c, d)

  -- The controller starts, the device answers, and the two agree on a key. `a1` to `a3` are the
  -- draws of the controller's handlers, `b1` to `b3` the device's.
  unfoldable pub handshake :
      Commissioner
      → Commissionee
      → ℕ
      → (a1 a2 a3 b1 b2 b3 : Randomness) → Result Error (Commissioner × Commissionee)
  handshake c d passcode a1 a2 a3 b1 b2 b3 = do
    (c, request) ← settled (Commissioner.start_pase passcode a1 c)
    (d, response) ← to_device b1 d request
    response ← answer response
    agree c d response a2 a3 b2 b3
