-- ===== src/Samples.antt =====
-- samples/commissioning/: the two programs that run the handshake, over the datagrams that their
-- sockets give. `A` are the addresses. What the programs print is left out.
pub mod Device
pub mod Controller
pub mod Installed
pub mod Safety
pub mod Replies
pub mod Network
pub mod Turns
pub mod Complete
use go_matter.Base.{ℕ, List, [], ◌∷◌, ◌++◌, Option, none, some, Result, ok, err, ◌>>=◌, wrap}
use go_matter.Base.Bytes.{Bytes}
use go_matter.Message.Wire
use go_matter.Message.Frame.{Frame}
use go_matter.Transport.{send}

pub data Error : Type 0 where
  no_known_peer : Error
  encode : Wire.Error → Error

-- `SendMessage` of both messengers, to the device's last peer or to the fixed address: the
-- datagram with its destination.
unfoldable pub send_message : {A : Type 0} → Option A → Frame → Result Error (A × Bytes)
unfolding send
send_message none frame = err no_known_peer
send_message (some to) frame = do b ← wrap encode (send frame); ok (to, b)

-- What a handler's `send` puts on the wire; its error is only printed.
abbrev pub written : {A : Type 0} → Result Error (A × Bytes) → List (A × Bytes)
written (ok d) = d ∷ []
written (err e) = []
