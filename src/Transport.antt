-- ===== src/Transport.antt =====
-- transport/transport.go: what `Send` writes to the socket, and what `Start` makes of the datagrams
-- that the socket gives. The socket itself is not under the model: its datagrams are a list, at
-- whose end the read fails and `Start` returns.
pub mod Delivery
pub mod Truncated
use go_matter.Base.{ℕ, List, [], ◌∷◌, take, Option, none, some, Result, ok, err}
use go_matter.Base.Bytes.{Bytes}
use go_matter.Message.Wire
use go_matter.Message.Frame
use go_matter.Message.Frame.{Frame}

-- `TransportManager.Send`: the datagram, or the error of the encoding.
unfoldable pub send : Frame → Result Wire.Error Bytes
send f = Frame.encode f

abbrev pub buffer_size : ℕ
buffer_size = 2048

-- What the handler does to its own state, if there is a handler; `A` are the addresses.
abbrev pub ReadHandler : Type 0 → Type 0 → Type 0
ReadHandler A S = Option (Frame → A → S → S)

abbrev pub dispatch : {A S : Type 0} → ReadHandler A S → Result Wire.Error Frame → A → S → S
dispatch handler (err e) from s = s
dispatch none (ok f) from s = s
dispatch (some handle) (ok f) from s = handle f from s

-- The loop of `TransportManager.Start`, over datagrams with the addresses that they come from; what
-- does not fit the buffer is cut off.
unfoldable pub start : {A S : Type 0} → ReadHandler A S → List (Bytes × A) → S → S
start handler [] s = s
start handler ((b, from) ∷ datagrams) s =
    start handler datagrams (dispatch handler (Frame.decode (take buffer_size b)) from s)
