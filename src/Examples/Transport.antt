-- ===== src/Examples/Transport.antt =====
-- transport/: a datagram of a frame between malformed ones.
use go_matter.Base.{◌≤◌, ◌<◌, ◌++◌, replicate, take, ok, ℕ, ◌≡◌, refl, arith, List, [], ◌∷◌, some}
use go_matter.Base.Bytes.{Bytes, get_le, put_le}
use go_matter.Message.Header
use go_matter.Message.PayloadHeader
use go_matter.Message.Frame
use go_matter.Message.Frame.{Frame}
use go_matter.Message.Builder.{empty_frame}
use go_matter.Transport.{send, start}
use go_matter.Transport.Truncated.{start-cuts}
use go_matter.Transport.Delivery.{Arriving, nothing, sent, malformed, handled, start-Arriving}

abbrev frame : Frame
frame = record (empty_frame) { payload = 1 ∷ 2 ∷ [] }

abbrev datagram : Bytes
datagram = 0 ∷ 0 ∷ 0 ∷ 0 ∷ 0 ∷ 0 ∷ 0 ∷ 0 ∷ 0 ∷ 0 ∷ 0 ∷ 0 ∷ 0 ∷ 0 ∷ 1 ∷ 2 ∷ []

frame_arrives : Arriving {A = ℕ} ((frame, 8) ∷ []) ((5 ∷ [], 7) ∷ (datagram, 8) ∷ [])
unfolding send Frame.encode Frame.decode Header.marshal Header.unmarshal PayloadHeader.marshal
    put_le get_le
frame_arrives =
    malformed (5 ∷ []) 7 _ ((frame, 8) ∷ []) ((datagram, 8) ∷ []) refl
      (sent frame datagram 8 [] [] (ground arith) refl (omega arith) nothing)

abbrev collect : Frame → ℕ → List (Bytes × ℕ) → List (Bytes × ℕ)
collect f from seen = (f.payload, from) ∷ seen

start-Arriving_example :
    start (some collect) ((5 ∷ [], 7) ∷ (datagram, 8) ∷ []) []
    ≡ handled collect ((frame, 8) ∷ []) []
start-Arriving_example =
    start-Arriving collect ((frame, 8) ∷ []) ((5 ∷ [], 7) ∷ (datagram, 8) ∷ []) [] frame_arrives

-- A frame of 14 bytes of headers and 2040 bytes of payload.
abbrev long_frame : Frame
long_frame = record (empty_frame) { payload = replicate 2040 1 }

abbrev long_datagram : Bytes
long_datagram = replicate 14 0 ++ replicate 2040 1

long_sent : send long_frame ≡ ok long_datagram
unfolding send Frame.encode Header.marshal PayloadHeader.marshal put_le
long_sent = refl

start-cuts_example :
    (k : ℕ) × (2012 ≤ k)
    × (k < 2040)
    × (start (some collect) ((long_datagram, 8) ∷ []) []
        ≡ collect (record (long_frame) { payload = take k (replicate 2040 1) }) 8 [])
start-cuts_example =
    start-cuts collect long_frame long_datagram 8 [] (ground arith) long_sent (omega arith)
