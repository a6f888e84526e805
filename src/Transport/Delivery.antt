-- ===== src/Transport/Delivery.antt =====
-- What arrives through the receive loop.
use go_matter.Base.{
  ◌≤◌, ◌≡◌, refl, sym, ◌∙◌, List, [], ◌∷◌, length, take, take-all, some, ok, err, ok-injective,
}
use mathlib.Core.Path.{subst}
use go_matter.Base.Bytes.{Bytes}
use go_matter.Message.Wire
use go_matter.Message.Frame
use go_matter.Message.Frame.{Frame}
use go_matter.Message.Frame.RoundTrip.{decode-encode}
use go_matter.Transport.{send, buffer_size, start}

-- The datagrams of the frames that were sent, in order, with malformed ones anywhere between them.
pub data Arriving {A : Type 0} : List (Frame × A) → List (Bytes × A) → Type 0 where
  nothing : Arriving [] []
  sent :
      (f : Frame) (b : Bytes) (from : A) (fs : List (Frame × A)) (bs : List (Bytes × A))
      → Frame.IsCanonical f
      → send f ≡ ok b
      → length b ≤ buffer_size
      → Arriving fs bs
      → Arriving ((f, from) ∷ fs) ((b, from) ∷ bs)
  malformed :
      (b : Bytes) (from : A) (e : Wire.Error) (fs : List (Frame × A)) (bs : List (Bytes × A))
      → Frame.decode (take buffer_size b) ≡ err e
      → Arriving fs bs
      → Arriving fs ((b, from) ∷ bs)

-- The handler on each frame in turn.
abbrev pub handled : {A S : Type 0} → (Frame → A → S → S) → List (Frame × A) → S → S
handled handle [] s = s
handled handle ((f, from) ∷ fs) s = handled handle fs (handle f from s)

received : (f : Frame) (b : Bytes) → Frame.IsCanonical f → send f ≡ ok b → Frame.decode b ≡ ok f
unfolding send
received f b canonical written =
    let (w, encoded, decoded) = decode-encode f canonical in
    subst (λ x. Frame.decode x ≡ ok f) (ok-injective (sym encoded ∙ written)) decoded

-- The handler of `Start` sees the frames that were sent, each once, with its address and in the
-- order of the datagrams, whatever malformed datagrams come between them, if the frames are canonical and their
-- encodings fit the buffer.
pub start-Arriving :
    {A S : Type 0} (handle : Frame → A → S → S) (fs : List (Frame × A)) (bs : List (Bytes × A))
    (s : S)
    → Arriving fs bs
    → start (some handle) bs s ≡ handled handle fs s
unfolding start
start-Arriving handle _ _ s nothing = refl
start-Arriving handle _ _ s (sent f b from fs bs canonical written fits rest) =
    rw (take-all buffer_size b fits, received f b canonical written)
      (start-Arriving handle fs bs (handle f from s) rest)
start-Arriving handle _ _ s (malformed b from e fs bs bad rest) =
    rw bad (start-Arriving handle fs bs s rest)
