-- ===== src/Transport/Truncated.antt =====
-- A datagram that is longer than the receive buffer.
use go_matter.Base.{
  ℕ, zero, suc, ◌+◌, ◌-◌, ◌≤◌, ◌<◌, ◌≡◌, sym, ap, ◌∙◌, arith, [], ◌∷◌, ◌++◌, length, take,
  length-append, some, ok, bind-ok, ok-injective,
}
use go_matter.Base.Bytes.{Bytes}
use go_matter.Message.Header
use go_matter.Message.PayloadHeader
use go_matter.Message.Frame
use go_matter.Message.Frame.{Frame}
use go_matter.Message.Frame.RoundTrip.{decode-encode}
use go_matter.Message.Frame.Size.{length-header, length-payload_header}
use go_matter.Transport.{send, buffer_size, start}

take-append_over :
    (n : ℕ) (xs ys : Bytes) → length xs ≤ n → take n (xs ++ ys) ≡ xs ++ take (n - length xs) ys
take-append_over n [] ys h = ap (λ (k : ℕ). take k ys) (omega arith)
take-append_over zero (x ∷ xs) ys h = absurd (omega arith)
take-append_over (suc n) (x ∷ xs) ys h =
    ap (λ (zs : Bytes). x ∷ zs)
      (take-append_over n xs ys (omega arith) ∙ ap (λ (k : ℕ). xs ++ take k ys) (omega arith))

-- The part of a frame's payload that fits the buffer behind its headers.
encode-cut :
    (f : Frame) (b : Bytes)
    → send f ≡ ok b
    → buffer_size < length b
    → (k : ℕ) × (2012 ≤ k)
      × (k < length f.payload)
      × (send (record f { payload = take k f.payload }) ≡ ok (take buffer_size b))
unfolding send Frame.encode
encode-cut f b e long =
    let (hdr, written, e') = bind-ok (Header.marshal f.header) _ e in
    let phdr = PayloadHeader.marshal f.payload_header in
    let whole : hdr ++ (phdr ++ f.payload) ≡ b = ok-injective e' in
    let total : length hdr + (length phdr + length f.payload) ≡ length b = omega (
      arith,
      ap length whole,
      length-append hdr (phdr ++ f.payload),
      length-append phdr f.payload,
    ) in
    let small = length-header f.header hdr written in
    let small' = length-payload_header f.payload_header in
    let cut : take 2048 (hdr ++ (phdr ++ f.payload))
        ≡ hdr ++ (phdr ++ take (2048 - length hdr - length phdr) f.payload) =
      take-append_over 2048 hdr (phdr ++ f.payload) (omega arith)
      ∙ ap (λ (r : Bytes). hdr ++ r)
          (take-append_over (2048 - length hdr) phdr f.payload (omega arith)) in
    (2048 - length hdr - length phdr, omega arith, omega arith, rw (written, ← cut, whole))

-- A canonical frame whose encoding does not fit the buffer of `Start` is not refused: the handler
-- gets a frame with the same headers and a payload that is cut off, of which at least 2012 bytes are
-- left.
pub start-cuts :
    {A S : Type 0} (handle : Frame → A → S → S) (f : Frame) (b : Bytes) (from : A) (s : S)
    → Frame.IsCanonical f
    → send f ≡ ok b
    → buffer_size < length b
    → (k : ℕ) × (2012 ≤ k)
      × (k < length f.payload)
      × (start (some handle) ((b, from) ∷ []) s
          ≡ handle (record f { payload = take k f.payload }) from s)
unfolding start send
start-cuts handle f b from s canonical written long =
    let (k, most, short, cut) = encode-cut f b written long in
    let g = record f { payload = take k f.payload } in
    let (w, encoded, decoded) =
      decode-encode g
        (record { header = canonical.header; payload_header = canonical.payload_header }) in
    let same : w ≡ take buffer_size b = ok-injective (sym encoded ∙ cut) in
    let read : Frame.decode (take buffer_size b) ≡ ok g = rw same at decoded in
    (k, most, short, rw read)
