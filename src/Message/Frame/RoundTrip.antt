-- ===== src/Message/Frame/RoundTrip.antt =====
-- `Encode` and `Decode` undo one another.
use go_matter.Base.{
  ℕ, zero, suc, ◌+◌, ◌≡◌, refl, [], ◌∷◌, ◌++◌, ok, drop, All, All-drop, bind-ok, ok-injective,
  take-append-drop, drop-append_length,
}
use go_matter.Base.Bytes.{Bytes, IsByte}
use go_matter.Message.Header
use go_matter.Message.Header.RoundTrip as HeaderTrip
use go_matter.Message.PayloadHeader
use go_matter.Message.PayloadHeader.RoundTrip as PayloadTrip
use go_matter.Message.Frame.{Frame, encode, decode, IsCanonical}
use mathlib.Core.Path.{subst}
use native.Mathlib.Nat.{zero-add, suc-add}

drop-nil : (m : ℕ) → [] ≡ drop {A = ℕ} m []
drop-nil zero = refl
drop-nil (suc m) = refl

drop-add : (n m : ℕ) (b : Bytes) → drop (n + m) b ≡ drop m (drop n b)
drop-add zero m b = rw zero-add
drop-add (suc n) m [] = rw suc-add (drop-nil m)
drop-add (suc n) m (x ∷ b) = rw suc-add (drop-add n m b)

-- Every canonical frame is encoded, and decoding the encoding gives the frame back, its payload
-- included.
pub decode-encode :
    (f : Frame) → IsCanonical f → (b : Bytes) × (encode f ≡ ok b) × (decode b ≡ ok f)
unfolding encode decode
decode-encode f c =
    let phdr = PayloadHeader.marshal f.payload_header in
    let (hdr, written, reread) =
      HeaderTrip.unmarshal-marshal_header f.header (phdr ++ f.payload) c.header in
    let inner =
      PayloadTrip.unmarshal-marshal_payload_header f.payload_header f.payload c.payload_header in
    (
      hdr ++ (phdr ++ f.payload),
      rw written,
      rw (reread, drop-append_length, inner, drop-add, drop-append_length, drop-append_length),
    )

-- Decoding succeeds only with a canonical frame, and encoding that frame gives the input back,
-- byte for byte.
pub encode-decode :
    (b : Bytes) (f : Frame) → All IsByte b → decode b ≡ ok f → IsCanonical f × (encode f ≡ ok b)
unfolding encode decode
encode-decode b f hb e =
    let ((h, n), outer, e') = bind-ok (Header.unmarshal b) _ e in
    let ((p, m), inner, made) = bind-ok (PayloadHeader.unmarshal (drop n b)) _ e' in
    let (hc, _, hn, hw) = HeaderTrip.marshal-unmarshal_header b h n hb outer in
    let (pc, _, pm, pw) =
      PayloadTrip.marshal-unmarshal_payload_header (drop n b) p m (All-drop IsByte n b hb) inner in
    subst (λ g. IsCanonical g × (encode g ≡ ok b)) (ok-injective made)
      (
        record { header = hc; payload_header = pc },
        rw (hw, pw, drop-add, take-append-drop, take-append-drop),
      )
