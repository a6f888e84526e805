-- ===== src/Message/PayloadHeader/RoundTrip.antt =====
-- `Marshal` and `Unmarshal` of the payload header undo one another.
use go_matter.Base.{
  ℕ, ◌≡◌, ◌≤◌, refl, arith, [], ◌∷◌, ◌++◌, if◌then◌else◌, ok, length, take, get_or, All,
}
use go_matter.Base.Bytes.{
  Bytes, put_le, get_le, get_le-put_le, IsByte, put_le-slice, get_le-slice-lt, slice,
}
use go_matter.Message.Wire.{
  payload_header_too_short, optional_field, optional_field_inv, get_or-IsByte,
}
use go_matter.Message.PayloadHeader.{
  PayloadHeader, marshal, unmarshal, IsCanonical, vendor_present, acknowledges,
}
use mathlib.Core.List.{append_assoc}

-- The wire form as one concatenation, in the order of the comment in payload_header.go.
abbrev pub header_bytes : PayloadHeader → Bytes
header_bytes p =
    p.exchange_flags
    ∷ p.opcode
    ∷ (put_le 2 p.exchange_id
        ++ (put_le 2 p.protocol_id
            ++ ((if vendor_present p.exchange_flags then put_le 2 p.vendor_id else [])
                ++ (if acknowledges p.exchange_flags then put_le 4 p.ack_counter else []))))

pub marshal_layout : (p : PayloadHeader) → marshal p ≡ header_bytes p
unfolding marshal put_le
marshal_layout p = ground arith

unmarshal-header_bytes :
    (p : PayloadHeader) (rest : Bytes)
    → IsCanonical p
    → unmarshal (header_bytes p ++ rest) ≡ ok (p, length (header_bytes p))
unfolding unmarshal put_le
unmarshal-header_bytes p rest c = ground (
  arith,
  get_le-put_le 2 p.exchange_id,
  get_le-put_le 2 p.protocol_id,
  get_le-put_le 2 p.vendor_id,
  get_le-put_le 4 p.ack_counter,
)

-- Decoding the encoding of a canonical payload header, followed by any bytes, gives the header
-- back and consumes exactly the encoding.
pub unmarshal-marshal_payload_header :
    (p : PayloadHeader) (rest : Bytes)
    → IsCanonical p
    → unmarshal (marshal p ++ rest) ≡ ok (p, length (marshal p))
unmarshal-marshal_payload_header p rest c = rw marshal_layout (unmarshal-header_bytes p rest c)

fixed_fields :
    (b : Bytes)
    → 6 ≤ length b
    → take 6 b ≡ get_or b 0 0 ∷ get_or b 1 0 ∷ (slice 2 4 b ++ slice 4 6 b)
fixed_fields (_ ∷ _ ∷ _ ∷ _ ∷ _ ∷ _ ∷ _) h = refl
fixed_fields _ h = absurd (omega arith)

-- The steps of an `Unmarshal` that succeeds.
unmarshal_fields :
    (b : Bytes) (p : PayloadHeader) (n : ℕ)
    → unmarshal b ≡ ok (p, n)
    → let v = vendor_present p.exchange_flags in
      let off : ℕ = if v then 8 else 6 in
      (6 ≤ length b)
      × (optional_field payload_header_too_short v 2 6 b ≡ ok (p.vendor_id, off))
      × (optional_field payload_header_too_short (acknowledges p.exchange_flags) 4 off b
          ≡ ok (p.ack_counter, n))
      × (p.exchange_flags ≡ get_or b 0 0)
      × (p.opcode ≡ get_or b 1 0)
      × (p.exchange_id ≡ get_le (slice 2 4 b))
      × (p.protocol_id ≡ get_le (slice 4 6 b))
unfolding unmarshal
unmarshal_fields b p n e = ground arith

-- Decoding succeeds only with a canonical payload header, and encoding that header gives back
-- exactly the bytes that were consumed.
pub marshal-unmarshal_payload_header :
    (b : Bytes) (p : PayloadHeader) (n : ℕ)
    → All IsByte b
    → unmarshal b ≡ ok (p, n)
    → IsCanonical p × (6 ≤ n) × (n ≤ length b) × (marshal p ≡ take n b)
marshal-unmarshal_payload_header b p n hb e =
    let (long, vendor, ack, f, o, x, pr) = unmarshal_fields b p n e in
    let off : ℕ = if vendor_present p.exchange_flags then 8 else 6 in
    let (past, low, vword, vabsent, upto) = optional_field_inv _ _ 2 6 b _ off hb long vendor in
    let (after, stop, aword, aabsent, whole) = optional_field_inv _ _ 4 off b _ n hb low ack in
    let canonical : IsCanonical p = record {
      flags_byte = rw f (get_or-IsByte b 0 hb);
      opcode_byte = rw o (get_or-IsByte b 1 hb);
      exchange_word = rw x (get_le-slice-lt 2 2 b (omega arith) hb);
      protocol_word = rw pr (get_le-slice-lt 4 2 b (omega arith) hb);
      vendor_word = vword;
      vendor_absent = vabsent;
      ack_word = aword;
      ack_absent = aabsent;
    } in
    let exchange : put_le 2 (get_le (slice 2 4 b)) ≡ slice 2 4 b =
      put_le-slice 2 2 b (omega arith) hb in
    let protocol : put_le 2 (get_le (slice 4 6 b)) ≡ slice 4 6 b =
      put_le-slice 4 2 b (omega arith) hb in
    let prefix : header_bytes p ≡ take n b =
      rw (whole, upto, fixed_fields b long, ← exchange, ← protocol, ← x, ← pr, ← f, ← o)
        (simp append_assoc) in
    (canonical, omega (arith, past, after), stop, rw marshal_layout prefix)
