-- ===== src/Message/Header/RoundTrip.antt =====
-- `Marshal` and `Unmarshal` undo one another.
use go_matter.Base.{
  ℕ, ◌≡◌, ◌≤◌, refl, arith, ◌∷◌, ◌++◌, if◌then◌else◌, bit_and, ok, length, take, get_or, All, ap,
  ◌∙◌,
}
use mathlib.Core.List.{append-nil, append_assoc}
use go_matter.Base.Bytes.{
  Bytes, put_le, get_le, get_le-put_le, IsByte, put_le-slice, get_le-slice-lt, take-slice, slice,
}
use go_matter.Message.Wire.{header_too_short, optional_field, optional_field_inv, get_or-IsByte}
use go_matter.Message.Flags.{source_present, dsiz}
use go_matter.Message.Header.{Header, marshal, unmarshal, read_dest, IsCanonical, IsDest}
use go_matter.Message.Header.Layout.{header_bytes, dest_bytes, marshal_layout}

unmarshal-header_bytes :
    (h : Header) (rest : Bytes)
    → IsCanonical h
    → unmarshal (header_bytes h ++ rest) ≡ ok (h, length (header_bytes h))
unfolding unmarshal put_le
unmarshal-header_bytes h rest c = ground (
  arith,
  get_le-put_le 2 h.session_id,
  get_le-put_le 4 h.message_counter,
  get_le-put_le 8 h.source_node_id,
  get_le-put_le 8 h.dest_node_id,
  get_le-put_le 2 h.dest_node_id,
)

-- Every canonical header is encoded, and decoding the encoding followed by any bytes gives the
-- header back and consumes exactly the encoding.
pub unmarshal-marshal_header :
    (h : Header) (rest : Bytes)
    → IsCanonical h
    → (b : Bytes) × (marshal h ≡ ok b) × (unmarshal (b ++ rest) ≡ ok (h, length b))
unmarshal-marshal_header h rest c =
    (header_bytes h, marshal_layout h c.dest, unmarshal-header_bytes h rest c)

-- The fixed fields of an input, in order.
fixed_fields :
    (b : Bytes)
    → 8 ≤ length b
    → take 8 b ≡ get_or b 0 0 ∷ (slice 1 3 b ++ (get_or b 3 0 ∷ slice 4 8 b))
fixed_fields (_ ∷ _ ∷ _ ∷ _ ∷ _ ∷ _ ∷ _ ∷ _ ∷ _) h = refl
fixed_fields _ h = absurd (omega arith)

read_dest_inv :
    (d off : ℕ) (b : Bytes) (v end : ℕ)
    → All IsByte b
    → off ≤ length b
    → read_dest d off b ≡ ok (v, end)
    → (off ≤ end) × (end ≤ length b) × IsDest d v × (take end b ≡ take off b ++ dest_bytes d v)
read_dest_inv d off b v end hb ho h = ground (
  arith,
  put_le-slice off 8 b,
  put_le-slice off 2 b,
  get_le-slice-lt off 8 b,
  get_le-slice-lt off 2 b,
  take-slice off 8 b,
  take-slice off 2 b,
  append-nil (take off b),
)

-- The steps of an `Unmarshal` that succeeds.
unmarshal_fields :
    (b : Bytes) (h : Header) (n : ℕ)
    → unmarshal b ≡ ok (h, n)
    → let off : ℕ = if source_present h.flags then 16 else 8 in
      (8 ≤ length b)
      × (bit_and h.flags 0xF0 ≡ 0)
      × (optional_field header_too_short (source_present h.flags) 8 8 b
          ≡ ok (h.source_node_id, off))
      × (read_dest (dsiz h.flags) off b ≡ ok (h.dest_node_id, n))
      × (h.flags ≡ get_or b 0 0)
      × (h.session_id ≡ get_le (slice 1 3 b))
      × (h.security_flags ≡ get_or b 3 0)
      × (h.message_counter ≡ get_le (slice 4 8 b))
unfolding unmarshal
unmarshal_fields b h n e = ground arith

-- Decoding succeeds only with a canonical header, and encoding that header gives back exactly
-- the bytes that were consumed.
pub marshal-unmarshal_header :
    (b : Bytes) (h : Header) (n : ℕ)
    → All IsByte b
    → unmarshal b ≡ ok (h, n)
    → IsCanonical h × (8 ≤ n) × (n ≤ length b) × (marshal h ≡ ok (take n b))
marshal-unmarshal_header b h n hb e =
    let (long, version, source, dest, f, s, c, m) = unmarshal_fields b h n e in
    let off : ℕ = if source_present h.flags then 16 else 8 in
    let (past, low, word, absent, upto) = optional_field_inv _ _ 8 8 b _ off hb long source in
    let (after, stop, is_dest, whole) = read_dest_inv (dsiz h.flags) off b _ n hb low dest in
    let canonical : IsCanonical h = record {
      flags_byte = rw f (get_or-IsByte b 0 hb);
      version = version;
      session_word = rw s (get_le-slice-lt 1 2 b (omega arith) hb);
      security_byte = rw c (get_or-IsByte b 3 hb);
      counter_word = rw m (get_le-slice-lt 4 4 b (omega arith) hb);
      source_word = word;
      source_absent = absent;
      dest = is_dest;
    } in
    let session : put_le 2 (get_le (slice 1 3 b)) ≡ slice 1 3 b =
      put_le-slice 1 2 b (omega arith) hb in
    let counter : put_le 4 (get_le (slice 4 8 b)) ≡ slice 4 8 b =
      put_le-slice 4 4 b (omega arith) hb in
    let prefix : header_bytes h ≡ take n b =
      rw (whole, upto, fixed_fields b long, ← session, ← counter, ← s, ← m, ← f, ← c)
        (simp append_assoc) in
    (canonical, omega (arith, past, after), stop, marshal_layout h is_dest ∙ ap ok prefix)
