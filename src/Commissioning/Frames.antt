-- ===== src/Commissioning/Frames.antt =====
-- The frames of the handshake: what the receiver finds in a frame that the sender built.
use go_matter.Base.{
  ℕ, ◌≤◌, length, ◌^◌, ◌<◌, ◌≡◌, refl, arith, [], ◌==◌, false, ok, inl, inr, Bool-cases,
}
use mathlib.Core.List.{append-nil}
use go_matter.Base.Bytes.{Bytes}
use go_matter.Message.Frame
use go_matter.Message.Frame.{Frame}
use go_matter.Message.PayloadHeader.{acknowledges}
use go_matter.Message.Builder
use go_matter.Tlv.Encoder
use go_matter.Tlv.Encoder.Size.{size_bound, length-marshal}
use go_matter.Tlv.Decoder.{GoType, El, view}
use go_matter.Tlv.Payload.{decode_payload}
use go_matter.Tlv.RoundTrip.Fits.{Fits}
use go_matter.Tlv.RoundTrip.Structs.{decode_payload-marshal}
use go_matter.Commissioning.Commissioner.{initiator_frame}
use go_matter.Commissioning.Commissionee.{responder_frame}

-- What the receiver looks at, in a frame that the wire form holds.
record Carries (f : Frame) (exchange counter opcode : ℕ) (payload : Bytes) : Type 0 where
  pub same_payload : f.payload ≡ payload
  pub same_opcode : f.payload_header.opcode ≡ opcode
  pub same_exchange : f.payload_header.exchange_id ≡ exchange
  pub same_counter : f.header.message_counter ≡ counter
  pub canonical : Frame.IsCanonical f

abbrev frame_with : (flags exchange counter opcode ack : ℕ) → Bytes → Frame
frame_with flags exchange counter opcode ack payload = record {
  header = record {
    flags = 0;
    session_id = 0;
    security_flags = 0;
    message_counter = counter;
    source_node_id = 0;
    dest_node_id = 0;
  };
  payload_header = record {
    exchange_flags = flags;
    opcode = opcode;
    exchange_id = exchange;
    protocol_id = 0;
    vendor_id = 0;
    ack_counter = ack;
  };
  payload = payload;
}

module _ (exchange counter opcode ack : ℕ) (v : Encoder.Value) (bs : Bytes)
    (word : exchange < 2 ^ 16) (counter_word : counter < 2 ^ 32) (code : opcode < 256)
    (some_code : opcode == 0 ≡ false) (ack_word : ack < 2 ^ 32)
    (written : Encoder.marshal v ≡ ok bs) where
  carries :
      (flags ack : ℕ)
      → flags < 256
      → ack < 2 ^ 32
      → (acknowledges flags ≡ false → ack ≡ 0)
      → Carries (frame_with flags exchange counter opcode ack bs) exchange counter opcode bs
  carries flags ack byte word32 absent = record {
    same_payload = refl;
    same_opcode = refl;
    same_exchange = refl;
    same_counter = refl;
    canonical = record { header = ground arith; payload_header = ground arith };
  }

  initiator_frame-Carries :
      (f : Frame) × (initiator_frame exchange counter opcode ack v ≡ ok f)
      × Carries f exchange counter opcode bs
  unfolding initiator_frame Builder.new_builder Builder.unsecured Builder.protocol Builder.opcode
      Builder.exchange_id Builder.message_counter Builder.initiator Builder.request_ack
      Builder.payload Builder.ack_counter Builder.build
  initiator_frame-Carries = elim (Bool-cases (ack == 0)) [
    | inl none_due ↦ (
      frame_with 5 exchange counter opcode 0 bs,
      rw (written, none_due, some_code),
      carries 5 0 (omega arith) (omega arith) (λ h. refl),
    )
    | inr due ↦ (
      frame_with 7 exchange counter opcode ack bs,
      rw (written, due, some_code),
      carries 7 ack (omega arith) ack_word (λ h. ground arith),
    )
  ]

  responder_frame-Carries :
      (f : Frame) × (responder_frame exchange counter opcode ack v ≡ ok f)
      × Carries f exchange counter opcode bs
  unfolding responder_frame Builder.new_builder Builder.unsecured Builder.protocol Builder.opcode
      Builder.exchange_id Builder.message_counter Builder.initiator Builder.request_ack
      Builder.payload Builder.ack_counter Builder.build
  responder_frame-Carries = elim (Bool-cases (ack == 0)) [
    | inl none_due ↦ (
      frame_with 4 exchange counter opcode 0 bs,
      rw (written, none_due, some_code),
      carries 4 0 (omega arith) (omega arith) (λ h. refl),
    )
    | inr due ↦ (
      frame_with 6 exchange counter opcode ack bs,
      rw (written, due, some_code),
      carries 6 ack (omega arith) ack_word (λ h. ground arith),
    )
  ]

-- A message passed as a pointer is encoded, and decoding the payload gives it back.
decode-pointer :
    (t : GoType) (v : El t)
    → Fits t v
    → (bs : Bytes) × (Encoder.marshal (Encoder.pointer (view t v)) ≡ ok bs)
      × (decode_payload t bs ≡ ok v)
unfolding Encoder.marshal Encoder.encode_value
decode-pointer t v fits =
    let (bs, written, back) = decode_payload-marshal t v [] fits in
    (bs, written, rw (← append-nil bs) back)

-- A frame of the wire format, whose payload decodes to the message and leaves room for the headers
-- in the receiver's buffer.
pub record Delivers (f : Frame) (exchange counter opcode : ℕ) (t : GoType) (v : El t) : Type 0 where
  pub same_opcode : f.payload_header.opcode ≡ opcode
  pub same_exchange : f.payload_header.exchange_id ≡ exchange
  pub same_counter : f.header.message_counter ≡ counter
  pub canonical : Frame.IsCanonical f
  pub decoded : decode_payload t f.payload ≡ ok v
  pub small : length f.payload ≤ 2012

module _ (exchange counter opcode ack : ℕ) (t : GoType) (v : El t) (word : exchange < 2 ^ 16)
    (counter_word : counter < 2 ^ 32) (code : opcode < 256) (some_code : opcode == 0 ≡ false)
    (ack_word : ack < 2 ^ 32) (fits : Fits t v) (room : size_bound (view t v) ≤ 2012) where
  delivers :
      (f : Frame) (bs : Bytes)
      → Carries f exchange counter opcode bs
      → Encoder.marshal (Encoder.pointer (view t v)) ≡ ok bs
      → decode_payload t bs ≡ ok v
      → Delivers f exchange counter opcode t v
  delivers f bs h written back = record {
    same_opcode = h.same_opcode;
    same_exchange = h.same_exchange;
    same_counter = h.same_counter;
    canonical = h.canonical;
    decoded = rw h.same_payload back;
    small = rw h.same_payload (omega (arith, length-marshal _ bs written));
  }

  pub initiator_frame-Delivers :
      (f : Frame) × (initiator_frame exchange counter opcode ack (Encoder.pointer (view t v))
        ≡ ok f)
      × Delivers f exchange counter opcode t v
  initiator_frame-Delivers =
      let (bs, written, back) = decode-pointer t v fits in
      let (f, built, h) =
        initiator_frame-Carries exchange counter opcode ack (Encoder.pointer (view t v)) bs word
          counter_word code some_code ack_word written in
      (f, built, delivers f bs h written back)

  pub responder_frame-Delivers :
      (f : Frame) × (responder_frame exchange counter opcode ack (Encoder.pointer (view t v))
        ≡ ok f)
      × Delivers f exchange counter opcode t v
  responder_frame-Delivers =
      let (bs, written, back) = decode-pointer t v fits in
      let (f, built, h) =
        responder_frame-Carries exchange counter opcode ack (Encoder.pointer (view t v)) bs word
          counter_word code some_code ack_word written in
      (f, built, delivers f bs h written back)
