-- ===== src/Message/Builder/Canonical.antt =====
-- Whatever methods are called, in whatever order, the frame under construction stays canonical.
use go_matter.Base.{ℕ, ◌^◌, ◌<◌, ◌≡◌, arith, List, [], ◌∷◌, Result, ok, All}
use go_matter.Base.Bytes.{Bytes}
use mathlib.Core.Path.{subst}
use go_matter.Message.Frame
use go_matter.Message.Frame.{Frame}
use go_matter.Message.Frame.RoundTrip.{decode-encode}
use go_matter.Message.Builder
use go_matter.Message.Builder.{Builder, Error, Argument, nothing, raw, value}
use go_matter.Message.Builder.Flags.{
  set_source-byte, set_source-version, set_source-dsiz, set_source-present, set_unicast-byte,
  set_unicast-version, set_unicast-dsiz, set_unicast-present, set_group-byte, set_group-version,
  set_group-dsiz, set_group-present, set_session_type-byte, set_initiator-byte,
  set_initiator-vendor, set_initiator-acks, set_reliability-byte, set_reliability-vendor,
  set_reliability-acks, set_acknowledgement-byte, set_acknowledgement-vendor,
  set_acknowledgement-acks, set_vendor-byte, set_vendor-vendor, set_vendor-acks,
}

-- A call of a method of the builder.
pub data Call (V : Type 0) : Type 0 where
  session_id message_counter source_node_id dest_node_id dest_group_id : ℕ → Call V
  protocol opcode exchange_id ack_counter vendor : ℕ → Call V
  unsecured initiator request_ack : Call V
  payload : Argument V → Call V

-- The argument lies in the range of its Go type.
abbrev pub IsTyped : {V : Type 0} → Call V → Type 0
IsTyped (session_id n) = n < 2 ^ 16
IsTyped (message_counter n) = n < 2 ^ 32
IsTyped (source_node_id n) = n < 2 ^ 64
IsTyped (dest_node_id n) = n < 2 ^ 64
IsTyped (dest_group_id n) = n < 2 ^ 16
IsTyped (protocol n) = n < 2 ^ 16
IsTyped (opcode n) = n < 256
IsTyped (exchange_id n) = n < 2 ^ 16
IsTyped (ack_counter n) = n < 2 ^ 32
IsTyped (vendor n) = n < 2 ^ 16
IsTyped _ = Unit {0}

module _ {E V : Type 0} (marshal : V → Result E Bytes) where
  unfoldable pub call : Call V → Builder E → Builder E
  unfolding Builder.session_id Builder.message_counter Builder.source_node_id Builder.dest_node_id
      Builder.dest_group_id Builder.protocol Builder.opcode Builder.exchange_id Builder.ack_counter
      Builder.vendor Builder.unsecured Builder.initiator Builder.request_ack Builder.payload
  call (session_id n) = Builder.session_id n
  call (message_counter n) = Builder.message_counter n
  call (source_node_id n) = Builder.source_node_id n
  call (dest_node_id n) = Builder.dest_node_id n
  call (dest_group_id n) = Builder.dest_group_id n
  call (protocol n) = Builder.protocol n
  call (opcode n) = Builder.opcode n
  call (exchange_id n) = Builder.exchange_id n
  call (ack_counter n) = Builder.ack_counter n
  call (vendor n) = Builder.vendor n
  call unsecured = Builder.unsecured
  call initiator = Builder.initiator
  call request_ack = Builder.request_ack
  call (payload v) = Builder.payload marshal v

  unfoldable pub calls : List (Call V) → Builder E → Builder E
  calls [] b = b
  calls (c ∷ cs) b = calls cs (call c b)

  call-IsCanonical :
      (c : Call V) (b : Builder E)
      → IsTyped c
      → Frame.IsCanonical b.frame
      → Frame.IsCanonical (call c b).frame
  unfolding call
  call-IsCanonical (source_node_id n) b t h =
      let f = b.frame.header.flags in
      ground
        (arith, set_source-byte f, set_source-version f, set_source-dsiz f, set_source-present f)
  call-IsCanonical (dest_node_id n) b t h =
      let f = b.frame.header.flags in
      ground (
        arith,
        set_unicast-byte f,
        set_unicast-version f,
        set_unicast-dsiz f,
        set_unicast-present f,
      )
  call-IsCanonical (dest_group_id n) b t h =
      let f = b.frame.header.flags in
      ground (arith, set_group-byte f, set_group-version f, set_group-dsiz f, set_group-present f)
  call-IsCanonical unsecured b t h =
      ground (arith, set_session_type-byte b.frame.header.security_flags)
  call-IsCanonical initiator b t h =
      let f = b.frame.payload_header.exchange_flags in
      ground (arith, set_initiator-byte f, set_initiator-vendor f, set_initiator-acks f)
  call-IsCanonical request_ack b t h =
      let f = b.frame.payload_header.exchange_flags in
      ground (arith, set_reliability-byte f, set_reliability-vendor f, set_reliability-acks f)
  call-IsCanonical (ack_counter n) b t h =
      let f = b.frame.payload_header.exchange_flags in
      ground (
        arith,
        set_acknowledgement-byte f,
        set_acknowledgement-vendor f,
        set_acknowledgement-acks f,
      )
  call-IsCanonical (vendor n) b t h =
      let f = b.frame.payload_header.exchange_flags in
      ground (arith, set_vendor-byte f, set_vendor-vendor f, set_vendor-acks f)
  call-IsCanonical (payload nothing) b t h = ground arith
  call-IsCanonical (payload (raw bytes)) b t h = ground arith
  call-IsCanonical (payload (value v)) b t h = ground arith
  call-IsCanonical _ b t h = ground arith

  calls-IsCanonical :
      (cs : List (Call V)) (b : Builder E)
      → All IsTyped cs
      → Frame.IsCanonical b.frame
      → Frame.IsCanonical (calls cs b).frame
  unfolding calls
  calls-IsCanonical [] b t h = h
  calls-IsCanonical (c ∷ cs) b (t, ts) h =
      calls-IsCanonical cs (call c b) ts (call-IsCanonical c b t h)

  empty_frame-IsCanonical : Frame.IsCanonical Builder.empty_frame
  empty_frame-IsCanonical = ground arith

  build-frame : (b : Builder E) (f : Frame) → Builder.build b ≡ ok f → b.frame ≡ f
  unfolding Builder.build
  build-frame b f e = ground arith

  built-IsCanonical :
      (cs : List (Call V)) (f : Frame)
      → All IsTyped cs
      → Builder.build (calls cs Builder.new_builder) ≡ ok f
      → Frame.IsCanonical f
  unfolding Builder.new_builder
  built-IsCanonical cs f t e =
      subst Frame.IsCanonical (build-frame _ f e)
        (calls-IsCanonical cs Builder.new_builder t empty_frame-IsCanonical)

  -- A frame that `Build` hands out after any sequence of well-typed method calls can be encoded,
  -- and the receiver decodes exactly that frame.
  pub build-decode :
      (cs : List (Call V)) (f : Frame)
      → All IsTyped cs
      → Builder.build (calls cs Builder.new_builder) ≡ ok f
      → (w : Bytes) × (Frame.encode f ≡ ok w) × (Frame.decode w ≡ ok f)
  build-decode cs f t e = decode-encode f (built-IsCanonical cs f t e)
