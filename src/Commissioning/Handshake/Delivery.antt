-- ===== src/Commissioning/Handshake/Delivery.antt =====
-- What the random source grants, and frames that reach the handler of their opcode.
use go_matter.Base.{
  ℕ, ◌≤◌, take-all, ◌+◌, ◌%◌, ◌^◌, ◌<◌, ◌≡◌, arith, All, length, none, some, ok, inl, inr,
  Bool-cases, ◌==◌,
}
use go_matter.Base.Bytes.{Bytes, IsByte, get_le, get_le-lt}
use go_matter.Message.Frame.{Frame}
use go_matter.Message.Frame.RoundTrip.{decode-encode}
use go_matter.Message.Frame.Size.{length-encode}
use go_matter.Tlv.Decoder.{GoType, El}
use go_matter.Transport.{send}
use go_matter.Commissioning.Messages.{
  pbkdf_param_request, pbkdf_param_response, pake1, pake2, pake3,
}
use go_matter.Commissioning.Opcodes.{
  opcode_pbkdf_param_request, opcode_pbkdf_param_response, opcode_pase_pake1, opcode_pase_pake2,
  opcode_pase_pake3,
}
use go_matter.Commissioning.Pase.{Suite, Randomness, bump_counter}
use go_matter.Commissioning.Commissioner
use go_matter.Commissioning.Commissioner.{Commissioner}
use go_matter.Commissioning.Commissionee
use go_matter.Commissioning.Commissionee.{Commissionee}
use go_matter.Commissioning.Frames.{Delivers}
use go_matter.Commissioning.Handshake.{over_wire, settled, to_controller, to_device}

-- The random source answers every call.
pub record IsGranted (r : Randomness) : Type 0 where
  pub nonce : Bytes
  pub nonce_drawn : r.nonce ≡ some nonce
  pub nonce_size : length nonce ≡ 32
  pub scalar : Bytes
  pub scalar_drawn : r.scalar ≡ some scalar
  pub seed : Bytes
  pub seed_drawn : r.seed ≡ some seed
  pub seed_size : length seed ≡ 4
  pub seed_bytes : All IsByte seed

-- The next counter exists and fits a uint32.
pub bump_counter_ok :
    (counter : ℕ) (r : Randomness)
    → IsGranted r
    → (n : ℕ) × (bump_counter counter r.seed ≡ ok n) × (n < 2 ^ 32)
unfolding bump_counter
bump_counter_ok counter r g = elim (Bool-cases (counter == 0)) [
  | inl zero ↦
      (get_le g.seed, rw (g.seed_drawn, zero), rw g.seed_size at (get_le-lt g.seed g.seed_bytes))
  | inr set ↦ ((counter + 1) % 2 ^ 32, rw set, omega arith)
]

module _ (f : Frame) (exchange counter opcode : ℕ) (t : GoType) (v : El t)
    (h : Delivers f exchange counter opcode t v) where
  over_wire_lem : over_wire f ≡ ok f
  unfolding over_wire send
  over_wire_lem =
      let (w, sent, back) = decode-encode f h.canonical in
      let short : length w ≤ 2048 = omega (arith, length-encode f w sent, h.small) in
      rw (sent, take-all 2048 w short, back)

module _ (suite : Suite) (r : Randomness) (f : Frame) (exchange counter : ℕ) where
  pub deliver_response :
      (c : Commissioner) (v : El pbkdf_param_response)
      → Delivers f exchange counter opcode_pbkdf_param_response pbkdf_param_response v
      → to_controller suite r c f ≡ settled (Commissioner.handle_pbkdf_param_response suite f r c)
  unfolding to_controller Commissioner.handle_message
  deliver_response c v h = rw (over_wire_lem f _ _ _ _ v h, h.same_opcode)

  pub deliver_pake2 :
      (c : Commissioner) (v : El pake2)
      → Delivers f exchange counter opcode_pase_pake2 pake2 v
      → to_controller suite r c f ≡ settled (Commissioner.handle_pake2 suite f r c)
  unfolding to_controller Commissioner.handle_message
  deliver_pake2 c v h = rw (over_wire_lem f _ _ _ _ v h, h.same_opcode)

  pub deliver_request :
      (d : Commissionee) (v : El pbkdf_param_request)
      → Delivers f exchange counter opcode_pbkdf_param_request pbkdf_param_request v
      → to_device suite r d f
        ≡ settled (Commissionee.sending suite (Commissionee.handle_pbkdf_param_request f r) d)
  unfolding to_device Commissionee.handle_message
  deliver_request d v h = rw (over_wire_lem f _ _ _ _ v h, h.same_opcode)

  pub deliver_pake1 :
      (d : Commissionee) (v : El pake1)
      → Delivers f exchange counter opcode_pase_pake1 pake1 v
      → to_device suite r d f
        ≡ settled (Commissionee.sending suite (Commissionee.handle_pake1 suite f r) d)
  unfolding to_device Commissionee.handle_message
  deliver_pake1 d v h = rw (over_wire_lem f _ _ _ _ v h, h.same_opcode)

  pub deliver_pake3 :
      (d : Commissionee) (v : El pake3)
      → Delivers f exchange counter opcode_pase_pake3 pake3 v
      → (d' : Commissionee) → Commissionee.handle_pake3 suite f d ≡ (d', ok tt)
      → to_device suite r d f ≡ ok (d', none)
  unfolding to_device Commissionee.handle_message Commissionee.handle_pake3
  deliver_pake3 d v h d' e = rw (over_wire_lem f _ _ _ _ v h, h.same_opcode, e)
