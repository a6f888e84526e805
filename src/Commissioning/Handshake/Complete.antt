-- ===== src/Commissioning/Handshake/Complete.antt =====
-- The whole handshake between a controller and a device that were set up for one passcode.
use go_matter.Base.{
  ℕ, ◌^◌, ◌<◌, ◌≡◌, ◌≢◌, refl, arith, true, false, some, ok, ◌==◌, if◌then◌else◌, Bool-cases, inl,
  inr,
}
use go_matter.Base.Bytes.{Bytes}
use go_matter.Crypto.BigInt.{set_bytes}
use go_matter.Crypto.Spake.Prover.{share_pa}
use go_matter.Crypto.Spake.Verifier.{share_pb}
use go_matter.Crypto.Spake.Sides.{Sides, sides_agree}
use go_matter.Session.Manager.{initiator, responder, install_secure_session}
use go_matter.Message.Frame.{Frame}
use go_matter.Commissioning.Messages.{pbkdf_param_response}
use go_matter.Commissioning.Opcodes.{opcode_pbkdf_param_response}
use go_matter.Commissioning.Frames.{Delivers}
use go_matter.Commissioning.Pase.{Suite, Randomness, pase_context}
use go_matter.Commissioning.Commissioner.{Commissioner}
use go_matter.Commissioning.Commissionee.{Commissionee}
use go_matter.Commissioning.Handshake.{agree, handshake}
use go_matter.Commissioning.Handshake.Outcome.{IsProvisioned, Established, installed, established}
use go_matter.Commissioning.Handshake.Steps.{
  starting, started, requested, responded, informed, proving, verifying, controller_done,
  device_done, pake3-handled,
}
use go_matter.Commissioning.Handshake.Delivery.{
  IsGranted, deliver_request, deliver_response, deliver_pake1, deliver_pake2, deliver_pake3,
}
use go_matter.Commissioning.Handshake.Turns.{
  default_word, start-turn, request-turn, response-turn, pake1-turn, pake2-turn,
}

provisioned-Sides :
    (suite : Suite) (d : Commissionee) (passcode : ℕ) (w1 context ra rb : Bytes)
    → IsProvisioned suite d passcode w1
    → suite.curve.is_on_curve (share_pa suite.curve suite.hashes d.w0 (set_bytes ra)) ≡ true
    → suite.curve.is_on_curve (share_pb suite.curve suite.hashes d.w0 (set_bytes rb)) ≡ true
    → Sides suite.curve suite.hashes d.w0 w1 d.l context ra rb
provisioned-Sides suite d passcode w1 context ra rb ready on_a on_b = rw ready.point (
    sides_agree suite.curve suite.hashes d.w0 w1 context ra rb ready.w0_set ready.w1_set
      ready.on_curve on_a on_b)

default_nonzero : (id default : ℕ) → default ≢ 0 → (if id == 0 then default else id) ≢ 0
default_nonzero id default h = elim (Bool-cases (id == 0)) [
  | inl zero ↦ rw zero h
  | inr set ↦ rw set λ e. ground arith
]

module _ (suite : Suite) (w1 : Bytes) (a2 a3 b2 b3 : Randomness) (g2 : IsGranted a2)
    (g3 : IsGranted a3) (h2 : IsGranted b2) where
  -- Once both sides have the two parameter messages.
  agree-Established :
      (c : Commissioner) (d : Commissionee) (f : Frame) (ex m : ℕ) (random : Bytes) (id : ℕ)
      → Delivers f ex m opcode_pbkdf_param_response pbkdf_param_response
          (c.random, (random, (id, (some (d.iterations, (d.salt, tt)), tt))))
      → pase_context d.request_payload d.response_payload ≡ pase_context c.request_payload f.payload
      → c.exchange_id < 2 ^ 16
      → d.exchange_id < 2 ^ 16
      → c.session_id ≢ 0
      → d.session_id ≢ 0
      → id ≡ d.session_id
      → d.initiator_session_id ≡ c.session_id
      → IsProvisioned suite d c.passcode w1
      → suite.curve.is_on_curve (share_pa suite.curve suite.hashes d.w0 (set_bytes g2.scalar))
        ≡ true
      → suite.curve.is_on_curve (share_pb suite.curve suite.hashes d.w0 (set_bytes h2.scalar))
        ≡ true
      → (c' : Commissioner) × (d' : Commissionee) × (agree suite c d f a2 a3 b2 b3 ≡ ok (c', d'))
        × Established c' d'
  unfolding agree
  agree-Established c d f ex m random id told same hc hd zc zd peer peer' ready on_a on_b =
      let context = pase_context c.request_payload f.payload in
      let run =
        provisioned-Sides suite d c.passcode w1 context g2.scalar h2.scalar ready on_a on_b in
      let (n3, f3, sent3, told3) =
        response-turn suite c f a2 g2 _ _ random id d.iterations d.salt d.w0 w1 d.l h2.scalar told
          ready.scalars run hc in
      let c2 = proving (informed c f random id d.iterations d.salt) run.p' n3 in
      let (n4, f4, sent4, told4) =
        pake1-turn suite d f3 b2 h2 _ _ w1 context g2.scalar run same told3 hd in
      let d2 = verifying d run.v'' n4 in
      let (keys, install, size, size') =
        installed suite.hashes.kdf run.keys.ke (rw run.ke_size (omega arith)) in
      let (n5, f5, sent5, told5) =
        pake2-turn suite c2 f4 a3 g3 _ _ d.w0 w1 d.l context g2.scalar h2.scalar run _ refl told4
          (install c.session_manager c.session_id initiator) hc in
      let last =
        pake3-handled suite d2 f5 run.keys.ca run.keys.ke run.v'' _ refl told5.decoded
          run.ca_checked run.verifier_key (install d.session_manager d.session_id responder) in
      let sm = install_secure_session c.session_manager c.session_id 0 0 keys initiator in
      let tm = install_secure_session d.session_manager d.session_id 0 0 keys responder in
      (
        controller_done c2 run.p'' run.keys.ke sm n5,
        device_done d2 run.keys.ke tm,
        rw (
          deliver_response suite a2 f _ _ c _ told,
          sent3,
          deliver_pake1 suite b2 f3 _ _ d _ told3,
          sent4,
          deliver_pake2 suite a3 f4 _ _ c2 _ told4,
          sent5,
          deliver_pake3 suite b3 f5 _ _ d2 _ told5 _ last,
        ),
        established c2 d2 run.p'' run.keys.ke n5 keys zc zd size size' peer peer',
      )

-- A controller and a device that was provisioned for the passcode with a salt of at most 1024 bytes,
-- with ids in the range of their types and in whatever state an earlier attempt left them, complete the handshake over the wire if
-- the random source answers and the two shares are points of the curve: both reach the complete
-- state with the same shared key, know one another's session ids, and each has a new session under
-- its own id, whose keys fit the other's.
pub handshake-Established :
    (suite : Suite) (c : Commissioner) (d : Commissionee) (passcode : ℕ) (w1 : Bytes)
    (a1 a2 a3 b1 b2 b3 : Randomness) (g1 : IsGranted a1) (g2 : IsGranted a2) (g3 : IsGranted a3)
    (h1 : IsGranted b1) (h2 : IsGranted b2)
    → c.session_id < 2 ^ 16
    → c.exchange_id < 2 ^ 16
    → IsProvisioned suite d passcode w1
    → suite.curve.is_on_curve (share_pa suite.curve suite.hashes d.w0 (set_bytes g2.scalar)) ≡ true
    → suite.curve.is_on_curve (share_pb suite.curve suite.hashes d.w0 (set_bytes h2.scalar)) ≡ true
    → (c' : Commissioner) × (d' : Commissionee) × (handshake suite c d passcode a1 a2 a3 b1 b2 b3
        ≡ ok (c', d'))
      × Established c' d'
unfolding handshake
handshake-Established suite c d passcode w1 a1 a2 a3 b1 b2 b3 g1 g2 g3 h1 h2 hs hx ready on_a on_b =
    let c0 = starting c passcode g1.nonce in
    let (n1, f1, sent1, told1) = start-turn c passcode a1 g1 hs hx in
    let c1 = started c0 n1 f1.payload in
    let d0 = requested d f1 (g1.nonce, (c0.session_id, (0, (false, (0, tt))))) h1.nonce in
    let (n2, f2, sent2, told2) =
      request-turn d f1 b1 h1 _ _ g1.nonce c0.session_id told1 g1.nonce_size ready.session_word
        ready.iterations_word ready.salt_size in
    let d1 = responded d0 n2 f2.payload in
    let ready' : IsProvisioned suite d1 passcode w1 = record {
      scalars = ready.scalars;
      point = ready.point;
      on_curve = ready.on_curve;
      w0_set = ready.w0_set;
      w1_set = ready.w1_set;
      salt_size = ready.salt_size;
      iterations_word = ready.iterations_word;
      session_word = default_word d.session_id 23456 ready.session_word (omega arith);
    } in
    let (c', d', done, outcome) =
      agree-Established suite w1 a2 a3 b2 b3 g2 g3 h2 c1 d1 f2 _ _ h1.nonce d0.session_id told2 refl
        (default_word c.exchange_id 1 hx (omega arith)) told1.canonical.payload_header.exchange_word
        (default_nonzero c.session_id 12345 (ground arith))
        (default_nonzero d.session_id 23456 (ground arith)) refl refl ready' on_a on_b in
    (c', d', rw (sent1, deliver_request suite b1 f1 _ _ d _ told1, sent2, done), outcome)
