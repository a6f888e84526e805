-- ===== src/Commissioning/Pase.antt =====
-- commissioning/commissioning.go: what the two sides of the handshake share. The cryptography is a
-- parameter, and so is what the random source gives, bytes or an error.
use go_matter.Base.{
  ℕ, ◌+◌, ◌%◌, ◌^◌, [], ◌∷◌, ◌++◌, ◌==◌, if◌then◌else◌, replicate, Option, none, some, Result, ok,
  err, ◌>>=◌,
}
use go_matter.Base.Bytes.{Bytes, get_le}
use go_matter.Crypto.Provider.{Hkdf}
use go_matter.Crypto.Pbkdf.{Pbkdf2}
use go_matter.Crypto.Spake.Group
use go_matter.Crypto.Spake.Group.{Curve, Hashes}
use go_matter.Crypto.SessionKeys
use go_matter.Crypto.SessionKeys.{derive_session_keys_from_ke}
use go_matter.Session.Manager.{SessionManager, Role, install_secure_session, unspecified_node_id}
use go_matter.Tlv.Payload
use go_matter.Tlv.Encoder
use go_matter.Message.Builder
use go_matter.Message.Builder.{Builder}

pub record Suite : Type 0 where
  pub curve : Curve
  pub hashes : Hashes
  pub pbkdf2 : Pbkdf2

-- `CommissioningState`
pub data State : Type 0 where
  idle pase_pbkdf_param_response pase_pake1 pase_pake2 pase_pake3 case complete error : State

-- The errors of the two sides, with those that they wrap.
pub data Error : Type 0 where
  random : Error
  decode : Payload.Error → Error
  wrong_random missing_parameters : Error
  unexpected_opcode : ℕ → Error
  spake derive_scalars derive_verifier new_prover compute_pa finalize verify new_verifier
        compute_pb :
      Group.Error → Error
  pake2_before_pake1 pake3_before_pake1 : Error
  session_keys : SessionKeys.Error → Error
  build : Builder.Error Encoder.Error → Error
  no_session_manager : Error

-- What the random source gives to one call: 32 bytes for a nonce of the handshake or for a scalar,
-- four bytes for a counter.
pub record Randomness : Type 0 where
  pub nonce : Option Bytes
  pub scalar : Option Bytes
  pub seed : Option Bytes

-- The bytes of "CHIP PAKE V1 Commissioning".
abbrev pub pase_context_prefix : Bytes
pase_context_prefix =
    b'C' ∷ b'H' ∷ b'I' ∷ b'P' ∷ b' ' ∷ b'P' ∷ b'A' ∷ b'K' ∷ b'E' ∷ b' ' ∷ b'V' ∷ b'1' ∷ b' ' ∷ b'C'
    ∷ b'o' ∷ b'm' ∷ b'm' ∷ b'i' ∷ b's' ∷ b's' ∷ b'i' ∷ b'o' ∷ b'n' ∷ b'i' ∷ b'n' ∷ b'g' ∷ []

-- `paseContext`
unfoldable pub pase_context : (req resp : Bytes) → Bytes
pase_context req resp = (pase_context_prefix ++ req) ++ resp

abbrev pub drawn : {A : Type 0} → (Bytes → A) → Option Bytes → Result Error A
drawn f none = err random
drawn f (some b) = ok (f b)

-- `bumpCounter`: the counter afterwards.
unfoldable pub bump_counter : ℕ → Option Bytes → Result Error ℕ
bump_counter ctr seed = if ctr == 0 then drawn get_le seed else ok ((ctr + 1) % 2 ^ 32)

abbrev pub keys_of : {A : Type 0} → Result SessionKeys.Error A → Result Error A
keys_of (ok keys) = ok keys
keys_of (err e) = err (session_keys e)

-- `installPASESession`
unfoldable pub install_pase_session :
    Hkdf → SessionManager → ℕ → Bytes → Role → Result Error SessionManager
install_pase_session kdf sm id ke role = do
  keys ← keys_of (derive_session_keys_from_ke kdf ke)
  ok (install_secure_session sm id unspecified_node_id unspecified_node_id keys role)

-- A 32-byte buffer after `rand.Read`: a failed draw leaves it as `make` gave it.
abbrev pub or_zeros : Option Bytes → Bytes
or_zeros none = replicate 32 0
or_zeros (some b) = b

-- `if ackMC != 0 { b = b.AckCounter(ackMC) }`
abbrev pub acknowledge : {E : Type 0} → ℕ → Builder E → Builder E
acknowledge ack b = let acked = Builder.ack_counter ack b in if ack == 0 then b else acked
