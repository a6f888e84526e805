-- ===== src/Crypto/SessionKeys.antt =====
-- crypto/session_keys.go: the three session keys that HKDF expands from the shared secret Ke.
use go_matter.Base.{
  ◌<◌, ◌≡◌, ◌==◌, [], ◌∷◌, length, length-take, length-drop, drop, Result, ok, ◌>>=◌, ◌>>◌, refuse,
  wrap, arith,
}
use go_matter.Base.Bytes.{Bytes, slice}
use go_matter.Base.Int.{pos}
use go_matter.Crypto.Provider
use go_matter.Crypto.Provider.{Hkdf, hkdf}

pub record SessionKeys : Type 0 where
  pub i2r_key : Bytes
  pub r2i_key : Bytes
  pub attestation_challenge : Bytes

-- The bytes of "SessionKeys".
abbrev pub session_key_info : Bytes
session_key_info = b'S' ∷ b'e' ∷ b's' ∷ b's' ∷ b'i' ∷ b'o' ∷ b'n' ∷ b'K' ∷ b'e' ∷ b'y' ∷ b's' ∷ []

pub data Error : Type 0 where
  ke_empty : Error
  provider : Provider.Error → Error

-- `DeriveSessionKeysFromKe`
unfoldable pub derive_session_keys_from_ke : Hkdf → Bytes → Result Error SessionKeys
unfolding hkdf
derive_session_keys_from_ke kdf ke = do
  refuse (length ke == 0) ke_empty
  out ← wrap provider (hkdf kdf ke [] session_key_info (pos 48))
  ok (record {
    i2r_key = slice 0 16 out;
    r2i_key = slice 16 32 out;
    attestation_challenge = slice 32 48 out;
  })

-- Every nonempty secret gives three keys of 16 bytes, which AES-128 takes.
pub derive-sizes :
    (kdf : Hkdf) (ke : Bytes)
    → 0 < length ke
    → (keys : SessionKeys) × (derive_session_keys_from_ke kdf ke ≡ ok keys)
      × (length keys.i2r_key ≡ 16)
      × (length keys.r2i_key ≡ 16)
      × (length keys.attestation_challenge ≡ 16)
unfolding derive_session_keys_from_ke
derive-sizes kdf ke h =
    let (out, e, n) = kdf.expand_length ke [] session_key_info 48 (omega arith) in
    let keys : SessionKeys = record {
      i2r_key = slice 0 16 out;
      r2i_key = slice 16 32 out;
      attestation_challenge = slice 32 48 out;
    } in
    (
      keys,
      ground arith,
      ground (arith, length-take 16 out),
      omega (arith, length-take 16 (drop 16 out), length-drop 16 out),
      omega (arith, length-take 16 (drop 32 out), length-drop 32 out),
    )
