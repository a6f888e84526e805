-- ===== src/Crypto/Provider.antt =====
-- crypto/crypto.go: `DefaultCryptoProvider` and HKDF. AES-CCM is pion/dtls's `ccm` package and
-- HKDF is golang.org/x/crypto's: both are parameters.
use go_matter.Base.{
  ℕ, ◌*◌, ◌^◌, ◌<◌, ◌≤◌, ◌≡◌, Bool, not, ◌||◌, ◌==◌, length, Option, none, some, Result, ok, err,
  ◌>>◌, refuse,
}
use go_matter.Base.Bytes.{Bytes}
use go_matter.Base.Int.{ℤ, pos, negsuc}
use go_matter.Crypto.Nonce.{matter_nonce_size}

-- `cipher.AEAD` as `ccm.NewCCM(block, 16, 13)` gives it for a key: `Seal`, none where it panics
-- (a plaintext above the cipher's `MaxLength`), and `Open`, which fails on a ciphertext that does
-- not authenticate. With a nonce of 13 bytes the length field has 2, so `MaxLength` is 2^16 - 1:
-- up to it, under an AES key, `Seal` gives a ciphertext and `Open` undoes it.
pub record Ccm : Type 0 where
  pub seal : (key nonce plaintext aad : Bytes) → Option Bytes
  pub unseal : (key nonce ciphertext aad : Bytes) → Option Bytes
  pub unseal-seal :
      (key nonce plaintext aad : Bytes)
      → length key ≡ 16
      → length nonce ≡ matter_nonce_size
      → length plaintext < 2 ^ 16
      → (ct : Bytes) × (seal key nonce plaintext aad ≡ some ct)
        × (unseal key nonce ct aad ≡ some plaintext)

-- The reader of `hkdf.New(sha256.New, secret, salt, info)`: its first `n` bytes, if it can give
-- that many. RFC 5869 allows 255 blocks of 32 bytes.
pub record Hkdf : Type 0 where
  pub expand : (secret salt info : Bytes) (n : ℕ) → Option Bytes
  pub expand_length :
      (secret salt info : Bytes) (n : ℕ)
      → n ≤ 255 * 32
      → (out : Bytes) × (expand secret salt info n ≡ some out) × (length out ≡ n)

pub data Error : Type 0 where
  invalid_nonce_size : Error
  aes_key : ℕ → Error
  seal_panics : Error
  authentication : Error
  hkdf_length : Error
  hkdf_expand : Error

-- The key sizes of `aes.NewCipher`.
abbrev pub is_aes_key : Bytes → Bool
is_aes_key key = length key == 16 || length key == 24 || length key == 32

module _ (ccm : Ccm) where
  -- `newMatterCCM`: the checks before a cipher is made.
  unfoldable pub new_matter_ccm : Bytes → Bytes → Result Error (Unit {0})
  new_matter_ccm key nonce = do
    refuse (not (length nonce == matter_nonce_size)) invalid_nonce_size
    refuse (not (is_aes_key key)) (aes_key (length key))

  abbrev sealed : Option Bytes → Result Error Bytes
  sealed none = err seal_panics
  sealed (some ciphertext) = ok ciphertext

  -- `Encrypt`; the error `seal_panics` is the panic of `Seal`, which the code does not recover.
  unfoldable pub encrypt : (key nonce plaintext aad : Bytes) → Result Error Bytes
  unfolding new_matter_ccm
  encrypt key nonce plaintext aad = do
    new_matter_ccm key nonce
    sealed (ccm.seal key nonce plaintext aad)

  abbrev opened : Option Bytes → Result Error Bytes
  opened none = err authentication
  opened (some plaintext) = ok plaintext

  unfoldable pub decrypt : (key nonce ciphertext aad : Bytes) → Result Error Bytes
  unfolding new_matter_ccm
  decrypt key nonce ciphertext aad = do
    new_matter_ccm key nonce
    opened (ccm.unseal key nonce ciphertext aad)

module _ (kdf : Hkdf) where
  abbrev expanded : Option Bytes → Result Error Bytes
  expanded none = err hkdf_expand
  expanded (some out) = ok out

  -- `HKDF`
  unfoldable pub hkdf : (secret salt info : Bytes) → ℤ → Result Error Bytes
  hkdf secret salt info (negsuc n) = err hkdf_length
  hkdf secret salt info (pos n) = expanded (kdf.expand secret salt info n)

  -- `DefaultCryptoProvider.DeriveKeys`
  unfoldable pub derive_keys : (secret salt info : Bytes) → Result Error Bytes
  unfolding hkdf
  derive_keys secret salt info = hkdf secret salt info (pos 16)
