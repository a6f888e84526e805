-- ===== src/Crypto.antt =====
-- crypto/: nonces and AES-CCM (crypto.go), session keys (session_keys.go), and SPAKE2+
-- (spake2plus.go, pbkdf.go).
pub mod Nonce
pub mod Provider
pub mod SessionKeys
pub mod BigInt
pub mod Spake
pub mod Pbkdf
