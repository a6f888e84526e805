-- ===== src/Crypto/Spake.antt =====
-- crypto/spake2plus.go. `Group` holds what the code takes from crypto/elliptic and from the hash
-- packages, `Transcript` the key schedule, `Prover` and `Verifier` the two sides.
pub mod Group
pub mod Transcript
pub mod Prover
pub mod Verifier
pub mod Agreement
pub mod Sides
pub mod Init
pub mod Binding
pub mod Inputs
pub mod Confirmed
pub mod Kept
pub mod Passcode
