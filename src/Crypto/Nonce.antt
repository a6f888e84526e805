-- ===== src/Crypto/Nonce.antt =====
-- crypto/crypto.go: the AES-CCM nonce and the generator of outbound nonces.
pub mod Distinct
use go_matter.Base.{ℕ, ◌+◌, ◌-◌, ◌%◌, ◌^◌, [], ◌∷◌, ◌==◌, if◌then◌else◌, replicate, Result, ok, err}
use go_matter.Base.Bytes.{Bytes, put_at, put_le}

abbrev pub matter_nonce_size : ℕ
matter_nonce_size = 13

-- `BuildNonce`
unfoldable pub build_nonce : ℕ → ℕ → ℕ → Bytes
build_nonce security_flags message_counter source_node_id =
    let nonce = replicate matter_nonce_size 0 in
    let nonce = put_at 0 (security_flags ∷ []) nonce in
    let nonce = put_at 1 (put_le 4 message_counter) nonce in
    put_at 5 (put_le 8 source_node_id) nonce

pub record NonceGenerator : Type 0 where
  pub source_node_id : ℕ
  pub security_flags : ℕ
  pub counter : ℕ

pub data Error : Type 0 where
  counter_exhausted : Error

abbrev pub max_uint32 : ℕ
max_uint32 = 2 ^ 32 - 1

-- `NonceGenerator.NextNonce`: the generator afterwards, and the nonce.
unfoldable pub next_nonce : NonceGenerator → Result Error (NonceGenerator × Bytes)
next_nonce ng =
    if ng.counter == max_uint32
    then err counter_exhausted
    else (let counter = (ng.counter + 1) % 2 ^ 32 in
        ok (
          record ng { counter = counter },
          build_nonce ng.security_flags counter ng.source_node_id,
        ))
