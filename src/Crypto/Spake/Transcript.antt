-- ===== src/Crypto/Spake/Transcript.antt =====
-- crypto/spake2plus.go: the transcript and the key schedule, which both sides share.
use go_matter.Base.{
  ℕ, ◌≡◌, [], ◌∷◌, ◌++◌, length, take, drop, Option, none, some, Result, ok, err, ◌>>=◌, arith,
}
use go_matter.Base.Bytes.{Bytes, length-slice, slice, put_le}
use go_matter.Crypto.Spake.Group.{Curve, Hashes, Error, hkdf_expand}

-- `spakeSerializeBytes`: a uint64 length and the bytes.
unfoldable pub serialize_bytes : Bytes → Bytes
serialize_bytes p = put_le 8 (length p) ++ p

-- `spakeBuildTT`; both identities are empty.
unfoldable pub build_tt : Curve → (context_hash pa pb z v w0 : Bytes) → Bytes
unfolding serialize_bytes
build_tt curve context_hash pa pb z v w0 =
    serialize_bytes context_hash
    ++ (serialize_bytes []
        ++ (serialize_bytes []
            ++ (serialize_bytes (curve.marshal curve.spake_m)
                ++ (serialize_bytes (curve.marshal curve.spake_n)
                    ++ (serialize_bytes pa
                        ++ (serialize_bytes pb
                            ++ (serialize_bytes z
                                ++ (serialize_bytes v ++ serialize_bytes w0))))))))

-- The bytes of "ConfirmationKeys".
abbrev pub confirmation_info : Bytes
confirmation_info =
    b'C' ∷ b'o' ∷ b'n' ∷ b'f' ∷ b'i' ∷ b'r' ∷ b'm' ∷ b'a' ∷ b't' ∷ b'i' ∷ b'o' ∷ b'n' ∷ b'K' ∷ b'e'
    ∷ b'y' ∷ b's' ∷ []

abbrev pub expanded : Option Bytes → Result Error Bytes
expanded none = err hkdf_expand
expanded (some out) = ok out

-- `spakeHkdfSha256`
unfoldable pub hkdf_sha256 : Hashes → (secret salt info : Bytes) → ℕ → Result Error Bytes
hkdf_sha256 hashes secret salt info size = expanded (hashes.kdf.expand secret salt info size)

-- Ke and the two confirmations.
pub record Keys : Type 0 where
  pub ke : Bytes
  pub ca : Bytes
  pub cb : Bytes

-- `spakeFinalize`
unfoldable pub spake_finalize : Curve → Hashes → (context pa pb z v w0 : Bytes) → Result Error Keys
unfolding hkdf_sha256
spake_finalize curve hashes context pa pb z v w0 = do
  let context_hash = hashes.sha256 context
  let tt_hash = hashes.sha256 (build_tt curve context_hash pa pb z v w0)
  confirm_keys ← hkdf_sha256 hashes (slice 0 16 tt_hash) [] confirmation_info 32
  ok (record {
    ke = slice 16 32 tt_hash;
    ca = hashes.hmac (take 16 confirm_keys) pb;
    cb = hashes.hmac (drop 16 confirm_keys) pa;
  })

-- The key schedule never fails: HKDF gives 32 bytes.
pub spake_finalize_sizes :
    (curve : Curve) (hashes : Hashes) (context pa pb z v w0 : Bytes)
    → (keys : Keys) × (spake_finalize curve hashes context pa pb z v w0 ≡ ok keys)
      × (length keys.ke ≡ 16)
      × (length keys.ca ≡ 32)
      × (length keys.cb ≡ 32)
unfolding spake_finalize
spake_finalize_sizes curve hashes context pa pb z v w0 =
    let tt_hash = hashes.sha256 (build_tt curve (hashes.sha256 context) pa pb z v w0) in
    let size : length tt_hash ≡ 32 = hashes.sha256_length _ in
    let (out, e, _) =
      hashes.kdf.expand_length (slice 0 16 tt_hash) [] confirmation_info 32 (omega arith) in
    (
      record {
        ke = slice 16 32 tt_hash;
        ca = hashes.hmac (take 16 out) pb;
        cb = hashes.hmac (drop 16 out) pa;
      },
      rw e,
      length-slice 16 16 tt_hash (omega arith),
      hashes.hmac_length _ _,
      hashes.hmac_length _ _,
    )

pub spake_finalize_total :
    (curve : Curve) (hashes : Hashes) (context pa pb z v w0 : Bytes)
    → (keys : Keys) × (spake_finalize curve hashes context pa pb z v w0 ≡ ok keys)
spake_finalize_total curve hashes context pa pb z v w0 =
    let (keys, e, _, _, _) = spake_finalize_sizes curve hashes context pa pb z v w0 in (keys, e)
