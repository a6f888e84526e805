-- ===== src/Examples/Crypto.antt =====
-- crypto/: nonces, keys and a run of SPAKE2+ over a toy group.
use go_matter.Base.{none, false, true, some, ◌-◌, ◌^◌, ◌≡◌, refl, arith, [], ◌∷◌, length, ok}
use go_matter.Base.Bytes.{Bytes, put_le}
use go_matter.Base.Int.{pos}
use go_matter.Crypto.Pbkdf.{spake2p_w0_w1_from_passcode, compute_spake2p_verifier_data}
use go_matter.Crypto.Spake.Transcript.{Keys}
use go_matter.Crypto.Spake.Kept.{ProverCalls, VerifierCalls, prover_keys-kept, verifier_keys-kept}
use go_matter.Crypto.Spake.Passcode.{passcode_agrees}
use go_matter.Crypto.BigInt.{put_be, set_bytes, set_bytes_from, to_bytes, set_bytes-to_bytes}
use go_matter.Crypto.Nonce.{NonceGenerator, build_nonce}
use go_matter.Crypto.Nonce.Distinct.{nonces, Distinct, nonces-Distinct}
use go_matter.Crypto.SessionKeys.{SessionKeys, derive_session_keys_from_ke, derive-sizes}
use go_matter.Crypto.Spake.Prover
use go_matter.Crypto.Spake.Prover.{Prover, share_pa}
use go_matter.Crypto.Spake.Verifier
use go_matter.Crypto.Spake.Verifier.{Verifier, share_pb}
use go_matter.Crypto.Spake.Agreement.{exchange, exchange_agrees}
use go_matter.Examples.Parameters.{toy_curve, toy_hashes, toy_marshal, toy_pbkdf, zero_kdf}

nonce_run :
    build_nonce 3 0x0102_0304 0x99 ≡ 3 ∷ 4 ∷ 3 ∷ 2 ∷ 1 ∷ 0x99 ∷ 0 ∷ 0 ∷ 0 ∷ 0 ∷ 0 ∷ 0 ∷ 0 ∷ []
unfolding build_nonce put_le
nonce_run = refl

abbrev last_generator : NonceGenerator
last_generator = record { source_node_id = 5; security_flags = 0; counter = 2 ^ 32 - 2 }

nonces-Distinct_example : Distinct (nonces 3 last_generator)
nonces-Distinct_example = nonces-Distinct 3 last_generator (omega arith) (omega arith)

derive-sizes_example :
    (keys : SessionKeys) × (derive_session_keys_from_ke zero_kdf (7 ∷ []) ≡ ok keys)
    × (length keys.i2r_key ≡ 16)
    × (length keys.r2i_key ≡ 16)
    × (length keys.attestation_challenge ≡ 16)
derive-sizes_example = derive-sizes zero_kdf (7 ∷ []) (omega arith)

set_bytes-to_bytes_example : set_bytes (to_bytes 0x01_0203) ≡ 0x01_0203
set_bytes-to_bytes_example = set_bytes-to_bytes 0x01_0203 (omega arith)

exchange_agrees_example :
    (p : Prover) × (v : Verifier) × (ke : Bytes) × (exchange toy_curve toy_hashes
        (2 ∷ [])
        (3 ∷ [])
        (toy_marshal (0, 3))
        (9 ∷ [])
        (4 ∷ [])
        (6 ∷ [])
      ≡ ok (p, v))
    × (Prover.shared_key p ≡ ok ke)
    × (Verifier.shared_key v ≡ ok ke)
unfolding set_bytes_from share_pa to_bytes share_pb
exchange_agrees_example =
    exchange_agrees toy_curve toy_hashes (2 ∷ []) (3 ∷ []) (9 ∷ []) (4 ∷ []) (6 ∷ []) (omega arith)
      (omega arith) refl refl refl

toy_scalars :
    spake2p_w0_w1_from_passcode toy_pbkdf toy_curve 20202021 (7 ∷ []) (pos 1000)
    ≡ ok (2 ∷ [], 3 ∷ [])
unfolding spake2p_w0_w1_from_passcode set_bytes_from to_bytes put_be
toy_scalars = refl

passcode_agrees_example :
    (l : Bytes) × (p : Prover) × (v : Verifier) × (ke : Bytes) × (compute_spake2p_verifier_data
        toy_pbkdf toy_curve 20202021
        (7 ∷ [])
        (pos 1000)
      ≡ ok (2 ∷ [], l))
    × (exchange toy_curve toy_hashes (2 ∷ []) (3 ∷ []) l (9 ∷ []) (4 ∷ []) (6 ∷ []) ≡ ok (p, v))
    × (Prover.shared_key p ≡ ok ke)
    × (Verifier.shared_key v ≡ ok ke)
unfolding set_bytes_from share_pa to_bytes share_pb
passcode_agrees_example =
    passcode_agrees toy_pbkdf toy_curve toy_hashes 20202021 (7 ∷ []) (pos 1000) (2 ∷ []) (3 ∷ [])
      (9 ∷ []) (4 ∷ []) (6 ∷ []) toy_scalars (omega arith) (omega arith) refl refl refl

abbrev some_keys : Keys
some_keys = record { ke = 1 ∷ []; ca = 2 ∷ []; cb = 3 ∷ [] }

abbrev done_prover : Prover
done_prover = record {
  w0 = 2 ∷ [];
  w1 = 3 ∷ [];
  context = [];
  x = some 4;
  pa = [];
  pb = [];
  keys = some_keys;
  finalized = true;
}

abbrev tried_prover : Prover
tried_prover = (Prover.finalize toy_curve toy_hashes done_prover (toy_marshal (0, 3))).0

prover_keys-kept_example : (tried_prover.finalized ≡ true) × (tried_prover.keys ≡ some_keys)
prover_keys-kept_example =
    prover_keys-kept toy_curve toy_hashes done_prover tried_prover
      (ProverCalls.finalized done_prover (toy_marshal (0, 3)) ProverCalls.none_yet) refl

abbrev done_verifier : Verifier
done_verifier = record {
  w0 = 2 ∷ [];
  l_bytes = toy_marshal (0, 3);
  l = (0, 3);
  context = [];
  y = some 6;
  pa = [];
  pb = [];
  zv = some (1 ∷ []);
  vv = some (1 ∷ []);
  keys = some_keys;
  finalized = true;
}

abbrev tried_verifier : Verifier
tried_verifier =
    (Verifier.compute_pb toy_curve toy_hashes done_verifier (toy_marshal (0, 3)) (some (5 ∷ []))).0

verifier_keys-kept_example : (tried_verifier.finalized ≡ true) × (tried_verifier.keys ≡ some_keys)
verifier_keys-kept_example =
    verifier_keys-kept toy_curve toy_hashes done_verifier tried_verifier
      (VerifierCalls.computed done_verifier (toy_marshal (0, 3)) (some (5 ∷ []))
        VerifierCalls.none_yet)
      refl

-- An exchange over the toy group, step by step.
abbrev toy_prover : Prover
toy_prover = record {
  w0 = 2 ∷ [];
  w1 = 3 ∷ [];
  context = 9 ∷ [];
  x = none;
  pa = [];
  pb = [];
  keys = some_keys;
  finalized = false;
}

abbrev toy_verifier : Verifier
toy_verifier = record {
  w0 = 2 ∷ [];
  l_bytes = toy_marshal (0, 3);
  l = (0, 3);
  context = 9 ∷ [];
  y = none;
  pa = [];
  pb = [];
  zv = none;
  vv = none;
  keys = some_keys;
  finalized = false;
}

abbrev toy_pa : Bytes
toy_pa = toy_marshal (0, 3)

abbrev toy_pb : Bytes
toy_pb = toy_marshal (0, 2)

abbrev prover_sent : Prover
prover_sent = record (toy_prover) { x = some 4; pa = toy_pa }

abbrev prover_finished : Prover
prover_finished = (Prover.finalize toy_curve toy_hashes prover_sent toy_pb).0

abbrev verifier_answered : Verifier
verifier_answered = record (toy_verifier) {
  y = some 6;
  pa = toy_pa;
  pb = toy_pb;
  zv = some (toy_marshal (0, 4));
  vv = some (toy_marshal (0, 3));
}

abbrev verifier_finished : Verifier
verifier_finished = record (verifier_answered) { keys = prover_finished.keys; finalized = true }
