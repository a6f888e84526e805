-- ===== src/Session/Manager.antt =====
-- session/session.go: `Session` and `SessionManager`. The table maps a session id to its session;
-- a method that changes a session through its pointer returns the table with that entry replaced.
pub mod Install
pub mod Traffic
pub mod Replayed
pub mod Run
pub mod Stream
use go_matter.Base.{
  ℕ, ◌+◌, ◌-◌, ◌%◌, ◌^◌, Bool, [], ◌==◌, if◌then◌else◌, Option, none, some, Result, ok, err, wrap,
  ◌>>=◌,
}
use go_matter.Base.Bytes.{Bytes}
use go_matter.Message.Header
use go_matter.Message.Header.{Header}
use go_matter.Message.Wire
use go_matter.Crypto.Nonce
use go_matter.Crypto.Nonce.{build_nonce, counter_exhausted}
use go_matter.Crypto.Provider
use go_matter.Crypto.SessionKeys.{SessionKeys}
use go_matter.Crypto.Provider.{Ccm}
use go_matter.Session.Window
use go_matter.Session.Window.{ReplayWindow, empty_window, check}

abbrev pub unsecured_session_id : ℕ
unsecured_session_id = 0

abbrev pub unspecified_node_id : ℕ
unspecified_node_id = 0

pub data Role : Type 0 where
  initiator responder : Role

pub record Session : Type 0 where
  pub id : ℕ
  pub local_node_id : ℕ
  pub peer_node_id : ℕ
  pub encrypt_key : Bytes
  pub decrypt_key : Bytes
  pub attestation_challenge : Bytes
  pub out_counter : ℕ
  pub replay : ReplayWindow

-- The errors of the package, with those that it wraps or passes on.
pub data Error : Type 0 where
  unknown_session : Error
  parse_header : Wire.Error → Error
  window : Window.Error → Error
  provider : Provider.Error → Error

-- `Session.NextOutboundCounter`: the session afterwards, and the counter.
unfoldable pub next_outbound_counter : Session → Result Nonce.Error (Session × ℕ)
next_outbound_counter s =
    if s.out_counter == 2 ^ 32 - 1
    then err counter_exhausted
    else (let counter = (s.out_counter + 1) % 2 ^ 32 in
        ok (record s { out_counter = counter }, counter))

abbrev pub SessionManager : Type 0
SessionManager = ℕ → Option Session

unfoldable pub new_session_manager : SessionManager
new_session_manager id = none

-- `sm.sessions[id] = s`
abbrev pub store : SessionManager → ℕ → Session → SessionManager
store sm id s k = if k == id then some s else sm k

abbrev pub encrypt_key_of : Role → SessionKeys → Bytes
encrypt_key_of initiator keys = keys.i2r_key
encrypt_key_of responder keys = keys.r2i_key

abbrev pub decrypt_key_of : Role → SessionKeys → Bytes
decrypt_key_of initiator keys = keys.r2i_key
decrypt_key_of responder keys = keys.i2r_key

-- The session that `InstallSecureSession` makes.
unfoldable pub new_session : ℕ → ℕ → ℕ → SessionKeys → Role → Session
new_session id local peer keys role = record {
  id = id;
  local_node_id = local;
  peer_node_id = peer;
  encrypt_key = encrypt_key_of role keys;
  decrypt_key = decrypt_key_of role keys;
  attestation_challenge = keys.attestation_challenge;
  out_counter = 0;
  replay = empty_window;
}

-- `SessionManager.InstallSecureSession`
unfoldable pub install_secure_session :
    SessionManager → ℕ → ℕ → ℕ → SessionKeys → Role → SessionManager
install_secure_session sm id local peer keys role =
    store sm id (new_session id local peer keys role)

-- `SessionManager.Session`
unfoldable pub session : SessionManager → ℕ → Option Session
session sm id = sm id

abbrev pub nonce_of : Header → Bytes
nonce_of h = build_nonce h.security_flags h.message_counter h.source_node_id

module _ (ccm : Ccm) where
  -- The body of `EncryptPayload` behind the lookup.
  unfoldable pub seal_frame : Session → Bytes → Bytes → Result Error Bytes
  seal_frame s payload header = do
    (h, _) ← wrap parse_header (Header.unmarshal header)
    wrap provider (Provider.encrypt ccm s.encrypt_key (nonce_of h) payload header)

  abbrev pub with_session {ℓ} :
      {A : Type ℓ} → Option Session → (Session → Result Error A) → Result Error A
  with_session none f = err unknown_session
  with_session (some s) f = f s

  -- `SessionManager.EncryptPayload`, which changes nothing.
  unfoldable pub encrypt_payload : SessionManager → ℕ → Bytes → Bytes → Result Error Bytes
  encrypt_payload sm id payload header =
      if id == unsecured_session_id
      then ok payload
      else with_session (sm id) λ s. seal_frame s payload header

  -- The body of `DecryptPayload` behind the lookup: the counter is checked first, and committed
  -- only when the ciphertext has authenticated.
  unfoldable pub open_frame : Session → Bytes → Bytes → Result Error (Session × Bytes)
  open_frame s ciphertext header = do
    (h, _) ← wrap parse_header (Header.unmarshal header)
    commit ← wrap window (check s.replay h.message_counter)
    plaintext ← wrap provider (Provider.decrypt ccm s.decrypt_key (nonce_of h) ciphertext header)
    ok (record s { replay = commit s.replay }, plaintext)

  abbrev pub stored :
      SessionManager → ℕ → Result Error (Session × Bytes) → SessionManager × Result Error Bytes
  stored sm id (ok (s, plaintext)) = (store sm id s, ok plaintext)
  stored sm id (err e) = (sm, err e)

  -- `SessionManager.DecryptPayload`: the table afterwards, and the plaintext.
  unfoldable pub decrypt_payload :
      SessionManager → ℕ → Bytes → Bytes → SessionManager × Result Error Bytes
  decrypt_payload sm id ciphertext header =
      if id == unsecured_session_id
      then (sm, ok ciphertext)
      else stored sm id (with_session (sm id) λ s. open_frame s ciphertext header)
