-- ===== src/Commissioning/Handshake/Outcome.antt =====
-- Before and after a handshake: a device with a passcode, and two sides with a session.
use go_matter.Base.{
  none, ℕ, ◌%◌, ◌^◌, ◌<◌, ◌≤◌, [], ◌≡◌, ◌≢◌, refl, arith, true, length, some, ok, ==_self,
}
use go_matter.Base.Bytes.{Bytes}
use go_matter.Base.Int.{pos}
use go_matter.Crypto.Pbkdf.{spake2p_w0_w1_from_passcode, compute_spake2p_verifier_data}
use go_matter.Crypto.Provider.{Hkdf}
use go_matter.Crypto.SessionKeys.{SessionKeys, derive-sizes}
use go_matter.Crypto.Spake.Prover.{Prover}
use go_matter.Session.Manager.{
  Session, SessionManager, Role, initiator, responder, session, new_session, install_secure_session,
  unspecified_node_id,
}
use go_matter.Session.Window.{empty_window}
use go_matter.Session.Manager.Install.{Paired}
use go_matter.Commissioning.Pase.{Suite, State, install_pase_session}
use go_matter.Commissioning.Commissioner.{Commissioner}
use go_matter.Commissioning.Commissionee.{Commissionee, new_commissionee}
use go_matter.Commissioning.Handshake.Steps.{controller_done, device_done}

-- The device stores the verifier data of the passcode under its salt and rounds, its fields are in
-- the range of their types, and its salt has at most 1024 bytes.
pub record IsProvisioned (suite : Suite) (d : Commissionee) (passcode : ℕ) (w1 : Bytes)
    : Type 0 where
  pub scalars :
      spake2p_w0_w1_from_passcode suite.pbkdf2 suite.curve passcode d.salt (pos d.iterations)
      ≡ ok (d.w0, w1)
  pub point : d.l ≡ suite.curve.marshal (suite.curve.scalar_base_mult w1)
  pub on_curve : suite.curve.is_on_curve (suite.curve.scalar_base_mult w1) ≡ true
  pub w0_set : 0 < length d.w0
  pub w1_set : 0 < length w1
  pub salt_size : length d.salt ≤ 1024
  pub iterations_word : d.iterations < 2 ^ 32
  pub session_word : d.session_id < 2 ^ 16

abbrev pub fresh : Bytes → ℕ → Bytes → Bytes → SessionManager → Commissionee
fresh salt iterations w0 l sm = record {
  state = State.idle;
  salt = salt;
  iterations = iterations;
  w0 = w0;
  l = l;
  random = [];
  session_manager = sm;
  session_id = 0;
  message_counter = 0;
  initiator_random = [];
  initiator_session_id = 0;
  exchange_id = 0;
  request_payload = [];
  response_payload = [];
  ke = [];
  verifier = none;
}

pub new_commissionee-fresh :
    (suite : Suite) (passcode rounds : ℕ) (salt w0 w1 : Bytes) (sm : SessionManager)
    → spake2p_w0_w1_from_passcode suite.pbkdf2 suite.curve passcode salt (pos rounds) ≡ ok (w0, w1)
    → rounds < 2 ^ 32
    → new_commissionee suite passcode salt (pos rounds) (some sm)
      ≡ ok (fresh salt rounds w0 (suite.curve.marshal (suite.curve.scalar_base_mult w1)) sm)
unfolding new_commissionee compute_spake2p_verifier_data
new_commissionee-fresh suite passcode rounds salt w0 w1 sm scalars word =
    let small : rounds % 2 ^ 32 ≡ rounds = omega arith in rw (scalars, small)

pub fresh-IsProvisioned :
    (suite : Suite) (passcode rounds : ℕ) (salt w0 w1 : Bytes) (sm : SessionManager)
    → spake2p_w0_w1_from_passcode suite.pbkdf2 suite.curve passcode salt (pos rounds) ≡ ok (w0, w1)
    → 0 < length w0
    → 0 < length w1
    → suite.curve.is_on_curve (suite.curve.scalar_base_mult w1) ≡ true
    → length salt ≤ 1024
    → rounds < 2 ^ 32
    → IsProvisioned suite
        (fresh salt rounds w0 (suite.curve.marshal (suite.curve.scalar_base_mult w1)) sm)
        passcode
        w1
fresh-IsProvisioned suite passcode rounds salt w0 w1 sm scalars h0 h1 on_l size word = record {
  scalars = scalars;
  point = refl;
  on_curve = on_l;
  w0_set = h0;
  w1_set = h1;
  salt_size = size;
  iterations_word = word;
  session_word = omega arith;
}

-- What `NewCommissionee` makes of a passcode, a salt of at most 1024 bytes and a number of rounds that
-- fits a uint32 is provisioned, if the scalars can be derived, neither is 0, and L is a point of
-- the curve.
pub new_commissionee-IsProvisioned :
    (suite : Suite) (passcode rounds : ℕ) (salt w0 w1 : Bytes) (sm : SessionManager)
    → spake2p_w0_w1_from_passcode suite.pbkdf2 suite.curve passcode salt (pos rounds) ≡ ok (w0, w1)
    → 0 < length w0
    → 0 < length w1
    → suite.curve.is_on_curve (suite.curve.scalar_base_mult w1) ≡ true
    → length salt ≤ 1024
    → rounds < 2 ^ 32
    → (d : Commissionee) × (new_commissionee suite passcode salt (pos rounds) (some sm) ≡ ok d)
      × IsProvisioned suite d passcode w1
new_commissionee-IsProvisioned suite passcode rounds salt w0 w1 sm scalars h0 h1 on_l size word = (
  fresh salt rounds w0 (suite.curve.marshal (suite.curve.scalar_base_mult w1)) sm,
  new_commissionee-fresh suite passcode rounds salt w0 w1 sm scalars word,
  fresh-IsProvisioned suite passcode rounds salt w0 w1 sm scalars h0 h1 on_l size word,
)

pub installed :
    (kdf : Hkdf) (ke : Bytes)
    → 0 < length ke
    → (keys : SessionKeys) × ((sm : SessionManager) (id : ℕ) (role : Role)
        → install_pase_session kdf sm id ke role
          ≡ ok (install_secure_session sm id unspecified_node_id unspecified_node_id keys role))
      × (length keys.i2r_key ≡ 16)
      × (length keys.r2i_key ≡ 16)
unfolding install_pase_session
installed kdf ke h =
    let (keys, derived, size, size', _) = derive-sizes kdf ke h in
    (keys, λ sm id role. rw derived, size, size')

-- Both sides are done, hold one key and know the other's session id, and each has a session under
-- its own id, which fits the other's.
pub record Established (c : Commissioner) (d : Commissionee) : Type 0 where
  pub controller_session : Session
  pub device_session : Session
  pub controller_complete : c.state ≡ State.complete
  pub device_complete : d.state ≡ State.complete
  pub same_key : c.ke ≡ d.ke
  pub controller_found : session c.session_manager c.session_id ≡ some controller_session
  pub device_found : session d.session_manager d.session_id ≡ some device_session
  pub pair : Paired controller_session device_session
  pub controller_fresh : controller_session.replay ≡ empty_window
  pub device_fresh : device_session.replay ≡ empty_window
  pub controller_id : c.session_id ≢ 0
  pub device_id : d.session_id ≢ 0
  pub controller_key : length controller_session.encrypt_key ≡ 16
  pub device_key : length device_session.encrypt_key ≡ 16
  pub controller_peer : c.responder_session_id ≡ d.session_id
  pub device_peer : d.initiator_session_id ≡ c.session_id

pub established :
    (c : Commissioner) (d : Commissionee) (p : Prover) (ke : Bytes) (n : ℕ) (keys : SessionKeys)
    → c.session_id ≢ 0
    → d.session_id ≢ 0
    → length keys.i2r_key ≡ 16
    → length keys.r2i_key ≡ 16
    → c.responder_session_id ≡ d.session_id
    → d.initiator_session_id ≡ c.session_id
    → Established
        (controller_done c p ke
          (install_secure_session c.session_manager c.session_id 0 0 keys initiator)
          n)
        (device_done d ke
          (install_secure_session d.session_manager d.session_id 0 0 keys responder))
unfolding install_secure_session new_session session
established c d p ke n keys hc hd size size' peer peer' = record {
  controller_session = new_session c.session_id 0 0 keys initiator;
  device_session = new_session d.session_id 0 0 keys responder;
  controller_complete = refl;
  device_complete = refl;
  same_key = refl;
  controller_found = rw (==_self c.session_id);
  device_found = rw (==_self d.session_id);
  pair = record { forth = refl; back = refl };
  controller_fresh = refl;
  device_fresh = refl;
  controller_id = hc;
  device_id = hd;
  controller_key = size;
  device_key = size';
  controller_peer = peer;
  device_peer = peer';
}
