-- ===== src/Examples/Session.antt =====
-- session/: a window after some traffic, and two sessions installed from the same keys.
use go_matter.Base.{
  ℕ, List, false, ◌≡◌, refl, arith, true, [], ◌∷◌, inl, inr, ok, err, is_ok, replicate,
}
use go_matter.Base.Bytes.{Bytes, get_le, put_le}
use go_matter.Message.Header
use go_matter.Message.Header.{Header}
use go_matter.Crypto.Nonce
use go_matter.Crypto.Provider
use go_matter.Crypto.SessionKeys.{SessionKeys}
use go_matter.Session.Window.{ReplayWindow, check, accept, empty_window, replayed_message_counter}
use go_matter.Session.Window.Log.{contains, highest, is_fresh}
use go_matter.Session.Window.Refinement.{
  Represents, empty_window-Represents, check-is_fresh, accept-Represents,
}
use go_matter.Session.Window.Replay.{
  receive, receive_fresh, admit, distinct, receive-distinct, accept-replay,
}
use go_matter.Session.Manager.{
  decrypt_key_of, next_outbound_counter, Session, SessionManager, initiator, responder,
  install_secure_session, new_session_manager, session, decrypt_payload, new_session, open_frame,
  store, window,
}
use go_matter.Session.Manager.Install.{Paired, outbound, CountsFrom, outbound-CountsFrom}
use go_matter.Session.Manager.Stream.{Sending, Ascending, transmit, transmit-arriving}
use go_matter.Session.Manager.Run.{Run, Sound, Run-Sound}
use go_matter.Session.Manager.Replayed.{decrypt_payload-replay}
use go_matter.Examples.Parameters.{plain_ccm}

-- The window after the counters 4 and 6.
abbrev used_window : ReplayWindow
used_window = record { max = 6; bitmap = 2 }

used_run : receive empty_window [] (4 ∷ 6 ∷ 4 ∷ []) ≡ 6 ∷ 4 ∷ []
unfolding receive accept check
used_run = refl

used_late : accept used_window 5 ≡ ok (record { max = 6; bitmap = 3 })
unfolding accept check
used_late = refl

used_old : accept (record { max = 40; bitmap = 0 }) 7 ≡ err replayed_message_counter
unfolding accept check
used_old = refl

used_window-Represents : Represents used_window (6 ∷ 4 ∷ [])
unfolding accept check
used_window-Represents =
    let first : ReplayWindow = record { max = 4; bitmap = 0 } in
    let once =
      accept-Represents empty_window [] 4 empty_window-Represents (omega arith) first (inl refl)
        refl in
    accept-Represents first (4 ∷ []) 6 once (omega arith) used_window (inr (omega arith)) refl

check-is_fresh_example : is_ok (check used_window 5) ≡ is_fresh (6 ∷ 4 ∷ []) 5
check-is_fresh_example =
    check-is_fresh used_window (6 ∷ 4 ∷ []) 5 used_window-Represents (omega arith)

accept-Represents_example : Represents (record { max = 6; bitmap = 3 }) (5 ∷ 6 ∷ 4 ∷ [])
accept-Represents_example =
    accept-Represents used_window (6 ∷ 4 ∷ []) 5 used_window-Represents (omega arith)
      (record { max = 6; bitmap = 3 }) (inr (omega arith)) used_late

receive-distinct_example :
    (receive empty_window [] (4 ∷ 6 ∷ 4 ∷ []) ≡ receive_fresh [] (4 ∷ 6 ∷ 4 ∷ []))
    × (distinct (receive empty_window [] (4 ∷ 6 ∷ 4 ∷ [])) ≡ true)
receive-distinct_example =
    receive-distinct (4 ∷ 6 ∷ 4 ∷ []) (unfold admit is_fresh contains highest in ground arith)

accept-replay_example : (v u : ReplayWindow) × (accept used_window 38 ≡ ok v) × (accept v 6 ≡ ok u)
accept-replay_example = accept-replay used_window (omega arith)

abbrev keys : SessionKeys
keys = record {
  i2r_key = replicate 16 1;
  r2i_key = replicate 16 2;
  attestation_challenge = replicate 16 3;
}

abbrev controller : SessionManager
controller = install_secure_session new_session_manager 10 1 2 keys initiator

abbrev device : SessionManager
device = install_secure_session new_session_manager 20 2 1 keys responder

abbrev controller_session : Session
controller_session = new_session 10 1 2 keys initiator

abbrev device_session : Session
device_session = new_session 20 2 1 keys responder

-- A header of the message with counter 1, for the session 20.
abbrev first_header : Bytes
first_header = 0 ∷ 20 ∷ 0 ∷ 0 ∷ 1 ∷ 0 ∷ 0 ∷ 0 ∷ []

abbrev first_read : Header
first_read = record {
  flags = 0;
  session_id = 20;
  security_flags = 0;
  message_counter = 1;
  source_node_id = 0;
  dest_node_id = 0;
}

first_reads : Header.unmarshal first_header ≡ ok (first_read, 8)
unfolding Header.unmarshal get_le
first_reads = refl

first-Paired : Paired controller_session device_session
unfolding new_session
first-Paired = record { forth = refl; back = refl }

first_fresh : check device_session.replay 1 ≡ ok (λ v. record v { max = 1 })
unfolding check new_session
first_fresh = refl

-- The device's table when the first message has been decrypted.
abbrev device_after : SessionManager
device_after = store device 20 (record device_session { replay = record { max = 1; bitmap = 0 } })

first_decrypts :
    decrypt_payload plain_ccm device 20 (7 ∷ []) first_header ≡ (device_after, ok (7 ∷ []))
unfolding decrypt_payload open_frame check Header.unmarshal get_le Provider.decrypt
    install_secure_session new_session Nonce.build_nonce put_le
first_decrypts = refl

first_refused :
    decrypt_payload plain_ccm device_after 20 (9 ∷ []) first_header
    ≡ (device_after, err (window replayed_message_counter))
unfolding decrypt_payload open_frame check Header.unmarshal get_le
first_refused = refl

outbound-CountsFrom_example :
    CountsFrom controller_session.out_counter (outbound 3 controller_session)
outbound-CountsFrom_example =
    outbound-CountsFrom 3 controller_session (unfold new_session in omega arith)

-- The device decrypts the first message, refuses its replay, and draws a counter.
abbrev device_later : Session
device_later = record device_session { replay = record { max = 1; bitmap = 0 }; out_counter = 1 }

device-Run :
    Run plain_ccm new_session_manager 20 2 1 keys responder
      (store device_after 20 device_later)
      (1 ∷ [])
unfolding next_outbound_counter new_session session
device-Run =
    let opened =
      Run.decrypted device device_after [] (7 ∷ []) first_header (7 ∷ []) first_read 8 Run.installed
        first_decrypts first_reads in
    let again =
      Run.refused device_after device_after (1 ∷ []) (9 ∷ []) first_header
        (window replayed_message_counter) opened first_refused in
    Run.counted device_after (1 ∷ [])
      (record device_session { replay = record { max = 1; bitmap = 0 } }) device_later 1 again refl
      refl

Run-Sound_example :
    Sound (store device_after 20 device_later) 20 (decrypt_key_of responder keys) (1 ∷ [])
unfolding highest
Run-Sound_example =
    Run-Sound plain_ccm new_session_manager 20 2 1 keys responder
      (store device_after 20 device_later) (1 ∷ []) (omega arith) device-Run
      (omega arith, inl refl, tt)

decrypt_payload-replay_example :
    decrypt_payload plain_ccm (store device_after 20 device_later) 20 (9 ∷ []) first_header
    ≡ (store device_after 20 device_later, err (window replayed_message_counter))
unfolding highest contains
decrypt_payload-replay_example =
    decrypt_payload-replay plain_ccm new_session_manager 20 2 1 keys responder
      (store device_after 20 device_later) (1 ∷ []) (9 ∷ []) first_header first_read 8 (omega arith)
      device-Run (omega arith, inl refl, tt) first_reads refl

-- Three messages, of which the second is lost.
abbrev counted_header : ℕ → Bytes
counted_header counter = 0 ∷ 20 ∷ 0 ∷ 0 ∷ counter ∷ 0 ∷ 0 ∷ 0 ∷ []

abbrev counted_read : ℕ → Header
counted_read counter = record (first_read) { message_counter = counter }

abbrev three_messages : List Sending
three_messages =
    record { header = counted_header 1; payload = 7 ∷ []; delivered = true }
    ∷ record { header = counted_header 2; payload = 8 ∷ []; delivered = false }
    ∷ record { header = counted_header 5; payload = 9 ∷ []; delivered = true }
    ∷ []

three_messages-Ascending : Ascending 0 three_messages
unfolding Header.unmarshal get_le
three_messages-Ascending = (
  counted_read 1,
  8,
  refl,
  omega arith,
  omega arith,
  (
    counted_read 2,
    8,
    refl,
    omega arith,
    omega arith,
    (counted_read 5, 8, refl, omega arith, omega arith, tt),
  ),
)

transmit-arriving_example :
    transmit plain_ccm controller device 10 20 three_messages ≡ ok (7 ∷ []) ∷ ok (9 ∷ []) ∷ []
transmit-arriving_example =
    transmit-arriving plain_ccm controller device 10 20 controller_session device_session
      three_messages (omega arith) (omega arith) (unfold install_secure_session in refl)
      (unfold install_secure_session in refl) first-Paired (unfold new_session in refl)
      (unfold new_session in three_messages-Ascending)
