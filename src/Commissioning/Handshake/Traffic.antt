-- ===== src/Commissioning/Handshake/Traffic.antt =====
-- What an established pair of sides sends to one another (`EncryptPayload` and `DecryptPayload`).
use go_matter.Base.{ℕ, ◌<◌, ◌^◌, ◌≡◌, List, length, ok}
use go_matter.Base.Bytes.{Bytes}
use go_matter.Message.Header
use go_matter.Message.Header.{Header}
use go_matter.Crypto.Provider.{Ccm}
use go_matter.Session.Window.{ReplayWindow, check, empty_window}
use go_matter.Session.Manager.{SessionManager, session, encrypt_payload, decrypt_payload}
use go_matter.Session.Manager.Stream.{Sending, Ascending, arriving, transmit, transmit-arriving}
use go_matter.Session.Manager.Install.{Paired, decrypt_payload-encrypt_payload}
use go_matter.Commissioning.Commissioner.{Commissioner}
use go_matter.Commissioning.Commissionee.{Commissionee}
use go_matter.Commissioning.Handshake.Outcome.{Established}

-- A payload that one side sends under a header arrives at the other side.
pub record Arrives (ccm : Ccm) (sm tm : SessionManager) (i j : ℕ) (payload header : Bytes)
    : Type 0 where
  pub ciphertext : Bytes
  pub sent : encrypt_payload ccm sm i payload header ≡ ok ciphertext
  pub after : SessionManager
  pub received : decrypt_payload ccm tm j ciphertext header ≡ (after, ok payload)

abbrev first : ℕ → ReplayWindow → ReplayWindow
first counter w = record w { max = counter }

fresh_check :
    (w : ReplayWindow) (counter : ℕ) → w ≡ empty_window → check w counter ≡ ok (first counter)
unfolding check
fresh_check w counter fresh = rw fresh

-- After a handshake, the first payload that either side sends under its session, of fewer than 2^16
-- bytes and with any header that parses, is encrypted, and the other side decrypts it to the same payload.
pub Established-Arrives :
    (ccm : Ccm) (c : Commissioner) (d : Commissionee) (payload header : Bytes) (h : Header) (n : ℕ)
    → Established c d
    → length payload < 2 ^ 16
    → Header.unmarshal header ≡ ok (h, n)
    → Arrives ccm c.session_manager d.session_manager c.session_id d.session_id payload header
      × Arrives ccm d.session_manager c.session_manager d.session_id c.session_id payload header
unfolding session
Established-Arrives ccm c d payload header h n e small parsed =
    let s = e.controller_session in
    let t = e.device_session in
    let back : Paired t s = record { forth = e.pair.back; back = e.pair.forth } in
    let (out, sent, received) =
      decrypt_payload-encrypt_payload ccm c.session_manager d.session_manager c.session_id
        d.session_id s t payload header h n (first h.message_counter) e.controller_id e.device_id
        e.controller_found e.device_found e.pair e.controller_key small parsed
        (fresh_check t.replay h.message_counter e.device_fresh) in
    let (out', sent', received') =
      decrypt_payload-encrypt_payload ccm d.session_manager c.session_manager d.session_id
        c.session_id t s payload header h n (first h.message_counter) e.device_id e.controller_id
        e.device_found e.controller_found back e.device_key small parsed
        (fresh_check s.replay h.message_counter e.controller_fresh) in
    (
      record { ciphertext = out; sent = sent; after = _; received = received },
      record { ciphertext = out'; sent = sent'; after = _; received = received' },
    )

-- After a handshake, messages of fewer than 2^16 bytes of payload whose headers parse with ascending
-- counters from 1 on, sent by either side, are encrypted, and those that the network delivers are decrypted by the other side to the
-- same payloads, in order, whichever of them are lost.
pub Established-transmits :
    (ccm : Ccm) (c : Commissioner) (d : Commissionee) (xs : List Sending)
    → Established c d
    → Ascending 0 xs
    → (transmit ccm c.session_manager d.session_manager c.session_id d.session_id xs ≡ arriving xs)
      × (transmit ccm d.session_manager c.session_manager d.session_id c.session_id xs
          ≡ arriving xs)
unfolding session
Established-transmits ccm c d xs e ascends =
    let s = e.controller_session in
    let t = e.device_session in
    let back : Paired t s = record { forth = e.pair.back; back = e.pair.forth } in
    (
      transmit-arriving ccm c.session_manager d.session_manager c.session_id d.session_id s t xs
          e.controller_id e.device_id e.controller_found e.device_found e.pair e.controller_key
          (rw e.device_fresh ascends),
      transmit-arriving ccm d.session_manager c.session_manager d.session_id c.session_id t s xs
          e.device_id e.controller_id e.device_found e.controller_found back e.device_key
          (rw e.controller_fresh ascends),
    )
