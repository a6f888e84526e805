-- ===== src/Session/Manager/Install.antt =====
-- Sessions installed from one set of keys with opposite roles fit together.
use go_matter.Base.{
  ℕ, zero, suc, ◌+◌, ◌^◌, ◌<◌, ◌≡◌, ◌≢◌, refl, arith, List, [], ◌∷◌, ==_self, ==_ne, some, ok, err,
  length, ◌⊎◌, inl, inr,
}
use go_matter.Base.Bytes.{Bytes}
use go_matter.Message.Header
use go_matter.Message.Header.{Header}
use go_matter.Crypto.Nonce.{counter_exhausted}
use go_matter.Crypto.Nonce.Distinct.{length-build_nonce}
use go_matter.Crypto.Provider
use go_matter.Crypto.Provider.{Ccm, is_aes_key}
use go_matter.Crypto.SessionKeys.{SessionKeys}
use go_matter.Session.Window.{ReplayWindow, check, empty_window}
use go_matter.Session.Manager.{
  Session, SessionManager, Role, initiator, responder, store, nonce_of, open_frame, decrypt_payload,
  seal_frame, encrypt_payload, install_secure_session, session, new_session, next_outbound_counter,
}

abbrev pub peer_of : Role → Role
peer_of initiator = responder
peer_of responder = initiator

-- What one side encrypts the other decrypts.
pub record Paired (s t : Session) : Type 0 where
  pub forth : s.encrypt_key ≡ t.decrypt_key
  pub back : t.encrypt_key ≡ s.decrypt_key

-- Installing the same keys with opposite roles, each side under its own id, makes sessions that
-- are found under these ids, encrypt for one another in both directions and start with an empty
-- window and counter 0.
pub install-Paired :
    (sm tm : SessionManager) (i j a b c d : ℕ) (keys : SessionKeys) (role : Role)
    → let sm' = install_secure_session sm i a b keys role in
      let tm' = install_secure_session tm j c d keys (peer_of role) in
      (s t : Session) × (session sm' i ≡ some s)
      × (session tm' j ≡ some t)
      × Paired s t
      × (s.replay ≡ empty_window)
      × (t.replay ≡ empty_window)
      × (s.out_counter ≡ 0)
      × (t.out_counter ≡ 0)
unfolding install_secure_session session new_session
install-Paired sm tm i j a b c d keys role = (
  new_session i a b keys role,
  new_session j c d keys (peer_of role),
  rw (==_self i),
  rw (==_self j),
  paired role,
  refl,
  refl,
  refl,
  refl,
)
  where
    paired : (r : Role) → Paired (new_session i a b keys r) (new_session j c d keys (peer_of r))
    paired initiator = record { forth = refl; back = refl }
    paired responder = record { forth = refl; back = refl }

module _ (ccm : Ccm) where
  provider_decrypt-encrypt :
      (key nonce plaintext aad : Bytes)
      → length key ≡ 16
      → length nonce ≡ 13
      → length plaintext < 2 ^ 16
      → (ct : Bytes) × (Provider.encrypt ccm key nonce plaintext aad ≡ ok ct)
        × (Provider.decrypt ccm key nonce ct aad ≡ ok plaintext)
  unfolding Provider.encrypt Provider.decrypt
  provider_decrypt-encrypt key nonce plaintext aad hk hn small =
      let (ct, sealed, opened) = ccm.unseal-seal key nonce plaintext aad hk hn small in
      (ct, rw (hk, hn, sealed), rw (hk, hn, opened))

  -- A payload that one side encrypts under a header is what the paired session decrypts under the
  -- same header, if both ids are nonzero, the key has 16 bytes, the payload has fewer than 2^16,
  -- the header parses and the window of the receiver accepts its counter; the counter is then
  -- committed.
  pub decrypt_payload-encrypt_payload :
      (sm tm : SessionManager) (i j : ℕ) (s t : Session) (payload header : Bytes) (h : Header)
      (n : ℕ) (commit : ReplayWindow → ReplayWindow)
      → i ≢ 0
      → j ≢ 0
      → sm i ≡ some s
      → tm j ≡ some t
      → Paired s t
      → length s.encrypt_key ≡ 16
      → length payload < 2 ^ 16
      → Header.unmarshal header ≡ ok (h, n)
      → check t.replay h.message_counter ≡ ok commit
      → (ct : Bytes) × (encrypt_payload ccm sm i payload header ≡ ok ct)
        × (decrypt_payload ccm tm j ct header
            ≡ (store tm j (record t { replay = commit t.replay }), ok payload))
  unfolding encrypt_payload decrypt_payload seal_frame open_frame
  decrypt_payload-encrypt_payload sm tm i j s t payload header h n commit iz jz si tj pair size
        small parsed fresh =
      let (ct, sealed, opened) =
        provider_decrypt-encrypt s.encrypt_key (nonce_of h) payload header size
          (length-build_nonce _ _ _) small in
      (
        ct,
        rw (==_ne i 0 iz, si, parsed, sealed),
        rw (==_ne j 0 jz, tj, parsed, fresh, ← pair.forth, opened),
      )

-- The counters of `k` calls of `NextOutboundCounter`, up to the first refusal.
unfoldable pub outbound : ℕ → Session → List ℕ
outbound zero s = []
outbound (suc k) s = elim (next_outbound_counter s) [ ok (s', c) ↦ c ∷ outbound k s' | err e ↦ [] ]

-- Each number is one above the number before it, the first one above `m`, and fits a uint32.
abbrev pub CountsFrom : ℕ → List ℕ → Type 0
CountsFrom m [] = Unit {0}
CountsFrom m (c ∷ cs) = (c ≡ m + 1) × (c < 2 ^ 32) × CountsFrom c cs

next_cases :
    (s : Session)
    → s.out_counter < 2 ^ 32
    → (next_outbound_counter s ≡ err counter_exhausted)
      ⊎ (s.out_counter + 1 < 2 ^ 32)
        × (next_outbound_counter s
            ≡ ok (record s { out_counter = s.out_counter + 1 }, s.out_counter + 1))
unfolding next_outbound_counter
next_cases s h = ground arith

-- However often a session is asked, its outbound counters go up by one and never wrap, so none is
-- handed out twice and none is 0.
pub outbound-CountsFrom :
    (k : ℕ) (s : Session) → s.out_counter < 2 ^ 32 → CountsFrom s.out_counter (outbound k s)
unfolding outbound
outbound-CountsFrom zero s h = tt
outbound-CountsFrom (suc k) s h = elim (next_cases s h) [
  | inl e ↦ rw (e, outbound) tt
  | inr (more, e) ↦
      rw (e, outbound)
        (refl, more, outbound-CountsFrom k (record s { out_counter = s.out_counter + 1 }) more)
]
