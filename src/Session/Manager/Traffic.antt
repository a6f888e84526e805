-- ===== src/Session/Manager/Traffic.antt =====
-- What encryption and decryption do to the session table, and that they fit together.
use go_matter.Base.{
  ℕ, ◌≡◌, ◌≢◌, ap, arith, some, ok, err, wrap, wrap-ok, bind-ok, ok-injective, sym, ◌∙◌, inl, inr,
  Option-cases, ==_ne, Result-cases,
}
use go_matter.Base.Bytes.{Bytes}
use go_matter.Message.Header
use go_matter.Message.Header.{Header}
use go_matter.Crypto.Provider
use go_matter.Crypto.Provider.{Ccm}
use go_matter.Session.Window.{ReplayWindow, accept, check, replayed_message_counter}
use go_matter.Session.Manager.{
  Session, SessionManager, Error, store, nonce_of, open_frame, decrypt_payload, window,
}

module _ (ccm : Ccm) where
  -- The steps of an `open_frame` that succeeds.
  open_frame_inv :
      (s : Session) (ct header : Bytes) (s' : Session) (pt : Bytes)
      → open_frame ccm s ct header ≡ ok (s', pt)
      → (h : Header) × (n : ℕ) × (w : ReplayWindow) × (Header.unmarshal header ≡ ok (h, n))
        × (accept s.replay h.message_counter ≡ ok w)
        × (Provider.decrypt ccm s.decrypt_key (nonce_of h) ct header ≡ ok pt)
        × (s' ≡ record s { replay = w })
  unfolding open_frame accept
  open_frame_inv s ct header s' pt e =
      let ((h, n), parsed, e1) = bind-ok (wrap _ (Header.unmarshal header)) _ e in
      let (commit, checked, e2) = bind-ok (wrap _ (check s.replay h.message_counter)) _ e1 in
      let (plain, opened, e3) =
        bind-ok (wrap _ (Provider.decrypt ccm s.decrypt_key (nonce_of h) ct header)) _ e2 in
      let same = ok-injective e3 in
      (
        h,
        n,
        commit s.replay,
        wrap-ok _ _ parsed,
        rw (wrap-ok _ _ checked),
        wrap-ok _ _ opened ∙ ap ok (ap (λ (p : Session × Bytes). p.1) same),
        sym (ap (λ (p : Session × Bytes). p.0) same),
      )

  -- A `DecryptPayload` that succeeds under a secure session opened a frame of that session.
  decrypt_opened :
      (sm : SessionManager) (id : ℕ) (ct header : Bytes) (sm' : SessionManager) (pt : Bytes)
      → id ≢ 0
      → decrypt_payload ccm sm id ct header ≡ (sm', ok pt)
      → (s s' : Session) × (sm id ≡ some s)
        × (open_frame ccm s ct header ≡ ok (s', pt))
        × (sm' ≡ store sm id s')
  unfolding decrypt_payload
  decrypt_opened sm id ct header sm' pt nz e = elim (Option-cases (sm id)) [
    | inl missing ↦ ground arith
    | inr (s, found) ↦ elim (Result-cases (open_frame ccm s ct header)) [
      | inl ((s', p), opened) ↦ (s, s', found, ground arith, ground arith)
      | inr (x, refused) ↦ ground arith
    ]
  ]

  -- What a successful `DecryptPayload` under a secure session did: the session was there, the
  -- header parsed, the window accepted its counter, the ciphertext opened with the decrypt key,
  -- and the table differs in that session's window alone.
  pub decrypt_payload-ok :
      (sm : SessionManager) (id : ℕ) (ct header : Bytes) (sm' : SessionManager) (pt : Bytes)
      → id ≢ 0
      → decrypt_payload ccm sm id ct header ≡ (sm', ok pt)
      → (s : Session) × (h : Header) × (n : ℕ) × (w : ReplayWindow) × (sm id ≡ some s)
        × (Header.unmarshal header ≡ ok (h, n))
        × (accept s.replay h.message_counter ≡ ok w)
        × (Provider.decrypt ccm s.decrypt_key (nonce_of h) ct header ≡ ok pt)
        × (sm' ≡ store sm id (record s { replay = w }))
  decrypt_payload-ok sm id ct header sm' pt nz e =
      let (s, s', found, opened, kept) = decrypt_opened sm id ct header sm' pt nz e in
      let (h, n, w, parsed, accepted, clear, moved) = open_frame_inv s ct header s' pt opened in
      (s, h, n, w, found, parsed, accepted, clear, kept ∙ ap (store sm id) moved)

  -- A `DecryptPayload` that fails changes nothing, so a forged frame cannot move the window.
  pub decrypt_payload-err :
      (sm : SessionManager) (id : ℕ) (ct header : Bytes) (sm' : SessionManager) (x : Error)
      → decrypt_payload ccm sm id ct header ≡ (sm', err x)
      → sm' ≡ sm
  unfolding decrypt_payload
  decrypt_payload-err sm id ct header sm' x e = ground arith

  pub refused_replay :
      (sm : SessionManager) (id : ℕ) (s : Session) (ct header : Bytes) (h : Header) (n : ℕ)
      → id ≢ 0
      → sm id ≡ some s
      → Header.unmarshal header ≡ ok (h, n)
      → check s.replay h.message_counter ≡ err replayed_message_counter
      → decrypt_payload ccm sm id ct header ≡ (sm, err (window replayed_message_counter))
  unfolding decrypt_payload open_frame
  refused_replay sm id s ct header h n nz found parsed seen =
      rw (==_ne id 0 nz, found, parsed, seen)
