-- ===== src/Session/Manager/Run.antt =====
-- A session over its lifetime, whatever arrives: a run is any sequence of calls on the table.
use go_matter.Base.{
  ℕ, ◌+◌, ◌<◌, ◌≡◌, ◌≢◌, refl, ap, sym, ◌∙◌, arith, true, List, [], ◌∷◌, ◌⊎◌, inl, inr, some,
  Result, ok, err, is_ok, ==_self, ==_ne, ok-injective, Bool-cases, ◌==◌,
}
use mathlib.Core.Option.{some-injective}
use go_matter.Base.Bytes.{Bytes}
use go_matter.Message.Header
use go_matter.Message.Header.{Header}
use go_matter.Crypto.Provider.{Ccm}
use go_matter.Crypto.SessionKeys.{SessionKeys}
use go_matter.Session.Window.{accept}
use go_matter.Session.Window.Log.{highest, is_fresh}
use go_matter.Session.Window.Refinement.{
  Represents, check-is_fresh, accept-Represents, empty_window-Represents,
}
use go_matter.Session.Window.Replay.{distinct, is_ok-accept}
use go_matter.Session.Manager.{
  Session, SessionManager, Role, Error, store, decrypt_payload, decrypt_key_of,
  install_secure_session, new_session, next_outbound_counter, session, stored,
}
use go_matter.Session.Manager.Traffic.{decrypt_payload-ok, decrypt_payload-err}

-- The tables that a run reaches after the session `id` was installed in `start`, each with the
-- counters of the frames that were decrypted under that session, the latest first. In between,
-- frames are refused, frames of other sessions come, sessions are installed under other ids, and
-- counters are drawn for sending.
pub data Run (ccm : Ccm) (start : SessionManager) (id local peer : ℕ) (keys : SessionKeys)
    (role : Role) : SessionManager → List ℕ → Type 0 where
  installed :
      Run ccm start id local peer keys role
        (install_secure_session start id local peer keys role)
        []
  decrypted :
      (sm sm' : SessionManager) (log : List ℕ) (ct header pt : Bytes) (h : Header) (n : ℕ)
      → Run ccm start id local peer keys role sm log
      → decrypt_payload ccm sm id ct header ≡ (sm', ok pt)
      → Header.unmarshal header ≡ ok (h, n)
      → Run ccm start id local peer keys role sm' (h.message_counter ∷ log)
  refused :
      (sm sm' : SessionManager) (log : List ℕ) (ct header : Bytes) (x : Error)
      → Run ccm start id local peer keys role sm log
      → decrypt_payload ccm sm id ct header ≡ (sm', err x)
      → Run ccm start id local peer keys role sm' log
  other_frame :
      (sm : SessionManager) (log : List ℕ) (j : ℕ) (ct header : Bytes)
      → Run ccm start id local peer keys role sm log
      → id ≢ j
      → Run ccm start id local peer keys role (decrypt_payload ccm sm j ct header).0 log
  other_installed :
      (sm : SessionManager) (log : List ℕ) (j a b : ℕ) (keys' : SessionKeys) (role' : Role)
      → Run ccm start id local peer keys role sm log
      → id ≢ j
      → Run ccm start id local peer keys role (install_secure_session sm j a b keys' role') log
  counted :
      (sm : SessionManager) (log : List ℕ) (s s' : Session) (c : ℕ)
      → Run ccm start id local peer keys role sm log
      → session sm id ≡ some s
      → next_outbound_counter s ≡ ok (s', c)
      → Run ccm start id local peer keys role (store sm id s') log

-- Every counter of a log, the latest first, is nonzero and does not lie exactly 32 above the
-- highest one before it.
abbrev pub AvoidsEdge : List ℕ → Type 0
AvoidsEdge [] = Unit {0}
AvoidsEdge (c ∷ log) = (0 < c) × ((highest log ≡ 0) ⊎ (c ≢ highest log + 32)) × AvoidsEdge log

-- The session is there with its key, its window represents the log, and no counter occurs twice
-- in the log.
pub record Sound (sm : SessionManager) (id : ℕ) (key : Bytes) (log : List ℕ) : Type 0 where
  pub current : Session
  pub there : sm id ≡ some current
  pub key_kept : current.decrypt_key ≡ key
  pub window : Represents current.replay log
  pub once : distinct log ≡ true

-- Only the entry of the session matters.
moved :
    (sm sm' : SessionManager) (id : ℕ) (key : Bytes) (log : List ℕ)
    → sm' id ≡ sm id
    → Sound sm id key log
    → Sound sm' id key log
moved sm sm' id key log e i = record {
  current = i.current;
  there = e ∙ i.there;
  key_kept = i.key_kept;
  window = i.window;
  once = i.once;
}

module _ (ccm : Ccm) where
  stored-other :
      (sm : SessionManager) (id j : ℕ) (r : Result Error (Session × Bytes))
      → id ≢ j
      → (stored ccm sm j r).0 id ≡ sm id
  stored-other sm id j (ok (s, pt)) ne = rw (==_ne id j ne)
  stored-other sm id j (err x) ne = refl

  decrypt_payload-other :
      (sm : SessionManager) (id j : ℕ) (ct header : Bytes)
      → id ≢ j
      → (decrypt_payload ccm sm j ct header).0 id ≡ sm id
  unfolding decrypt_payload
  decrypt_payload-other sm id j ct header ne = elim (Bool-cases (j == 0)) [
    | inl z ↦ rw z
    | inr nz ↦ rw nz (stored-other sm id j _ ne)
  ]

  decrypted-Sound :
      (sm sm' : SessionManager) (id : ℕ) (key : Bytes) (log : List ℕ) (ct header pt : Bytes)
      (h : Header) (n : ℕ)
      → id ≢ 0
      → Sound sm id key log
      → decrypt_payload ccm sm id ct header ≡ (sm', ok pt)
      → Header.unmarshal header ≡ ok (h, n)
      → 0 < h.message_counter
      → (highest log ≡ 0) ⊎ (h.message_counter ≢ highest log + 32)
      → Sound sm' id key (h.message_counter ∷ log)
  unfolding distinct is_fresh
  decrypted-Sound sm sm' id key log ct header pt h n nz i e parsed pos edge =
      let (s, g, m, w, found, parsed_g, accepted, _, kept) =
        decrypt_payload-ok ccm sm id ct header sm' pt nz e in
      let same : g.message_counter ≡ h.message_counter =
        ap (λ (p : Header × ℕ). p.0.message_counter) (ok-injective (sym parsed_g ∙ parsed)) in
      let one : s ≡ i.current = some-injective _ _ (sym found ∙ i.there) in
      let took : accept i.current.replay h.message_counter ≡ ok w = rw (← one, ← same) accepted in
      let fresh : is_fresh log h.message_counter ≡ true =
        sym (check-is_fresh i.current.replay log h.message_counter i.window pos)
        ∙ sym (is_ok-accept i.current.replay h.message_counter)
        ∙ ap is_ok took in
      record {
        current = record i.current { replay = w };
        there = rw (kept, ==_self id, one);
        key_kept = i.key_kept;
        window =
            accept-Represents i.current.replay log h.message_counter i.window pos w
              (rw i.window.maximum edge) took;
        once = ground (arith, fresh, i.once);
      }

  counted-Sound :
      (sm : SessionManager) (id : ℕ) (key : Bytes) (log : List ℕ) (s s' : Session) (c : ℕ)
      → Sound sm id key log
      → sm id ≡ some s
      → next_outbound_counter s ≡ ok (s', c)
      → Sound (store sm id s') id key log
  unfolding next_outbound_counter
  counted-Sound sm id key log s s' c i found e =
      let one : i.current ≡ s = some-injective _ _ (sym i.there ∙ found) in
      let window : s'.replay ≡ s.replay = ground arith in
      let key_same : s'.decrypt_key ≡ s.decrypt_key = ground arith in
      record {
        current = s';
        there = rw (==_self id);
        key_kept = key_same ∙ rw (← one) i.key_kept;
        window = rw (window, ← one) i.window;
        once = i.once;
      }

  -- Over every run of a session with a nonzero id, while the decrypted counters are nonzero and none lies
  -- exactly 32 above the highest one before it: the session stays in the table with the decrypt
  -- key that it was installed with, its window represents exactly the counters decrypted so far,
  -- and no counter was decrypted twice.
  pub Run-Sound :
      (start : SessionManager) (id local peer : ℕ) (keys : SessionKeys) (role : Role)
      (sm : SessionManager) (log : List ℕ)
      → id ≢ 0
      → Run ccm start id local peer keys role sm log
      → AvoidsEdge log
      → Sound sm id (decrypt_key_of role keys) log
  unfolding install_secure_session new_session distinct session
  Run-Sound start id local peer keys role _ _ nz installed _ = record {
    current = new_session id local peer keys role;
    there = rw (==_self id);
    key_kept = refl;
    window = empty_window-Represents;
    once = refl;
  }
  Run-Sound start id local peer keys role sm' _ nz
        (decrypted sm _ rest ct header pt h n before e parsed) (pos, edge, avoids) =
      decrypted-Sound sm sm' id _ rest ct header pt h n nz
        (Run-Sound start id local peer keys role sm rest nz before avoids) e parsed pos edge
  Run-Sound start id local peer keys role sm' log nz (refused sm _ _ ct header x before e) avoids =
      let same : sm' ≡ sm = decrypt_payload-err ccm sm id ct header sm' x e in
      moved sm sm' id _ log (ap (λ (t : SessionManager). t id) same)
        (Run-Sound start id local peer keys role sm log nz before avoids)
  Run-Sound start id local peer keys role _ log nz (other_frame sm _ j ct header before ne) avoids =
      moved sm _ id _ log (decrypt_payload-other sm id j ct header ne)
        (Run-Sound start id local peer keys role sm log nz before avoids)
  Run-Sound start id local peer keys role _ log nz (other_installed sm _ j a b k r before ne)
        avoids =
      moved sm _ id _ log (rw (==_ne id j ne))
        (Run-Sound start id local peer keys role sm log nz before avoids)
  Run-Sound start id local peer keys role _ log nz (counted sm _ s s' c before found e) avoids =
      counted-Sound sm id _ log s s' c
        (Run-Sound start id local peer keys role sm log nz before avoids) found e
