-- ===== src/Session/Manager/Replayed.antt =====
-- Replays over the lifetime of a session.
use go_matter.Base.{
  ℕ, ◌<◌, ◌≡◌, ◌≢◌, ap, sym, ◌∙◌, arith, true, List, [], ◌∷◌, inl, inr, ok, err, is_ok,
  Result-cases,
}
use go_matter.Base.Bytes.{Bytes}
use go_matter.Message.Header
use go_matter.Message.Header.{Header}
use go_matter.Crypto.Provider.{Ccm}
use go_matter.Crypto.SessionKeys.{SessionKeys}
use go_matter.Session.Window.{ReplayWindow, check, replayed_message_counter}
use go_matter.Session.Window.Log.{contains, is_fresh}
use go_matter.Session.Window.Refinement.{Represents, check-is_fresh}
use go_matter.Session.Manager.{SessionManager, Role, decrypt_payload, window}
use go_matter.Session.Manager.Traffic.{refused_replay}
use go_matter.Session.Manager.Run.{Run, AvoidsEdge, Run-Sound}

contained-positive : (log : List ℕ) (c : ℕ) → AvoidsEdge log → contains log c ≡ true → 0 < c
unfolding contains
contained-positive [] c avoids h = cc
contained-positive (x ∷ log) c (pos, edge, avoids) h =
    ground (arith, contained-positive log c avoids)

-- The window refuses a counter of the log.
not_fresh :
    (w : ReplayWindow) (log : List ℕ) (c : ℕ)
    → Represents w log
    → 0 < c
    → contains log c ≡ true
    → check w c ≡ err replayed_message_counter
unfolding is_fresh
not_fresh w log c r pos seen = elim (Result-cases (check w c)) [
  | inr (replayed_message_counter, e) ↦ e
  | inl (commit, e) ↦
      let fresh = sym (check-is_fresh w log c r pos) ∙ ap is_ok e in ground (arith, fresh, seen)
]

module _ (ccm : Ccm) where
  -- Over every run of a session with a nonzero id, while the decrypted counters are nonzero and none
  -- lies exactly 32 above the highest one before it: a frame of the session whose header parses to
  -- a counter that was decrypted at any earlier point of the run is refused as a replay, whatever
  -- its ciphertext, and changes nothing.
  pub decrypt_payload-replay :
      (start : SessionManager) (id local peer : ℕ) (keys : SessionKeys) (role : Role)
      (sm : SessionManager) (log : List ℕ) (ct header : Bytes) (h : Header) (n : ℕ)
      → id ≢ 0
      → Run ccm start id local peer keys role sm log
      → AvoidsEdge log
      → Header.unmarshal header ≡ ok (h, n)
      → contains log h.message_counter ≡ true
      → decrypt_payload ccm sm id ct header ≡ (sm, err (window replayed_message_counter))
  decrypt_payload-replay start id local peer keys role sm log ct header h n nz run avoids parsed
        seen =
      let i = Run-Sound ccm start id local peer keys role sm log nz run avoids in
      let pos = contained-positive log h.message_counter avoids seen in
      refused_replay ccm sm id i.current ct header h n nz i.there parsed
        (not_fresh i.current.replay log h.message_counter i.window pos seen)
