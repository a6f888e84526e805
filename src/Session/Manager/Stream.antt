-- ===== src/Session/Manager/Stream.antt =====
-- A stream of messages from one of two paired sessions to the other, over a network that loses some.
use go_matter.Base.{
  ℕ, lt→ltb, ◌-◌, ◌^◌, ◌==◌, ◌<◌, ◌≡◌, ◌≢◌, refl, arith, Bool, if◌then◌else◌, Bool-cases, List, [],
  ◌∷◌, some, Result, ok, err, length, ==_self, inl, inr,
}
use go_matter.Base.Bytes.{Bytes}
use go_matter.Message.Header
use go_matter.Message.Header.{Header}
use go_matter.Crypto.Provider.{Ccm}
use go_matter.Session.Window.{ReplayWindow, check, advance}
use go_matter.Session.Manager.{
  Session, SessionManager, Error, store, decrypt_payload, encrypt_payload,
}
use go_matter.Session.Manager.Install.{Paired, decrypt_payload-encrypt_payload}

-- A message to send, the bytes of its header, and whether the network delivers it.
pub record Sending : Type 0 where
  pub header : Bytes
  pub payload : Bytes
  pub delivered : Bool

-- The payloads have fewer than 2^16 bytes, the headers parse, and their counters ascend, the first
-- one above `m`.
abbrev pub Ascending : ℕ → List Sending → Type 0
Ascending m [] = Unit {0}
Ascending m (x ∷ xs) =
    (h : Header) × (n : ℕ) × (Header.unmarshal x.header ≡ ok (h, n))
    × (m < h.message_counter)
    × (length x.payload < 2 ^ 16)
    × Ascending h.message_counter xs

-- The payloads of the messages that arrive.
abbrev pub arriving : List Sending → List (Result Error Bytes)
arriving [] = []
arriving (x ∷ xs) = if x.delivered then ok x.payload ∷ arriving xs else arriving xs

-- A counter above the maximum is accepted, and is then the maximum.
check-above :
    (w : ReplayWindow) (c : ℕ)
    → w.max < c
    → (commit : (ReplayWindow → ReplayWindow)) × (check w c ≡ ok commit) × ((commit w).max ≡ c)
unfolding check
check-above w c h = elim (Bool-cases (w.max == 0)) [
  | inl unused ↦ ((λ v. record v { max = c }), rw unused, refl)
  | inr used ↦ (advance c (c - w.max), rw (used, lt→ltb w.max c h), refl)
]

Ascending-below : (m k : ℕ) (xs : List Sending) → m < k → Ascending k xs → Ascending m xs
Ascending-below m k [] below a = tt
Ascending-below m k (x ∷ xs) below (h, n, parsed, above, small, more) =
    (h, n, parsed, omega arith, small, more)

module _ (ccm : Ccm) where
  -- What `EncryptPayload` gives for each message that arrives is handed to `DecryptPayload` of the
  -- receiver, with its table of that moment.
  abbrev pub handed :
      SessionManager → ℕ → Bytes → Result Error Bytes → SessionManager × Result Error Bytes
  handed tm j header (ok ct) = decrypt_payload ccm tm j ct header
  handed tm j header (err e) = (tm, err e)

  unfoldable pub transmit :
      SessionManager → SessionManager → ℕ → ℕ → List Sending → List (Result Error Bytes)
  transmit sm tm i j [] = []
  transmit sm tm i j (x ∷ xs) =
      let step = handed tm j x.header (encrypt_payload ccm sm i x.payload x.header) in
      let lost = transmit sm tm i j xs in
      let arrived = step.1 ∷ transmit sm step.0 i j xs in if x.delivered then arrived else lost

  -- One of two sessions sends to the other: their ids are nonzero, the key that one encrypts with
  -- is the key that the other decrypts with and has 16 bytes, every payload has fewer than 2^16
  -- bytes, every header parses, and the counters ascend from above the maximum of the receiver's
  -- window. Then every message is encrypted, and those that the network delivers, whichever of
  -- them are lost, decrypt in order to the payloads that were sent.
  pub transmit-arriving :
      (sm tm : SessionManager) (i j : ℕ) (s t : Session) (xs : List Sending)
      → i ≢ 0
      → j ≢ 0
      → sm i ≡ some s
      → tm j ≡ some t
      → Paired s t
      → length s.encrypt_key ≡ 16
      → Ascending t.replay.max xs
      → transmit sm tm i j xs ≡ arriving xs
  unfolding transmit
  transmit-arriving sm tm i j s t [] iz jz si tj pair size ascends = refl
  transmit-arriving sm tm i j s t (x ∷ xs) iz jz si tj pair size
        (h, n, parsed, above, small, more) =
      let (commit, fresh, top) = check-above t.replay h.message_counter above in
      let (ct, sealed, opened) =
        decrypt_payload-encrypt_payload ccm sm tm i j s t x.payload x.header h n commit iz jz si tj
          pair size small parsed fresh in
      let t' = record t { replay = commit t.replay } in
      elim (Bool-cases x.delivered) [
        | inl arrives ↦ rw (
          arrives,
          sealed,
          opened,
          transmit-arriving sm (store tm j t') i j s t' xs iz jz si (rw (==_self j))
              (record { forth = pair.forth; back = pair.back }) size (rw top more),
        )
        | inr lost ↦ rw lost (
            transmit-arriving sm tm i j s t xs iz jz si tj pair size
              (Ascending-below t.replay.max h.message_counter xs above more))
      ]
