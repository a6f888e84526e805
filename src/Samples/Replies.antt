-- ===== src/Samples/Replies.antt =====
-- Whom the device's program answers.
use go_matter.Base.{
  ℕ, ◌≡◌, refl, sym, ap, ◌∙◌, List, [], ◌∷◌, ◌++◌, take, Option, none, some, Result, ok, err,
  bind-ok, ok-injective, Result-cases, inl, inr, ◌⊎◌,
}
use mathlib.Core.Path.{subst}
use mathlib.Core.List.{append_assoc, append-nil}
use go_matter.Base.Bytes.{Bytes}
use go_matter.Base.Int.{pos}
use go_matter.Message.Wire
use go_matter.Message.Frame
use go_matter.Message.Frame.{Frame}
use go_matter.Session.Manager.{new_session_manager}
use go_matter.Commissioning.Pase
use go_matter.Commissioning.Pase.{Suite, Randomness}
use go_matter.Commissioning.Commissionee
use go_matter.Commissioning.Commissionee.{new_commissionee}
use go_matter.Transport.{start, buffer_size, send, dispatch}
use go_matter.Samples.{send_message}
use go_matter.Samples.Device
use go_matter.Samples.Device.{Device, replied}

-- At most one datagram for each that arrived, in order, each to the address that the other came
-- from.
pub data Answers {A : Type 0} : List (Bytes × A) → List (A × Bytes) → Type 0 where
  nothing : Answers [] []
  silent :
      (b : Bytes) (from : A) (bs : List (Bytes × A)) (out : List (A × Bytes))
      → Answers bs out
      → Answers ((b, from) ∷ bs) out
  answered :
      (b w : Bytes) (from : A) (bs : List (Bytes × A)) (out : List (A × Bytes))
      → Answers bs out
      → Answers ((b, from) ∷ bs) ((from, w) ∷ out)

replied-cases :
    {A : Type 0} (from : A) (r : Result Pase.Error (Option Frame))
    → (replied (some from) r ≡ []) ⊎ ((w : Bytes) × (replied (some from) r ≡ (from, w) ∷ []))
unfolding replied send_message
replied-cases from (err e) = inl refl
replied-cases from (ok none) = inl refl
replied-cases from (ok (some f)) = elim (Result-cases (send f)) [
  | inl (w, sent) ↦ inr (w, rw sent)
  | inr (e, bad) ↦ inl (rw bad)
]

module _ {A : Type 0} (suite : Suite) (draws : ℕ → Randomness) where
  -- What the loop has written when it comes to the last datagram.
  record Written (bs : List (Bytes × A)) (d last : Device A) : Type 0 where
    out : List (A × Bytes)
    answers : Answers bs out
    sent : last.sent ≡ d.sent ++ out

  after_frame :
      (b : Bytes) (from : A) (bs : List (Bytes × A)) (f : Frame) (d last : Device A)
      → Written bs (Device.handler suite draws f from d) last
      → Written ((b, from) ∷ bs) d last
  unfolding Device.handler
  after_frame b from bs f d last w =
      let r = (Commissionee.handle_message suite f (draws d.handled) d.commissionee).1 in
      elim (replied-cases from r) [
        | inl none_sent ↦ record {
          out = w.out;
          answers = silent b from bs w.out w.answers;
          sent =
              w.sent
              ∙ append_assoc d.sent _ w.out
              ∙ ap (λ (sent : List (A × Bytes)). d.sent ++ (sent ++ w.out)) none_sent;
        }
        | inr (x, one) ↦ record {
          out = (from, x) ∷ w.out;
          answers = answered b x from bs w.out w.answers;
          sent =
              w.sent
              ∙ append_assoc d.sent _ w.out
              ∙ ap (λ (sent : List (A × Bytes)). d.sent ++ (sent ++ w.out)) one;
        }
      ]

  device_start-Written :
      (bs : List (Bytes × A)) (d : Device A)
      → Written bs d (start (some (Device.handler suite draws)) bs d)
  unfolding start
  device_start-Written [] d = record { out = []; answers = nothing; sent = sym (append-nil d.sent) }
  device_start-Written ((b, from) ∷ bs) d =
      let handle = Device.handler suite draws in
      elim (Result-cases (Frame.decode (take buffer_size b))) [
        | inl (f, decoded) ↦
            let step : start (some handle) ((b, from) ∷ bs) d
                ≡ start (some handle) bs (handle f from d) =
              ap
                (λ (r : Result Wire.Error Frame).
                  start (some handle) bs (dispatch (some handle) r from d))
                decoded in
            subst (Written ((b, from) ∷ bs) d) (sym step)
              (after_frame b from bs f d _ (device_start-Written bs (handle f from d)))
        | inr (e, malformed) ↦
            let step : start (some handle) ((b, from) ∷ bs) d ≡ start (some handle) bs d =
              ap
                (λ (r : Result Wire.Error Frame).
                  start (some handle) bs (dispatch (some handle) r from d))
                malformed in
            let rest = device_start-Written bs d in
            subst (Written ((b, from) ∷ bs) d) (sym step) (record {
              out = rest.out;
              answers = silent b from bs rest.out rest.answers;
              sent = rest.sent;
            })
      ]

  -- Whatever datagrams arrive, the device's program writes at most one for each, in the order in
  -- which they arrive, and to the address that it came from.
  pub device_main-Answers :
      (bs : List (Bytes × A)) (d : Device A) → Device.main suite draws bs ≡ ok d → Answers bs d.sent
  unfolding Device.main
  device_main-Answers bs d h =
      let (c, made, h') =
        bind-ok (new_commissionee suite 12345678 Device.salt (pos 1000) (some new_session_manager))
          _ h in
      let all = device_start-Written bs (Device.new_device c) in
      subst (λ (x : Device A). Answers bs x.sent) (ok-injective h')
        (subst (Answers bs) (sym all.sent) all.answers)
