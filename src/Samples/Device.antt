-- ===== src/Samples/Device.antt =====
-- samples/commissioning/device/main.go.
use go_matter.Base.{ℕ, suc, List, [], ◌∷◌, ◌++◌, Option, none, some, Result, ok, err, ◌>>=◌}
use go_matter.Base.Bytes.{Bytes}
use go_matter.Base.Int.{pos}
use go_matter.Message.Frame.{Frame}
use go_matter.Session.Manager.{new_session_manager}
use go_matter.Commissioning.Pase
use go_matter.Commissioning.Pase.{Suite, Randomness}
use go_matter.Commissioning.Commissionee
use go_matter.Commissioning.Commissionee.{Commissionee, new_commissionee}
use go_matter.Transport.{start}
use go_matter.Samples.{send_message, written}

-- The commissionee, the messenger's peer, the datagrams that were written, and how many frames
-- were handled, which picks the draws of the next handler.
pub record Device (A : Type 0) : Type 0 where
  pub commissionee : Commissionee
  pub peer : Option A
  pub sent : List (A × Bytes)
  pub handled : ℕ

-- The bytes of "SPAKE2P Key Salt".
abbrev pub salt : Bytes
salt =
    b'S' ∷ b'P' ∷ b'A' ∷ b'K' ∷ b'E' ∷ b'2' ∷ b'P' ∷ b' ' ∷ b'K' ∷ b'e' ∷ b'y' ∷ b' ' ∷ b'S' ∷ b'a'
    ∷ b'l' ∷ b't' ∷ []

abbrev pub new_device : {A : Type 0} → Commissionee → Device A
new_device c = record { commissionee = c; peer = none; sent = []; handled = 0 }

-- The reply of a handler, to the messenger's peer.
unfoldable pub replied :
    {A : Type 0} → Option A → Result Pase.Error (Option Frame) → List (A × Bytes)
unfolding send_message
replied peer (err e) = []
replied peer (ok none) = []
replied peer (ok (some frame)) = written (send_message peer frame)

module _ {A : Type 0} (suite : Suite) (draws : ℕ → Randomness) where
  -- The handler that `main` passes to `Start`.
  unfoldable pub handler : Frame → A → Device A → Device A
  unfolding replied
  handler frame from d =
      let step = Commissionee.handle_message suite frame (draws d.handled) d.commissionee in
      record {
        commissionee = step.0;
        peer = some from;
        sent = d.sent ++ replied (some from) step.1;
        handled = suc d.handled;
      }

  -- `main`, until the socket fails; the error is the panic on `NewCommissionee`.
  unfoldable pub main : List (Bytes × A) → Result Pase.Error (Device A)
  unfolding handler new_commissionee start new_session_manager
  main datagrams = do
    commissionee ← new_commissionee suite 12345678 salt (pos 1000) (some new_session_manager)
    ok (start (some handler) datagrams (new_device commissionee))
